-- ===== src/Library/Written.antt =====
-- `AddToPlaylist` over the session of mtp/ptp/Session.cpp, down to the bytes on the pipe.
use zune_sync.Base.{
  ℕ, ◌+◌, ◌*◌, ◌≤◌, ◌≡◌, ◌≢◌, eq→==, refl, sym, ap, ◌∙◌, false, true, List, [], ◌∷◌, ◌++◌, length,
  length-append, some, Result, ok, arith,
}
use zune_sync.Codes.OperationCode
use zune_sync.Messages.Object.{max_object_size, find_code}
use zune_sync.Messages.Device.{supports_operation}
use zune_sync.Stream.Codec.{le32}
use zune_sync.Stream.Arrays.{array_bytes}
use zune_sync.Pipe.Packeter.{Transfer}
use zune_sync.Pipe.Exchange.{Frame}
use zune_sync.Session.State.{Session}
use zune_sync.Session.Confirmed.{IsConfirmed, behind, set_object_references-confirmed}
use zune_sync.Library.Interface.{session_interface}
use zune_sync.Library.State.{Library, null_id}
use zune_sync.Library.Playlists.{set_tracks, add_to_playlist}
use zune_sync.Library.Tracks.{add_to_playlist-new}

-- A new track for a playlist, over a pipe that takes every write, on a device that has the operation and
-- answers it by an OK response, possibly with stale frames before, where the list fits the size field:
-- `AddToPlaylist` returns, the playlist has the track at its end, and the pipe got the command with the
-- playlist's object and the array of all its tracks, the new one included.
pub add_to_playlist-confirmed :
    (p track_id : ℕ) (l : Library) (s : Session) (before : List (Transfer × Frame)) (u : Transfer)
    (g : Frame) (ts : List Transfer)
    → track_id ≢ null_id
    → find_code (l.playlist_at p).tracks track_id ≡ false
    → supports_operation s.device_info OperationCode.set_object_references ≡ true
    → 4 * length (l.playlist_at p).tracks + 20 ≤ max_object_size
    → s.faults ≡ []
    → IsConfirmed s.next_transaction_id s.incoming before u g ts
    → let tracks = (l.playlist_at p).tracks ++ (track_id ∷ []) in
      let l' = set_tracks p tracks l in
      (add_to_playlist session_interface (some p) track_id (l, s) ≡ (
        ok tt,
        (
          l',
          behind before u g ts OperationCode.set_object_references
              ((l.playlist_at p).id ∷ [])
              (some (array_bytes le32 (l'.playlist_at p).tracks))
              s,
        ),
      ))
      × ((l'.playlist_at p).tracks ≡ tracks)
unfolding set_tracks
add_to_playlist-confirmed p track_id l s before u g ts n h supported size whole c =
    let tracks = (l.playlist_at p).tracks ++ (track_id ∷ []) in
    let l' = set_tracks p tracks l in
    let listed : (l'.playlist_at p).tracks ≡ tracks = rw (eq→== p p refl) in
    let long : length tracks ≡ length (l.playlist_at p).tracks + 1 =
      length-append (l.playlist_at p).tracks (track_id ∷ []) in
    (
      add_to_playlist-new session_interface p track_id l s n h
          ∙ ap (λ (r : Result (Unit {0}) × Session). (r.0, (l', r.1)))
              (set_object_references-confirmed before u g ts (l.playlist_at p).id tracks s supported
                (omega (arith, long, size)) whole c)
          ∙ ap
              (λ t. (
                ok tt,
                (
                  l',
                  behind before u g ts OperationCode.set_object_references
                      ((l.playlist_at p).id ∷ []) (some (array_bytes le32 t)) s,
                ),
              ))
              (sym listed),
      listed,
    )
