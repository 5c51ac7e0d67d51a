-- ===== src/Library/Tests.antt =====
-- The theorems about the media library at concrete inputs.
use zune_sync.Base.{
  ℕ, ◌≡◌, ◌≢◌, refl, inr, true, false, List, [], ◌∷◌, ◌++◌, map, some, Error, ok, err, arith,
}
use zune_sync.Base.Dict.{equal_bytes, find, insert}
use zune_sync.Stream.Output
use zune_sync.Stream.Text.{utf8}
use zune_sync.Stream.Fields.{IsMessageText}
use zune_sync.Messages.Object.{find_code}
use zune_sync.PropertyList.Parser.{parse_skipping, parse}
use zune_sync.PropertyList.Skipping.{listed}
use zune_sync.Library.Interface.{session_interface}
use zune_sync.Library.Written.{add_to_playlist-confirmed}
use zune_sync.Session.Confirmed.{IsConfirmed, behind}
use zune_sync.Codes.OperationCode
use zune_sync.Messages.Device.{supports_operation}
use zune_sync.Stream.Codec.{le32}
use zune_sync.Stream.Arrays.{array_bytes}
use zune_sync.Pipe.Answers.{transfers}
use zune_sync.Pipe.Samples.{
  ok_frame, ok_frame-IsFrame, stale, stale-AllStale, cut_transfer, cut_transfer-Carries,
}
use zune_sync.Session.State.{Session}
use zune_sync.Session.Transaction.{blank, blank_info}
use zune_sync.Library.Samples.{shelf}
use zune_sync.Library.State.{Library, null_id, set_playlist, new_playlist, update}
use zune_sync.Library.Lists.{track_properties, playlist_properties}
use zune_sync.Library.Start.{blank_library}
use zune_sync.Library.Playlists.{
  get_playlist, set_tracks, insert_playlist, write_playlist_refs, add_to_playlist, create_playlist,
  create_new_playlist, return_or_create, register_playlist,
}
use zune_sync.Library.Announced.{track_codes, parse-track_properties}
use zune_sync.Library.Tracks.{IsPlayable, add_to_playlist-IsPlayable, add_to_playlist-refused}
use zune_sync.Library.Names.{create_playlist-again}

-- A playlist of the object 5 with the track 7, under the number 0.
abbrev mix : List ℕ → Library
mix tracks =
    set_playlist 0 (record { id = 5; name = b'm' ∷ []; tracks = tracks })
      (record blank_library {
        playlists_supported = true;
        storage = 0x10001;
        next = 1;
        playlists = ((b'm' ∷ []), 0) ∷ [];
      })

mix-IsPlayable : IsPlayable ((mix (7 ∷ [])).playlist_at 0).tracks
unfolding find_code
mix-IsPlayable = record { distinct = (refl, tt); no_null = refl }

add_to_playlist-IsPlayable_example :
    IsPlayable ((add_to_playlist shelf (some 0) 8 (mix (7 ∷ []), [])).1.0.playlist_at 0).tracks
add_to_playlist-IsPlayable_example =
    add_to_playlist-IsPlayable shelf (some 0) 8 0 (mix (7 ∷ [])) [] mix-IsPlayable

not_null : 8 ≢ null_id
not_null = omega arith

new_8 : find_code ((mix (7 ∷ [])).playlist_at 0).tracks 8 ≡ false
unfolding find_code
new_8 = refl

added_8 :
    add_to_playlist shelf (some 0) 8 (mix (7 ∷ []), [])
    ≡ (ok tt, (set_tracks 0 (7 ∷ (8 ∷ [])) (mix (7 ∷ [])), (5, 7 ∷ (8 ∷ [])) ∷ []))
unfolding add_to_playlist write_playlist_refs set_tracks find_code
added_8 = refl

-- A session in which transaction 7 is next, on a device that confirms.
abbrev confirming : Session
confirming = record (blank (transfers stale (cut_transfer 5 ok_frame ∷ []))) {
  next_transaction_id = 7;
  device_info = record blank_info {
    operations_supported = OperationCode.set_object_references ∷ [];
  };
}

confirming_supports :
    supports_operation confirming.device_info OperationCode.set_object_references ≡ true
unfolding supports_operation find_code
confirming_supports = refl

confirming-IsConfirmed :
    IsConfirmed 7 confirming.incoming stale (cut_transfer 5 ok_frame) ok_frame []
confirming-IsConfirmed = record {
  delivered = refl;
  stale = stale-AllStale;
  carries = cut_transfer-Carries 5 ok_frame ok_frame-IsFrame;
  accepts = inr refl;
  is_response = refl;
  is_ok = refl;
}

add_to_playlist-confirmed_example :
    (add_to_playlist session_interface (some 0) 8 (mix (7 ∷ []), confirming) ≡ (
      ok tt,
      (
        set_tracks 0 (7 ∷ (8 ∷ [])) (mix (7 ∷ [])),
        behind stale
            (cut_transfer 5 ok_frame)
            ok_frame
            []
            OperationCode.set_object_references
            (5 ∷ [])
            (some (
              array_bytes le32 ((set_tracks 0 (7 ∷ (8 ∷ [])) (mix (7 ∷ []))).playlist_at 0).tracks))
            confirming,
      ),
    ))
    × (((set_tracks 0 (7 ∷ (8 ∷ [])) (mix (7 ∷ []))).playlist_at 0).tracks ≡ 7 ∷ (8 ∷ []))
add_to_playlist-confirmed_example =
    add_to_playlist-confirmed 0 8 (mix (7 ∷ [])) confirming stale (cut_transfer 5 ok_frame) ok_frame
      [] not_null new_8 confirming_supports (omega arith) refl confirming-IsConfirmed

abbrev full : List ℕ
full = 1 ∷ (2 ∷ (3 ∷ []))

new_in_full : find_code ((mix full).playlist_at 0).tracks 8 ≡ false
unfolding find_code
new_in_full = refl

add_to_playlist-refused_example :
    (add_to_playlist shelf (some 0) 8 (mix full, [])
      ≡ (err Error.timeout, (set_tracks 0 (full ++ (8 ∷ [])) (mix full), [])))
    × (add_to_playlist shelf (some 0) 8 (set_tracks 0 (full ++ (8 ∷ [])) (mix full), [])
        ≡ (ok tt, (set_tracks 0 (full ++ (8 ∷ [])) (mix full), [])))
add_to_playlist-refused_example =
    add_to_playlist-refused shelf 0 8 (mix full) [] [] Error.timeout not_null new_in_full refl

abbrev road : List ℕ
road = b'r' ∷ []

created : create_playlist shelf road (mix [], []) ≡ (
  ok 1,
  (
    insert_playlist road 1 (record (mix []) {
      next = 2;
      playlist_at = update (mix []).playlist_at 1 (record { id = 9; name = road; tracks = [] });
    }),
    [],
  ),
)
unfolding create_playlist return_or_create create_new_playlist register_playlist get_playlist
    new_playlist find equal_bytes playlist_properties zune_sync.PropertyList.Entries.string_property
    zune_sync.Stream.Output.write32 zune_sync.Stream.Output.write16 zune_sync.Stream.Output.write8
    zune_sync.Stream.Output.write_string zune_sync.Stream.Output.utf8_length
    zune_sync.Stream.Output.write_units zune_sync.Stream.Output.is_leading
    zune_sync.Stream.Output.next_unit insert insert_playlist
created = refl

abbrev with_road : Library
with_road = insert_playlist road 1 (record (mix []) {
  next = 2;
  playlist_at = update (mix []).playlist_at 1 (record { id = 9; name = road; tracks = [] });
})

create_playlist-again_example : create_playlist shelf road (with_road, []) ≡ (ok 1, (with_road, []))
create_playlist-again_example = create_playlist-again shelf road 1 (mix []) with_road [] [] created

title : IsMessageText (b'b' ∷ [])
unfolding utf8 zune_sync.Stream.Input.unit_bytes
title = (b'b' ∷ [], record { units = ((omega arith, omega arith), tt); short = omega arith }, refl)

parse-track_properties_example :
    (bytes : List ℕ) × (track_properties true 4 (b'b' ∷ []) (b'b' ∷ []) 3 (b'b' ∷ []) (b'b' ∷ []) []
      ≡ ok bytes)
    × (parse parse_skipping bytes ≡ ok (map listed (track_codes true 3 (b'b' ∷ []))))
parse-track_properties_example =
    parse-track_properties true 4 (b'b' ∷ []) (b'b' ∷ []) 3 (b'b' ∷ []) (b'b' ∷ []) title title
      title title
