-- ===== src/Client/Import.antt =====
-- `ZuneImport` of a track that is on the device.
use zune_sync.Base.{
  ℕ, ne→==, ◌≡◌, ◌≢◌, sym, ap, ◌∙◌, true, List, none, some, Error, Result, ok, err, arith,
}
use zune_sync.Base.Stateful.{◌>>=◌, return, call_ok}
use zune_sync.Library.State.{Library, Platform, null_id}
use zune_sync.Library.State as LibraryState
use zune_sync.Library.Artists.{get_artist}
use zune_sync.Library.Albums.{get_album, equal_range, find_index, load_refs, get_track_id}
use zune_sync.Library.Loading.{load_refs-loaded}
use zune_sync.Library.Start.{blank_library, library_new}
use zune_sync.Client.State.{ClientSession, Client}
use zune_sync.Client.Media.{
  Metadata, Files, metadata_or_throw, on_library, new_library, zune_init, artist_or_new,
  album_or_new, zune_import,
}

module _ (platform : Platform) (files : Files) (C : ClientSession) where
  get_track_id-loaded :
      (album : ℕ) (title : List ℕ) (track : ℕ) (l : Library) (s : C.base.State)
      → (l.album_at album).refs_loaded ≡ true
      → get_track_id platform C.base (some album) title track (l, s) ≡ (
        ok (find_index track (platform.range_order (equal_range title (l.album_at album).tracks))),
        (l, s),
      )
  unfolding get_track_id
  get_track_id-loaded album title track l s h =
      call_ok (load_refs platform C.base (some album))
        (λ u. LibraryState.read_library (λ k. (k.album_at album).tracks) >>= λ tracks.
          return (find_index track (platform.range_order (equal_range title tracks))))
        (l, s) (l, s) tt (load_refs-loaded platform C.base album (l, s) h)

  on_library-same :
      {A : Type 0} (m : LibraryState.Method C.base A) (c : Client) (l : Library) (s : C.base.State)
      (a : A)
      → c.library ≡ some l
      → m (l, s) ≡ (ok a, (l, s))
      → on_library platform files C m (c, s) ≡ (ok a, (c, s))
  unfolding on_library
  on_library-same {A = A} m c l s a h e =
      ap
        (λ o. elim o as (λ _. Result A × (Client × C.base.State)) [
          | none ↦ (err Error.no_library, (c, s))
          | some k ↦ let r = m (k, s) in (r.0, (record c { library = some r.1.0 }, r.1.1))
        ])
        h
      ∙ ap
          (λ (r : Result A × (Library × C.base.State)).
            (r.0, (record c { library = some r.1.0 }, r.1.1)))
          e
      ∙ ap (λ o. (ok a, (record c { library = o }, s))) (sym h)

  zune_init-known :
      (c : Client) (l : Library) (s : C.base.State)
      → c.library ≡ some l
      → zune_init platform files C (c, s) ≡ (ok tt, (c, s))
  unfolding zune_init
  zune_init-known c l s h =
      ap
        (λ o. elim o as (λ _. Result (Unit {0}) × (Client × C.base.State)) [
          | none ↦ new_library platform files C c (library_new platform C.base (blank_library, s))
          | some k ↦ (ok tt, (c, s))
        ])
        h

  -- A file whose artist, album and track the library has, with the tracks of the album loaded, is not
  -- imported again: `ZuneImport` returns, nothing is asked of the device or sent to it, and the library is
  -- as it was.
  pub zune_import-known :
      (path bytes : List ℕ) (meta : Metadata) (artist album : ℕ) (l : Library) (c : Client)
      (s : C.base.State)
      → c.library ≡ some l
      → files.contents path ≡ ok bytes
      → files.read_metadata path ≡ some meta
      → get_artist meta.artist l ≡ some artist
      → get_album artist meta.album l ≡ some album
      → (l.album_at album).refs_loaded ≡ true
      → find_index meta.track
          (platform.range_order (equal_range meta.title (l.album_at album).tracks))
        ≢ null_id
      → zune_import platform files C path (c, s) ≡ (ok none, (c, s))
  unfolding zune_import metadata_or_throw artist_or_new album_or_new
  zune_import-known path bytes meta artist album l c s has_library has_file has_meta has_artist
        has_album loaded known =
      let looked_up : on_library platform files C
            (LibraryState.read_library (get_artist meta.artist)) (c, s)
          ≡ (ok (some artist), (c, s)) =
        on_library-same (LibraryState.read_library (get_artist meta.artist)) c l s (some artist)
          has_library (ap (λ o. (ok o, (l, s))) has_artist) in
      let album_found : on_library platform files C
            (LibraryState.read_library (get_album artist meta.album)) (c, s)
          ≡ (ok (some album), (c, s)) =
        on_library-same (LibraryState.read_library (get_album artist meta.album)) c l s (some album)
          has_library (ap (λ o. (ok o, (l, s))) has_album) in
      let track_found =
        on_library-same (get_track_id platform C.base (some album) meta.title meta.track) c l s _
          has_library (get_track_id-loaded album meta.title meta.track l s loaded) in
      ground (
        arith,
        zune_init-known c l s has_library,
        has_file,
        has_meta,
        looked_up,
        album_found,
        track_found,
        ne→== _ _ known,
      )
