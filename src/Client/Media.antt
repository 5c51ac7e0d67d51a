-- ===== src/Client/Media.antt =====
-- The commands on the media library in cli/Session.cpp: `ZuneInit`, `ZuneImport` and the playlists.
use zune_sync.Base.{
  ℕ, ◌==◌, not, Bool, true, false, if◌then◌else◌, List, length, Option, none, some, Error, Result,
  ok, err,
}
use zune_sync.Base.Stateful.{◌>>=◌, ◌>>◌, return, lift}
use zune_sync.Library.Lists.{is_empty}
use zune_sync.Library.State.{Library, NewTrackInfo, Platform, null_id}
use zune_sync.Library.State as LibraryState
use zune_sync.Library.Artists.{get_artist, create_artist}
use zune_sync.Library.Albums.{
  get_album, create_album, get_track_id, create_track, add_track, add_cover,
}
use zune_sync.Library.Playlists.{create_playlist, clear_playlist, add_to_playlist}
use zune_sync.Library.Start.{blank_library, library_new}
use zune_sync.Client.Text.{get_filename}
use zune_sync.Client.State.{ClientSession, Client, Method, call}

-- `Metadata` of mtp/metadata/Metadata.h; `picture` is the data of the picture.
pub record Metadata : Type 0 where
  pub title : List ℕ
  pub artist : List ℕ
  pub album : List ℕ
  pub genre : List ℕ
  pub year : ℕ
  pub track : ℕ
  pub picture : List ℕ

-- The local files: the bytes of one, what TagLib reads of it, and its format by its name and libmagic.
pub record Files : Type 0 where
  pub contents : List ℕ → Result (List ℕ)
  pub read_metadata : List ℕ → Option Metadata
  pub format : List ℕ → ℕ

-- `throw std::runtime_error("no metadata")`
unfoldable pub metadata_or_throw : Option Metadata → Result Metadata
metadata_or_throw none = err Error.no_metadata
metadata_or_throw (some meta) = ok meta

module _ (platform : Platform) (files : Files) (C : ClientSession) where
  -- A method of `_library`; it runs where there is one.
  unfoldable pub on_library : {A : Type 0} → LibraryState.Method C.base A → Method C A
  on_library m w = elim w.0.library [
    | none ↦ (err Error.no_library, w)
    | some l ↦ let r = m (l, w.1) in (r.0, (record w.0 { library = some r.1.0 }, r.1.1))
  ]

  -- What `make_shared<Library>` gives: nothing is kept of a library whose constructor throws.
  unfoldable pub new_library :
      Client
      → Result (Unit {0}) × (Library × C.base.State)
      → Result (Unit {0}) × (Client × C.base.State)
  new_library c (ok u, (l, s)) = (ok u, (record c { library = some l }, s))
  new_library c (err e, (l, s)) = (err e, (c, s))

  unfoldable pub zune_init : Method C (Unit {0})
  zune_init w = elim w.0.library [
    | none ↦ new_library w.0 (library_new platform C.base (blank_library, w.1))
    | some l ↦ (ok tt, w)
  ]

  unfoldable pub artist_or_new : List ℕ → Option ℕ → Method C ℕ
  artist_or_new name (some artist) = return artist
  artist_or_new name none = on_library (create_artist C.base name)

  unfoldable pub album_or_new : ℕ → Metadata → Option ℕ → Method C ℕ
  album_or_new artist meta (some album) = return album
  album_or_new artist meta none =
      on_library (create_album platform C.base (some artist) meta.album meta.year)

  -- The end of `ZuneImport`, for a track that is not on the device.
  unfoldable pub import_track : List ℕ → List ℕ → Metadata → ℕ → ℕ → Method C (Option ℕ)
  import_track path bytes meta artist album = do
    song ← on_library (
        create_track platform C.base artist album (files.format path) meta.title meta.genre
          meta.track (get_filename path) (length bytes))
    call (C.send_object bytes)
    if is_empty meta.picture
        then return tt
        else on_library (add_cover platform C.base (some album) meta.picture)
    on_library (add_track platform C.base (some album) song)
    return (some song.id)

  -- The object that was imported, or none where the track is there already.
  unfoldable pub zune_import : List ℕ → Method C (Option ℕ)
  zune_import path = do
    zune_init
    bytes ← lift (files.contents path)
    meta ← lift (metadata_or_throw (files.read_metadata path))
    known_artist ← on_library (LibraryState.read_library (get_artist meta.artist))
    artist ← artist_or_new meta.artist known_artist
    known_album ← on_library (LibraryState.read_library (get_album artist meta.album))
    album ← album_or_new artist meta known_album
    existing ← on_library (get_track_id platform C.base (some album) meta.title meta.track)
    if not (existing == null_id) then return none else import_track path bytes meta artist album

  unfoldable pub zune_playlist_clear : List ℕ → Method C ℕ
  zune_playlist_clear name = do
    zune_init
    playlist ← on_library (create_playlist C.base name)
    on_library (clear_playlist C.base (some playlist))
    return playlist

  unfoldable pub zune_playlist_add_id : List ℕ → ℕ → Method C (Unit {0})
  zune_playlist_add_id name track_id = do
    zune_init
    playlist ← on_library (create_playlist C.base name)
    on_library (add_to_playlist C.base (some playlist) track_id)

  -- The album of a track that should be on the device.
  unfoldable pub album_of : Metadata → Option ℕ → Method C (Option ℕ)
  album_of meta none = return none
  album_of meta (some artist) = on_library (LibraryState.read_library (get_album artist meta.album))

  -- Whether the track was on the device.
  unfoldable pub zune_playlist_add : List ℕ → List ℕ → Method C Bool
  zune_playlist_add name path = do
    zune_init
    meta ← lift (metadata_or_throw (files.read_metadata path))
    artist ← on_library (LibraryState.read_library (get_artist meta.artist))
    album ← album_of meta artist
    track_id ← on_library (get_track_id platform C.base album meta.title meta.track)
    if track_id == null_id then return false else (do
      playlist ← on_library (create_playlist C.base name)
      on_library (add_to_playlist C.base (some playlist) track_id)
      return true)
