-- ===== src/Library/Albums.antt =====
-- Albums and their tracks in mtp/metadata/Library.cpp.
use zune_sync.Base.{
  ℕ, ◌==◌, if◌then◌else◌, ◌&&◌, not, Bool, true, false, List, [], ◌∷◌, ◌++◌, Option, none, some,
  u32, Error,
}
use zune_sync.Base.Dict.{equal_bytes, find, insert}
use zune_sync.Base.Stateful.{◌>>=◌, ◌>>◌, return, throw, lift}
use zune_sync.Codes.ObjectFormat
use zune_sync.Codes.ObjectProperty
use zune_sync.Messages.Object.{find_code}
use zune_sync.Library.Interface.{SessionInterface}
use zune_sync.Library.State.{
  Library, NewTrackInfo, Platform, null_id, same_key, Method, ask, read_library, modify, new_album,
  set_album,
}
use zune_sync.Library.Lists.{is_empty, album_properties, track_properties}
use zune_sync.Library.Artists.{get_or_create}

-- "UknownAlbum"
abbrev pub unknown_album : List ℕ
unknown_album = b'U' ∷ b'k' ∷ b'n' ∷ b'o' ∷ b'w' ∷ b'n' ∷ b'A' ∷ b'l' ∷ b'b' ∷ b'u' ∷ b'm' ∷ []

abbrev pub album_name_or_unknown : List ℕ → List ℕ
album_name_or_unknown name = if is_empty name then unknown_album else name

-- `_albums.find(std::make_pair(artist, name))`
unfoldable pub get_album : ℕ → List ℕ → Library → Option ℕ
get_album artist name l = find same_key (artist, album_name_or_unknown name) l.albums

-- `_albums.insert(...)`
unfoldable pub insert_album : ℕ → List ℕ → ℕ → Library → Library
insert_album artist name album l = record l {
  albums = insert same_key (artist, name) album l.albums;
}

-- `insert` on a hash set.
unfoldable pub set_insert : ℕ → List ℕ → List ℕ
set_insert id refs = if find_code refs id then refs else refs ++ (id ∷ [])

unfoldable pub set_insert_all : List ℕ → List ℕ → List ℕ
set_insert_all [] refs = refs
set_insert_all (id ∷ ids) refs = set_insert_all ids (set_insert id refs)

-- `equal_range(name)`: the tracks of this name.
unfoldable pub equal_range : List ℕ → List (List ℕ × (ℕ × ℕ)) → List (ℕ × ℕ)
equal_range name [] = []
equal_range name (track ∷ tracks) =
    let rest = equal_range name tracks in if equal_bytes name track.0 then track.1 ∷ rest else rest

-- The loop of `GetTrackId`.
unfoldable pub find_index : ℕ → List (ℕ × ℕ) → ℕ
find_index track_index [] = null_id
find_index track_index (track ∷ range) =
    let rest = find_index track_index range in if track.0 == track_index then track.1 else rest

-- `tracks.insert(...)`
unfoldable pub insert_track : ℕ → List ℕ → ℕ → ℕ → Library → Library
insert_track album name index id l =
    let a = l.album_at album in
    set_album album (record a { tracks = a.tracks ++ ((name, (index, id)) ∷ []) }) l

unfoldable pub insert_refs : ℕ → List ℕ → Library → Library
insert_refs album ids l =
    let a = l.album_at album in set_album album (record a { refs = set_insert_all ids a.refs }) l

unfoldable pub set_refs_loaded : ℕ → Library → Library
set_refs_loaded album l =
    let a = l.album_at album in set_album album (record a { refs_loaded = true }) l

module _ (platform : Platform) (I : SessionInterface) where
  -- `CreateAlbum` behind the tests of the artist and of the name.
  unfoldable pub create_named_album : ℕ → List ℕ → ℕ → Method I ℕ
  create_named_album artist name year = do
    l ← read_library (λ l. l)
    prop_list ← lift (
        album_properties l.artist_supported (l.artist_at artist).id (l.artist_at artist).name name
          (not (year == 0) && l.album_date_authored_supported) (platform.convert_year year) [])
    folder ← get_or_create I (l.artist_at artist).music_folder_id name
    response ← ask (
        I.send_object_prop_list l.storage l.albums_folder ObjectFormat.abstract_audio_album 0
          prop_list)
    album ← new_album (record {
      id = response.object_id;
      music_folder_id = folder;
      artist = artist;
      name = name;
      year = year;
      refs_loaded = false;
      refs = [];
      tracks = [];
    })
    modify (insert_album artist name album)
    return album

  unfoldable pub create_album : Option ℕ → List ℕ → ℕ → Method I ℕ
  create_album none name year = throw Error.artist_required
  create_album (some artist) name year = create_named_album artist (album_name_or_unknown name) year

  -- The loop of `LoadRefs`.
  unfoldable pub load_tracks : ℕ → List ℕ → Method I (Unit {0})
  load_tracks album [] = return tt
  load_tracks album (track_id ∷ ids) = do
    name ← ask (I.get_object_string_property track_id ObjectProperty.name)
    index ← ask (I.get_object_integer_property track_id ObjectProperty.track)
    modify (insert_track album name (u32 index) track_id)
    load_tracks album ids

  unfoldable pub load_refs_now : ℕ → Method I (Unit {0})
  load_refs_now album = do
    id ← read_library (λ l. (l.album_at album).id)
    refs ← ask (I.get_object_references id)
    modify (insert_refs album refs.object_handles)
    load_tracks album refs.object_handles
    modify (set_refs_loaded album)

  unfoldable pub load_refs : Option ℕ → Method I (Unit {0})
  load_refs none = return tt
  load_refs (some album) = do
    loaded ← read_library (λ l. (l.album_at album).refs_loaded)
    if loaded then return tt else load_refs_now album

  unfoldable pub get_track_id : Option ℕ → List ℕ → ℕ → Method I ℕ
  get_track_id none name track_index = return null_id
  get_track_id (some album) name track_index = do
    load_refs (some album)
    tracks ← read_library (λ l. (l.album_at album).tracks)
    return (find_index track_index (platform.range_order (equal_range name tracks)))

  unfoldable pub has_track : Option ℕ → List ℕ → ℕ → Method I Bool
  has_track album name track_index = do
    id ← get_track_id album name track_index
    return (not (id == null_id))

  unfoldable pub create_track : ℕ → ℕ → ℕ → List ℕ → List ℕ → ℕ → List ℕ → ℕ → Method I NewTrackInfo
  create_track artist album type name genre track_index filename size = do
    l ← read_library (λ l. l)
    prop_list ← lift (
        track_properties l.artist_supported (l.artist_at artist).id (l.artist_at artist).name name
          track_index genre filename [])
    response ←
        ask
          (I.send_object_prop_list l.storage (l.album_at album).music_folder_id type size prop_list)
    return (record { id = response.object_id; name = name; index = track_index })

  unfoldable pub add_track : Option ℕ → NewTrackInfo → Method I (Unit {0})
  add_track none ti = return tt
  add_track (some album) ti = do
    load_refs (some album)
    a ← read_library (λ l. l.album_at album)
    ask (
        I.set_object_references a.id
          (record { object_handles = platform.set_order a.refs ++ (ti.id ∷ []) }))
    modify (insert_refs album (ti.id ∷ []))
    modify (insert_track album ti.name ti.index ti.id)

  unfoldable pub add_cover : Option ℕ → List ℕ → Method I (Unit {0})
  add_cover none bytes = return tt
  add_cover (some album) bytes = do
    l ← read_library (λ l. l)
    if not l.album_cover_supported
        then return tt
        else ask (
            I.set_object_property_as_array (l.album_at album).id
              ObjectProperty.representative_sample_data bytes)
