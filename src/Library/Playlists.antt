-- ===== src/Library/Playlists.antt =====
-- Playlists in mtp/metadata/Library.cpp.
use zune_sync.Base.{
  ℕ, ◌==◌, if◌then◌else◌, ◌||◌, not, List, [], ◌∷◌, ◌++◌, Option, none, some, Error,
}
use zune_sync.Base.Dict.{equal_bytes, find, insert}
use zune_sync.Base.Stateful.{◌>>=◌, ◌>>◌, return, throw, lift, catch, for_each}
use zune_sync.Codes.ObjectFormat
use zune_sync.Codes.ObjectProperty
use zune_sync.Messages.Object.{find_code}
use zune_sync.Session.Objects.{root, all_storages, device}
use zune_sync.Library.Interface.{SessionInterface}
use zune_sync.Library.State.{
  Library, null_id, Method, ask, read_library, modify, new_playlist, set_playlist,
}
use zune_sync.Library.Lists.{is_empty, playlist_properties}

-- `_playlists.insert(...)`
unfoldable pub insert_playlist : List ℕ → ℕ → Library → Library
insert_playlist name playlist l = record l {
  playlists = insert equal_bytes name playlist l.playlists;
}

-- `GetPlaylist`
unfoldable pub get_playlist : List ℕ → Library → Option ℕ
get_playlist name l = find equal_bytes name l.playlists

-- `playlist->Tracks = tracks`
unfoldable pub set_tracks : ℕ → List ℕ → Library → Library
set_tracks playlist tracks l =
    set_playlist playlist (record (l.playlist_at playlist) { tracks = tracks }) l

module _ (I : SessionInterface) where
  -- One round of `LoadPlaylists`, with the name that was read, if it was.
  unfoldable pub load_named_playlist : ℕ → Option (List ℕ) → Method I (Unit {0})
  load_named_playlist id none = return tt
  load_named_playlist id (some name) = if is_empty name then return tt else (do
    tracks ←
        catch (ask (I.get_object_references id) >>= λ refs. return refs.object_handles) (return [])
    playlist ← new_playlist (record { id = id; name = name; tracks = tracks })
    modify (insert_playlist name playlist))

  unfoldable pub load_playlist : ℕ → Method I (Unit {0})
  load_playlist id = do
    name ←
        catch
          (ask (I.get_object_string_property id ObjectProperty.name) >>= λ name. return (some name))
          (return none)
    load_named_playlist id name

  unfoldable pub load_playlists : Method I (Unit {0})
  load_playlists = do
    supported ← read_library (λ l. l.playlists_supported)
    if not supported then return tt else (do
      handles ← ask (I.get_object_handles all_storages ObjectFormat.abstract_av_playlist device)
      for_each load_playlist handles.object_handles)

  -- The end of `CreatePlaylist`: the object of the playlist.
  unfoldable pub register_playlist : List ℕ → ℕ → Method I ℕ
  register_playlist name id = do
    playlist ← new_playlist (record { id = id; name = name; tracks = [] })
    modify (insert_playlist name playlist)
    return playlist

  -- `CreatePlaylist` for a name that no playlist has.
  unfoldable pub create_new_playlist : List ℕ → Method I ℕ
  create_new_playlist name = do
    l ← read_library (λ l. l)
    prop_list ← lift (playlist_properties l.playlist_filename_supported name [])
    response ←
        ask (I.send_object_prop_list l.storage root ObjectFormat.abstract_av_playlist 0 prop_list)
    register_playlist name response.object_id

  unfoldable pub return_or_create : List ℕ → Option ℕ → Method I ℕ
  return_or_create name (some playlist) = return playlist
  return_or_create name none = create_new_playlist name

  unfoldable pub create_playlist : List ℕ → Method I ℕ
  create_playlist name = do
    l ← read_library (λ l. l)
    if not l.playlists_supported
        then throw Error.no_playlists
        else return_or_create name (get_playlist name l)

  unfoldable pub write_playlist_refs : ℕ → Method I (Unit {0})
  write_playlist_refs playlist = do
    p ← read_library (λ l. l.playlist_at playlist)
    ask (I.set_object_references p.id (record { object_handles = p.tracks }))

  unfoldable pub clear_playlist : Option ℕ → Method I (Unit {0})
  clear_playlist none = return tt
  clear_playlist (some playlist) = do modify (set_tracks playlist []); write_playlist_refs playlist

  -- A null track and a track that is there already are passed over.
  unfoldable pub add_to_playlist : Option ℕ → ℕ → Method I (Unit {0})
  add_to_playlist none track_id = return tt
  add_to_playlist (some playlist) track_id = do
    p ← read_library (λ l. l.playlist_at playlist)
    if (track_id == null_id) || find_code p.tracks track_id then return tt else (do
      modify (set_tracks playlist (p.tracks ++ (track_id ∷ [])))
      write_playlist_refs playlist)
