-- ===== src/Library/Start.antt =====
-- The constructor of `Library`, and `Supported`.
use zune_sync.Base.{
  ℕ, ◌+◌, ◌==◌, if◌then◌else◌, ◌&&◌, not, Bool, false, List, [], ◌∷◌, ◌++◌, Option, none, some,
  Error, Result, ok, err,
}
use zune_sync.Base.Dict.{equal_bytes, find}
use zune_sync.Base.Stateful.{◌>>=◌, ◌>>◌, return, lift}
use zune_sync.Codes.ObjectFormat
use zune_sync.Codes.ObjectProperty
use zune_sync.Codes.OperationCode
use zune_sync.Messages.Object.{supports_object_property}
use zune_sync.Messages.Device.{DeviceInfo, StorageIds, supports_operation, supports_format}
use zune_sync.PropertyList.Parser.{Property, parse_string, parse_each, get_size}
use zune_sync.Session.Objects.{root}
use zune_sync.Library.Interface.{SessionInterface}
use zune_sync.Library.State.{
  Library, Platform, Stage, initialising, querying_artists, loading_artists, querying_albums,
  loading_albums, loaded, null_id, Method, ask, read_library, modify, new_artist, new_album,
}
use zune_sync.Library.Lists.{is_empty}
use zune_sync.Library.Artists.{
  generic_folder, list_associations, get_artist, create_artist, insert_artist,
}
use zune_sync.Library.Albums.{insert_album}
use zune_sync.Library.Playlists.{load_playlists}

-- "Artists", "Albums" and "Music"
abbrev pub artists_name : List ℕ
artists_name = b'A' ∷ b'r' ∷ b't' ∷ b'i' ∷ b's' ∷ b't' ∷ b's' ∷ []

abbrev pub albums_name : List ℕ
albums_name = b'A' ∷ b'l' ∷ b'b' ∷ b'u' ∷ b'm' ∷ b's' ∷ []

abbrev pub music_name : List ℕ
music_name = b'M' ∷ b'u' ∷ b's' ∷ b'i' ∷ b'c' ∷ []

-- The members before the constructor's body.
abbrev pub blank_library : Library
blank_library = record {
  storage = null_id;
  artists_folder = null_id;
  albums_folder = null_id;
  music_folder = null_id;
  artist_supported = false;
  album_date_authored_supported = false;
  album_cover_supported = false;
  playlists_supported = false;
  playlist_filename_supported = false;
  artists = [];
  albums = [];
  playlists = [];
  next = 0;
  artist_at = λ p. record { id = null_id; music_folder_id = null_id; name = [] };
  album_at = λ p. record {
    id = null_id;
    music_folder_id = null_id;
    artist = 0;
    name = [];
    year = 0;
    refs_loaded = false;
    refs = [];
    tracks = [];
  };
  playlist_at = λ p. record { id = null_id; name = []; tracks = [] };
  reports = [];
  progress = 0;
  total = 0;
  album_folders = [];
}

-- `reporter(stage, progress, total)`
unfoldable pub report : Stage → Library → Library
report stage l = record l {
  reports = l.reports ++ (record { stage = stage; progress = l.progress; total = l.total } ∷ []);
}

-- `reporter(stage, ++progress, total)`
unfoldable pub report_next : Stage → Library → Library
report_next stage l = report stage (record l { progress = l.progress + 1 })

unfoldable pub add_total : ℕ → Library → Library
add_total size l = record l { total = l.total + size }

-- The callback that finds the three folders.
unfoldable pub note_folder : Property (List ℕ) → Library → Library
note_folder p l =
    if equal_bytes p.value artists_name
    then record l { artists_folder = p.object_id }
    else if equal_bytes p.value albums_name
    then record l { albums_folder = p.object_id }
    else if equal_bytes p.value music_name
    then record l { music_folder = p.object_id }
    else l

unfoldable pub first_storage : StorageIds → Result ℕ
first_storage storages = go storages.storage_ids
  where
    go : List ℕ → Result ℕ
    go [] = err Error.no_storages
    go (id ∷ ids) = ok id

-- `albumFolders[artist] = ...`, for an artist that is not there.
unfoldable pub note_album_folders : ℕ → List (List ℕ × ℕ) → Library → Library
note_album_folders artist folders l = record l {
  album_folders = (artist, folders) ∷ l.album_folders;
}

module _ (platform : Platform) (I : SessionInterface) where
  -- The folder of this name in a folder that was listed, or a new one.
  unfoldable pub folder_in : List (List ℕ × ℕ) → List ℕ → ℕ → Method I ℕ
  folder_in folders name parent_id = elim (find equal_bytes name folders) [
    | some id ↦ return id
    | none ↦ do
      storage ← read_library (λ l. l.storage)
      created ← ask (I.create_directory name parent_id storage generic_folder)
      return created.object_id
  ]

  -- `device info` and the properties of the formats.
  unfoldable pub find_capabilities : Method I (Unit {0})
  find_capabilities = do
    info ← (λ w. (ok (I.device_info w.1), w))
    modify (λ l. record l { artist_supported = supports_format info ObjectFormat.artist })
    album ← ask (I.get_object_properties_supported ObjectFormat.abstract_audio_album)
    modify (λ l. record l {
      album_date_authored_supported = supports_object_property album ObjectProperty.date_authored;
      album_cover_supported =
          supports_object_property album ObjectProperty.representative_sample_data;
      playlists_supported = supports_format info ObjectFormat.abstract_av_playlist;
      playlist_filename_supported = false;
    })
    if not (supports_format info ObjectFormat.abstract_av_playlist) then return tt else (do
      playlist ← ask (I.get_object_properties_supported ObjectFormat.abstract_av_playlist)
      modify (λ l. record l {
        playlist_filename_supported =
            supports_object_property playlist ObjectProperty.object_filename;
      }))

  -- A folder below the root that was not found is made.
  unfoldable pub make_folder : Bool → List ℕ → (ℕ → Library → Library) → Method I (Unit {0})
  make_folder missing name set = if not missing then return tt else (do
    storage ← read_library (λ l. l.storage)
    created ← ask (I.create_directory name root storage generic_folder)
    modify (set created.object_id))

  unfoldable pub find_folders : Method I (Unit {0})
  find_folders = do
    bytes ← ask (
        I.get_object_property_list root ObjectFormat.association ObjectProperty.object_filename 0 1)
    parse_each parse_string (λ p. modify (note_folder p)) bytes
    l ← read_library (λ l. l)
    make_folder (l.artist_supported && (l.artists_folder == null_id)) artists_name
        (λ id l. record l { artists_folder = id })
    make_folder (l.albums_folder == null_id) albums_name (λ id l. record l { albums_folder = id })
    make_folder (l.music_folder == null_id) music_name (λ id l. record l { music_folder = id })

  -- The names of the objects of a format, counted in the total.
  unfoldable pub query : Stage → ℕ → Method I (List ℕ)
  query stage format = do
    modify (report stage)
    bytes ← ask (I.get_object_property_list root format ObjectProperty.name 0 1)
    size ← lift (get_size bytes)
    modify (add_total size)
    return bytes

  -- The callback of the artists.
  unfoldable pub load_artist : List (List ℕ × ℕ) → Property (List ℕ) → Method I (Unit {0})
  load_artist music_folders p = do
    l ← read_library (λ l. l)
    folder ← folder_in music_folders p.value l.music_folder
    artist ← new_artist (record { id = p.object_id; music_folder_id = folder; name = p.value })
    modify (insert_artist p.value artist)
    modify (report_next loading_artists)

  unfoldable pub load_artists : List (List ℕ × ℕ) → List ℕ → Method I (Unit {0})
  load_artists music_folders bytes = do
    modify (report loading_artists)
    parse_each parse_string (load_artist music_folders) bytes

  unfoldable pub artist_or_create : List ℕ → Option ℕ → Method I ℕ
  artist_or_create name (some artist) = return artist
  artist_or_create name none = create_artist I name

  -- The folders of an artist, which are listed once.
  unfoldable pub folders_of : ℕ → Option (List (List ℕ × ℕ)) → Method I (List (List ℕ × ℕ))
  folders_of artist (some folders) = return folders
  folders_of artist none = do
    l ← read_library (λ l. l)
    folders ← list_associations I (l.artist_at artist).music_folder_id
    modify (note_album_folders artist folders)
    return folders

  unfoldable pub date_of : ℕ → Method I (List ℕ)
  date_of id = do
    supported ← read_library (λ l. l.album_date_authored_supported)
    if supported
        then ask (I.get_object_string_property id ObjectProperty.date_authored)
        else return []

  -- The callback of the albums.
  unfoldable pub load_album : Property (List ℕ) → Method I (Unit {0})
  load_album p = do
    artist_name ← ask (I.get_object_string_property p.object_id ObjectProperty.artist)
    date ← date_of p.object_id
    known ← read_library (get_artist artist_name)
    artist ← artist_or_create artist_name known
    l ← read_library (λ l. l)
    folders ← folders_of artist (find ◌==◌ artist l.album_folders)
    folder ← folder_in folders p.value (l.artist_at artist).music_folder_id
    album ← new_album (record {
      id = p.object_id;
      music_folder_id = folder;
      artist = artist;
      name = p.value;
      year = if not (is_empty date) then platform.convert_date_time date else 0;
      refs_loaded = false;
      refs = [];
      tracks = [];
    })
    modify (insert_album artist p.value album)
    modify (report_next loading_albums)

  unfoldable pub load_albums : List ℕ → Method I (Unit {0})
  load_albums bytes = do modify (report loading_albums); parse_each parse_string load_album bytes

  -- The artists, on devices that have such objects.
  unfoldable pub query_artists : Bool → Method I (List ℕ)
  query_artists supported =
      if supported then query querying_artists ObjectFormat.artist else return []

  unfoldable pub load_supported_artists : Bool → List (List ℕ × ℕ) → List ℕ → Method I (Unit {0})
  load_supported_artists supported music_folders bytes =
      if supported then load_artists music_folders bytes else return tt

  unfoldable pub library_new : Method I (Unit {0})
  library_new = do
    storages ← ask I.get_storage_ids
    storage ← lift (first_storage storages)
    modify (report initialising)
    find_capabilities
    modify (λ l. record l { storage = storage })
    find_folders
    l ← read_library (λ l. l)
    music_folders ← list_associations I l.music_folder
    artists ← query_artists l.artist_supported
    albums ← query querying_albums ObjectFormat.abstract_audio_album
    load_supported_artists l.artist_supported music_folders artists
    load_albums albums
    load_playlists I
    modify (report loaded)

-- `Supported(session)`
unfoldable pub supported : DeviceInfo → Bool
supported info =
    supports_operation info OperationCode.get_object_prop_list
    && supports_operation info OperationCode.send_object_prop_list
    && supports_operation info OperationCode.set_object_references
    && supports_format info ObjectFormat.abstract_audio_album
