-- ===== src/Library/Artists.antt =====
-- `ListAssociations`, `GetOrCreate`, `GetArtist` and `CreateArtist` of mtp/metadata/Library.cpp.
use zune_sync.Base.{ℕ, if◌then◌else◌, List, [], ◌∷◌, Option, none, some}
use zune_sync.Base.Dict.{equal_bytes, find, insert}
use zune_sync.Base.Stateful.{◌>>=◌, ◌>>◌, return, lift}
use zune_sync.Codes.ObjectFormat
use zune_sync.Codes.ObjectProperty
use zune_sync.PropertyList.Entries.{artist_properties}
use zune_sync.PropertyList.Parser.{Property, parse_string, parse}
use zune_sync.Library.Interface.{SessionInterface}
use zune_sync.Library.State.{Library, null_id, Method, ask, read_library, modify, new_artist}
use zune_sync.Library.Lists.{is_empty}

-- `AssociationType::GenericFolder`, the default of `CreateDirectory`.
abbrev pub generic_folder : ℕ
generic_folder = 1

-- "UknownArtist"
abbrev pub unknown_artist : List ℕ
unknown_artist =
    b'U' ∷ b'k' ∷ b'n' ∷ b'o' ∷ b'w' ∷ b'n' ∷ b'A' ∷ b'r' ∷ b't' ∷ b'i' ∷ b's' ∷ b't' ∷ []

abbrev pub artist_name_or_unknown : List ℕ → List ℕ
artist_name_or_unknown name = if is_empty name then unknown_artist else name

-- The callback of `ListAssociations`.
unfoldable pub insert_names : List (Property (List ℕ)) → List (List ℕ × ℕ) → List (List ℕ × ℕ)
insert_names [] list = list
insert_names (p ∷ ps) list = insert_names ps (insert equal_bytes p.value p.object_id list)

-- `_artists.find(name)`
unfoldable pub get_artist : List ℕ → Library → Option ℕ
get_artist name l = find equal_bytes (artist_name_or_unknown name) l.artists

-- `_artists.insert(std::make_pair(name, artist))`
unfoldable pub insert_artist : List ℕ → ℕ → Library → Library
insert_artist name artist l = record l { artists = insert equal_bytes name artist l.artists }

module _ (I : SessionInterface) where
  unfoldable pub list_associations : ℕ → Method I (List (List ℕ × ℕ))
  list_associations parent_id = do
    bytes ← ask (
        I.get_object_property_list parent_id ObjectFormat.association ObjectProperty.object_filename
          0 1)
    properties ← lift (parse parse_string bytes)
    return (insert_names properties [])

  -- The loop of `GetOrCreate`: the first object of this name.
  unfoldable pub find_named : List ℕ → List ℕ → Method I (Option ℕ)
  find_named name [] = return none
  find_named name (id ∷ ids) = do
    oname ← ask (I.get_object_string_property id ObjectProperty.object_filename)
    if equal_bytes name oname then return (some id) else find_named name ids

  -- What `GetOrCreate` does when the loop has found the object, and when not.
  unfoldable pub or_create : ℕ → List ℕ → Option ℕ → Method I ℕ
  or_create parent_id name (some id) = return id
  or_create parent_id name none = do
    storage ← read_library (λ l. l.storage)
    created ← ask (I.create_directory name parent_id storage generic_folder)
    return created.object_id

  unfoldable pub get_or_create : ℕ → List ℕ → Method I ℕ
  get_or_create parent_id name = do
    storage ← read_library (λ l. l.storage)
    objects ← ask (I.get_object_handles storage ObjectFormat.association parent_id)
    found ← find_named name objects.object_handles
    or_create parent_id name found

  -- The artist's own object, on devices that have such objects.
  unfoldable pub create_artist_object : List ℕ → Library → Method I ℕ
  create_artist_object name l =
      if l.artist_supported
      then (do
        prop_list ← lift (artist_properties name [])
        response ←
            ask (I.send_object_prop_list l.storage l.artists_folder ObjectFormat.artist 0 prop_list)
        return response.object_id)
      else return null_id

  -- The end of `CreateArtist`: the object of the artist.
  unfoldable pub register_artist : List ℕ → ℕ → ℕ → Method I ℕ
  register_artist name folder id = do
    artist ← new_artist (record { id = id; music_folder_id = folder; name = name })
    modify (insert_artist name artist)
    return artist

  -- `CreateArtist` behind the test of the name.
  unfoldable pub create_named_artist : List ℕ → Method I ℕ
  create_named_artist name = do
    music_folder ← read_library (λ l. l.music_folder)
    folder ← get_or_create music_folder name
    l ← read_library (λ l. l)
    id ← create_artist_object name l
    register_artist name folder id

  unfoldable pub create_artist : List ℕ → Method I ℕ
  create_artist name = create_named_artist (artist_name_or_unknown name)
