-- ===== src/Client/Paths.antt =====
-- Paths on the device in cli/Session.cpp: `ResolveObjectChild`, `MakeDirectory`, `Resolve`.
use zune_sync.Base.{
  ℕ, zero, suc, ◌+◌, ◌-◌, ◌==◌, ltb, ◌||◌, Bool, true, false, if◌then◌else◌, List, [], ◌∷◌, length,
  take, drop, none, some, Error,
}
use zune_sync.Base.Dict.{equal_bytes}
use zune_sync.Base.Stateful.{◌>>=◌, ◌>>◌, return, throw, catch}
use zune_sync.Codes.ObjectFormat
use zune_sync.Codes.ObjectProperty
use zune_sync.Session.Objects.{root, device}
use zune_sync.Library.Artists.{generic_folder}
use zune_sync.Library.Lists.{is_empty}
use zune_sync.Client.Text.{find_from, rfind, substr, begins_with}
use zune_sync.Client.State.{ClientSession, Method, call, read_client, change, upload_storage}

-- "/", "." and ".."
abbrev pub slash : List ℕ
slash = b'/' ∷ []

abbrev pub dot : List ℕ
dot = b'.' ∷ []

abbrev pub dot_dot : List ℕ
dot_dot = b'.' ∷ b'.' ∷ []

-- The end of the name that begins at `p`.
unfoldable pub next_slash : ℕ → List ℕ → ℕ
next_slash p path = elim (find_from b'/' p path) [ none ↦ length path | some next ↦ next ]

module _ (C : ClientSession) where
  -- The loop of `ResolveObjectChild`.
  unfoldable pub find_child : List ℕ → List ℕ → Method C ℕ
  find_child entity [] = throw Error.path_not_found
  find_child entity (object ∷ objects) = do
    name ← call (C.base.get_object_string_property object ObjectProperty.object_filename)
    if equal_bytes name entity then return object else find_child entity objects

  unfoldable pub resolve_object_child : ℕ → List ℕ → Method C ℕ
  resolve_object_child parent entity = do
    cs ← read_client (λ c. c.cs)
    object_list ← call (C.base.get_object_handles cs ObjectFormat.any parent)
    find_child entity object_list.object_handles

  -- `MakeDirectory`; the parent is not used.
  unfoldable pub make_directory : ℕ → List ℕ → Method C ℕ
  make_directory parent_id name = do
    c ← read_client (λ c. c)
    noi ← call (C.base.create_directory name c.cd (upload_storage c) generic_folder)
    return noi.object_id

  unfoldable pub resolve_parent : ℕ → Method C ℕ
  resolve_parent id = do
    parent ← call (C.get_object_parent id)
    return (if parent == device then root else parent)

  -- The body of the loop of `Resolve`, for the name between two slashes.
  unfoldable pub resolve_entity : Bool → ℕ → List ℕ → Method C ℕ
  resolve_entity create id entity =
      if is_empty entity || equal_bytes entity dot
      then return id
      else if equal_bytes entity dot_dot
      then resolve_parent id
      else if create
      then catch (resolve_object_child id entity) (make_directory id entity)
      else resolve_object_child id entity

  -- The loop of `Resolve`: at most this number of rounds, from the position `p`.
  unfoldable pub resolve_loop : Bool → List ℕ → ℕ → ℕ → ℕ → Method C ℕ
  resolve_loop create path zero p id = throw Error.out_of_fuel
  resolve_loop create path (suc rounds) p id =
      if ltb p (length path)
      then (do
        child ← resolve_entity create id (substr p (next_slash p path - p) path)
        resolve_loop create path rounds (next_slash p path + 1) child)
      else return id

  -- `Resolve`
  unfoldable pub resolve : Bool → List ℕ → Method C ℕ
  resolve create path = do
    cd ← read_client (λ c. c.cd)
    resolve_loop create path (suc (length path)) 0 (if begins_with path slash then root else cd)

  -- `ResolvePath`: the directory, and the file name that `file` is set to.
  unfoldable pub resolve_path : List ℕ → Method C (ℕ × List ℕ)
  resolve_path path = elim (rfind b'/' path) [
    | none ↦ (do cd ← read_client (λ c. c.cd); return (cd, path))
    | some pos ↦ (do id ← resolve false (take pos path); return (id, drop (suc pos) path))
  ]

  -- `ChangeDirectory`, `MakePath`, `MakeDirectory`, `Delete` and `Rename`, each by a path.
  unfoldable pub change_directory : List ℕ → Method C (Unit {0})
  change_directory path = do id ← resolve false path; change (λ c. record c { cd = id })

  unfoldable pub make_path : List ℕ → Method C (Unit {0})
  make_path path = do resolve true path; return tt

  unfoldable pub make_directory_at : List ℕ → Method C (Unit {0})
  make_directory_at path = do
    target ← resolve_path path
    make_directory target.0 target.1
    return tt

  unfoldable pub delete_path : List ℕ → Method C (Unit {0})
  delete_path path = do id ← resolve false path; call (C.delete_object id)

  unfoldable pub rename : List ℕ → List ℕ → Method C (Unit {0})
  rename path new_name = do
    object_id ← resolve false path
    call (C.set_object_string_property object_id ObjectProperty.object_filename new_name)
