-- ===== src/Client/Storage.antt =====
-- The current storage and the prompt in cli/Session.cpp.
use zune_sync.Base.{
  ℕ, ◌==◌, ◌&&◌, ◌||◌, not, Bool, true, false, if◌then◌else◌, List, [], ◌∷◌, ◌++◌, Option, none,
  some, Error,
}
use zune_sync.Base.Dict.{equal_bytes}
use zune_sync.Base.Stateful.{◌>>=◌, ◌>>◌, return, throw, catch}
use zune_sync.Codes.DeviceProperty
use zune_sync.Messages.Device.{StorageInfo}
use zune_sync.Session.Objects.{all_storages}
use zune_sync.Library.Lists.{is_empty}
use zune_sync.Client.Text.{begins_with, escape_path}
use zune_sync.Client.State.{ClientSession, Client, Method, call, change, to_decimal}

-- "All", "all" and "*"
unfoldable pub means_all : List ℕ → Bool
means_all path =
    equal_bytes path (b'A' ∷ b'l' ∷ b'l' ∷ [])
    || (equal_bytes path (b'a' ∷ b'l' ∷ b'l' ∷ []) || equal_bytes path (b'*' ∷ []))

unfoldable pub is_storage : List ℕ → ℕ → StorageInfo → Bool
is_storage path id si =
    equal_bytes (to_decimal id) path
    || (equal_bytes si.storage_description path || equal_bytes si.volume_label path)

-- `StorageInfo::GetName`; nothing was read for all storages.
unfoldable pub get_name : Option StorageInfo → List ℕ
get_name none = []
get_name (some si) =
    if not (is_empty si.storage_description) then si.storage_description else si.volume_label

abbrev pub set_storage : ℕ → List ℕ → Client → Client
set_storage cs name c = record c { cs = cs; cs_name = name }

-- The prompt from the two parts that the device is asked for.
unfoldable pub set_prompt : List ℕ → List ℕ → Client → Client
set_prompt friendly battery c = record c {
  prompt =
      c.gdi.manufacturer
      ++ (b' '
          ∷ (c.gdi.model
              ++ (friendly
                  ++ (battery
                      ++ ((if not (is_empty c.cs_name) then b':' ∷ c.cs_name else [])
                          ++ (b'>' ∷ b' ' ∷ []))))));
}

module _ (C : ClientSession) where
  -- The loop of `GetStorageByPath`, and the exception behind it.
  unfoldable pub find_storage : List ℕ → List ℕ → Method C (ℕ × Option StorageInfo)
  find_storage path [] = throw Error.storage_not_found
  find_storage path (id ∷ ids) = do
    si ← call (C.get_storage_info id)
    if is_storage path id si then return (id, some si) else find_storage path ids

  unfoldable pub get_storage_by_path : List ℕ → Bool → Method C (ℕ × Option StorageInfo)
  get_storage_by_path path allow_all =
      if allow_all && means_all path
      then return (all_storages, none)
      else (do list ← call C.base.get_storage_ids; find_storage path list.storage_ids)

  -- The parts of the prompt that ask the device: each `try`, and its `catch`, after which the device is
  -- not asked again.
  unfoldable pub ask_friendly_name : Method C (List ℕ)
  ask_friendly_name = do
    name ← call (C.get_device_string_property DeviceProperty.device_friendly_name)
    return (if not (is_empty name) then b' ' ∷ b'/' ∷ b' ' ∷ name else [])

  unfoldable pub forget_friendly_name : Method C (List ℕ)
  forget_friendly_name =
      change (λ c. record c { device_friendly_name_supported = false }) >> return []

  unfoldable pub friendly_name_part : Method C (List ℕ)
  friendly_name_part w =
      if w.0.device_friendly_name_supported
      then catch ask_friendly_name forget_friendly_name w
      else return [] w

  unfoldable pub ask_battery : Method C (List ℕ)
  ask_battery = do
    level ← call (C.get_device_integer_property DeviceProperty.battery_level)
    return (b' ' ∷ b'[' ∷ (to_decimal level ++ (b'%' ∷ b']' ∷ [])))

  unfoldable pub forget_battery : Method C (List ℕ)
  forget_battery = change (λ c. record c { battery_supported = false }) >> return []

  unfoldable pub battery_part : Method C (List ℕ)
  battery_part w = if w.0.battery_supported then catch ask_battery forget_battery w else return [] w

  unfoldable pub build_prompt : Method C (Unit {0})
  build_prompt = do
    friendly ← friendly_name_part
    battery ← battery_part
    change (set_prompt friendly battery)

  unfoldable pub update_prompt : Method C (Unit {0})
  update_prompt w =
      if w.0.show_prompt then build_prompt w else change (λ c. record c { prompt = [] }) w

  unfoldable pub change_storage : List ℕ → Method C (Unit {0})
  change_storage path = do
    found ← get_storage_by_path path true
    change (set_storage found.0 (if not (found.0 == all_storages) then get_name found.1 else []))
    update_prompt

  -- What `SetFirstStorage` does with the list of storages.
  unfoldable pub set_first_of : List ℕ → Method C Bool
  set_first_of [] = return false
  set_first_of (id ∷ ids) = change_storage (to_decimal id) >> return true

  unfoldable pub set_first_storage : Method C Bool
  set_first_storage = do ids ← call C.base.get_storage_ids; set_first_of ids.storage_ids

  -- The loop of `CompleteStoragePath`: the names that begin with the path, storage by storage.
  unfoldable pub complete_storages : List ℕ → List ℕ → Method C (List (List ℕ))
  complete_storages path [] = return []
  complete_storages path (id ∷ ids) = do
    si ← call (C.get_storage_info id)
    rest ← complete_storages path ids
    return (
        (if begins_with (to_decimal id) path then to_decimal id ∷ [] else [])
        ++ ((if begins_with si.volume_label path then escape_path si.volume_label ∷ [] else [])
            ++ ((if begins_with si.storage_description path
                  then escape_path si.storage_description ∷ []
                  else [])
                ++ rest)))

  unfoldable pub complete_storage_path : List ℕ → Method C (List (List ℕ))
  complete_storage_path path = do
    list ← call C.base.get_storage_ids
    complete_storages path list.storage_ids
