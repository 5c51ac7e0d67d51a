-- ===== src/Session/Properties.antt =====
-- `Session`: properties of objects and of the device.
use zune_sync.Base.{
  ℕ, zero, suc, ◌-◌, ◌/◌, ◌^◌, ◌≡◌, ◌≢◌, arith, not, leb, ◌==◌, ◌||◌, if◌then◌else◌, List, [], ◌∷◌,
  ◌++◌, length, take, replicate, some, u8, u16, u32, Error, Result, ok, err,
}
use zune_sync.Codes.OperationCode
use zune_sync.Codes.ObjectProperty
use zune_sync.Stream.Input.{read_single_integer, read_single_string}
use zune_sync.Stream.Output.{write8, write_string, write_array}
use zune_sync.Messages.Object.{ObjectInfo, DevicePropertyDesc, read_device_property_desc}
use zune_sync.Session.State.{Session, Method, ◌>>=◌, ◌>>◌, return, lift}
use zune_sync.Session.Transaction.{run_transaction, run_transaction_with_data, run_and_parse}
use zune_sync.Session.Objects.{get_object_info, any_storage, all_storages}

-- `SetObjectProperty(objectId, property, value)` on bytes
unfoldable pub set_object_property : ℕ → ℕ → List ℕ → Method (Unit {0})
set_object_property object_id property value = do
  run_transaction_with_data OperationCode.set_object_prop_value (some value)
      (object_id ∷ u16 property ∷ [])
  return tt

-- The loop of `SetObjectProperty` on a u64: low bytes first, to the last that is not 0.
unfoldable pub significant_bytes : ℕ → ℕ → List ℕ
significant_bytes zero value = []
significant_bytes (suc n) value =
    let rest = significant_bytes n (value / 2 ^ 8) in if value == 0 then [] else u8 value ∷ rest

-- The array that is sent: four bytes if they are enough, else eight.
unfoldable pub integer_bytes : ℕ → List ℕ
integer_bytes value =
    let data_bytes = significant_bytes 8 value in
    take (if leb (length data_bytes) 4 then 4 else 8)
      (data_bytes ++ replicate (8 - length data_bytes) 0)

unfoldable pub set_object_integer_property : ℕ → ℕ → ℕ → Method (Unit {0})
set_object_integer_property object_id property value =
    set_object_property object_id property (integer_bytes value)

unfoldable pub set_object_string_property : ℕ → ℕ → List ℕ → Method (Unit {0})
set_object_string_property object_id property value = do
  string_bytes ← lift (write_string value [])
  set_object_property object_id property string_bytes

unfoldable pub set_object_property_as_array : ℕ → ℕ → List ℕ → Method (Unit {0})
set_object_property_as_array object_id property value = do
  array ← lift (write_array write8 value [])
  set_object_property object_id property array

unfoldable pub get_object_property : ℕ → ℕ → Method (List ℕ)
get_object_property object_id property =
    run_transaction OperationCode.get_object_prop_value (object_id ∷ u16 property ∷ [])

-- The switch for devices without object properties.
unfoldable pub integer_fallback : ObjectInfo → ℕ → Result ℕ
integer_fallback info property =
    if property == ObjectProperty.storage_id
    then ok info.storage_id
    else if property == ObjectProperty.object_format
    then ok info.object_format
    else if property == ObjectProperty.protection_status
    then ok info.protection_status
    else if property == ObjectProperty.object_size
    then ok info.object_compressed_size
    else if property == ObjectProperty.representative_sample_format
    then ok info.thumb_format
    else if property == ObjectProperty.representative_sample_size
    then ok info.thumb_compressed_size
    else if property == ObjectProperty.representative_sample_width
    then ok info.thumb_pix_width
    else if property == ObjectProperty.representative_sample_height
    then ok info.thumb_pix_height
    else if property == ObjectProperty.width
    then ok info.image_pix_width
    else if property == ObjectProperty.height
    then ok info.image_pix_height
    else if property == ObjectProperty.image_bit_depth
    then ok info.image_bit_depth
    else if property == ObjectProperty.parent_object
    then ok info.parent_object
    else if property == ObjectProperty.association_type
    then ok info.association_type
    else if property == ObjectProperty.association_desc
    then ok info.association_desc
    else err (Error.no_fallback property)

unfoldable pub get_object_integer_property : ℕ → ℕ → Method ℕ
get_object_integer_property object_id property s =
    if not s.get_object_prop_value_supported
    then (do info ← get_object_info object_id; lift (integer_fallback info property)) s
    else (do value ← get_object_property object_id property; lift (read_single_integer value)) s

unfoldable pub string_fallback : ObjectInfo → ℕ → Result (List ℕ)
string_fallback info property =
    if property == ObjectProperty.object_filename
    then ok info.filename
    else if property == ObjectProperty.date_created
        || property == ObjectProperty.date_authored
        || property == ObjectProperty.date_added
    then ok info.capture_date
    else if property == ObjectProperty.date_modified
    then ok info.modification_date
    else err (Error.no_fallback property)

unfoldable pub get_object_string_property : ℕ → ℕ → Method (List ℕ)
get_object_string_property object_id property s =
    if not s.get_object_prop_value_supported
    then (do info ← get_object_info object_id; lift (string_fallback info property)) s
    else (do value ← get_object_property object_id property; lift (read_single_string value)) s

-- `GetObjectStorage`: an object lies in one storage, so a wildcard is no answer.
unfoldable pub specific_storage : ℕ → Result ℕ
specific_storage value =
    if value == any_storage || value == all_storages then err Error.wildcard_storage else ok value

unfoldable pub get_object_storage : ℕ → Method ℕ
get_object_storage object_id = do
  value ← get_object_integer_property object_id ObjectProperty.storage_id
  lift (specific_storage (u32 value))

unfoldable pub get_object_parent : ℕ → Method ℕ
get_object_parent object_id = do
  value ← get_object_integer_property object_id ObjectProperty.parent_object
  return (u32 value)

unfoldable pub get_device_property : ℕ → Method (List ℕ)
get_device_property property = run_transaction OperationCode.get_device_prop_value (property ∷ [])

unfoldable pub get_device_integer_property : ℕ → Method ℕ
get_device_integer_property property = do
  value ← get_device_property property
  lift (read_single_integer value)

unfoldable pub get_device_string_property : ℕ → Method (List ℕ)
get_device_string_property property = do
  value ← get_device_property property
  lift (read_single_string value)

unfoldable pub set_device_property : ℕ → List ℕ → Method (Unit {0})
set_device_property property value = do
  run_transaction_with_data OperationCode.set_device_prop_value (some value) (u16 property ∷ [])
  return tt

unfoldable pub set_device_string_property : ℕ → List ℕ → Method (Unit {0})
set_device_string_property property value = do
  string_bytes ← lift (write_string value [])
  set_device_property property string_bytes

unfoldable pub get_device_property_desc : ℕ → Method DevicePropertyDesc
get_device_property_desc property =
    run_and_parse read_device_property_desc OperationCode.get_device_prop_desc (property ∷ [])

-- `GetObjectPropertyList`: `ObjectProperty::All` goes as all ones.
unfoldable pub get_object_property_list : ℕ → ℕ → ℕ → ℕ → ℕ → Method (List ℕ)
get_object_property_list object_id format property group_code depth =
    run_transaction OperationCode.get_object_prop_list (
      object_id
      ∷ format
      ∷ (if not (property == ObjectProperty.all) then property else 0xffff_ffff)
      ∷ group_code
      ∷ depth
      ∷ [])

specific_storage-ok :
    (value storage : ℕ)
    → specific_storage value ≡ ok storage
    → (storage ≢ any_storage) × (storage ≢ all_storages)
unfolding specific_storage
specific_storage-ok value storage e = grind arith

after_value :
    (r : Result ℕ × Session) (s : Session) (storage : ℕ)
    → (◌>>=◌ (λ _. r) (λ value. lift (specific_storage (u32 value))) s).0 ≡ ok storage
    → (storage ≢ any_storage) × (storage ≢ all_storages)
after_value (ok value, s') s storage e = specific_storage-ok (u32 value) storage e
after_value (err x, s') s storage e = absurd (grind arith)

-- The storage that `GetObjectStorage` gives is never a wildcard, whatever the device sends.
get_object_storage-specific :
    (object_id : ℕ) (s : Session) (storage : ℕ)
    → (get_object_storage object_id s).0 ≡ ok storage
    → (storage ≢ any_storage) × (storage ≢ all_storages)
unfolding get_object_storage
get_object_storage-specific object_id s storage e =
    after_value (get_object_integer_property object_id ObjectProperty.storage_id s) s storage e
