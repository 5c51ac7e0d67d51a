-- ===== src/Messages/Device.antt =====
-- `DeviceInfo` and the storage messages of mtp/ptp/Messages.h and mtp/ptp/Messages.cpp.
use zune_sync.Base.{ℕ, Bool, true, List, [], ◌∷◌, ◌++◌, if◌then◌else◌}
use zune_sync.Stream.Input.{Reader, ◌>>=◌, return, read16, read32, read64, read_string, read_array}
use zune_sync.Messages.Object.{find_code}

pub record DeviceInfo : Type 0 where
  pub standard_version : ℕ
  pub vendor_extension_id : ℕ
  pub vendor_extension_version : ℕ
  pub vendor_extension_desc : List ℕ
  pub functional_mode : ℕ
  pub operations_supported : List ℕ
  pub events_supported : List ℕ
  pub device_properties_supported : List ℕ
  pub capture_formats : List ℕ
  pub image_formats : List ℕ
  pub manufacturer : List ℕ
  pub model : List ℕ
  pub device_version : List ℕ
  pub serial_number : List ℕ

unfoldable pub read_device_info : Reader DeviceInfo
read_device_info = do
  standard_version ← read16
  vendor_extension_id ← read32
  vendor_extension_version ← read16
  vendor_extension_desc ← read_string
  functional_mode ← read16
  operations_supported ← read_array read16
  events_supported ← read_array read16
  device_properties_supported ← read_array read16
  capture_formats ← read_array read16
  image_formats ← read_array read16
  manufacturer ← read_string
  model ← read_string
  device_version ← read_string
  serial_number ← read_string
  return (record {
    standard_version = standard_version;
    vendor_extension_id = vendor_extension_id;
    vendor_extension_version = vendor_extension_version;
    vendor_extension_desc = vendor_extension_desc;
    functional_mode = functional_mode;
    operations_supported = operations_supported;
    events_supported = events_supported;
    device_properties_supported = device_properties_supported;
    capture_formats = capture_formats;
    image_formats = image_formats;
    manufacturer = manufacturer;
    model = model;
    device_version = device_version;
    serial_number = serial_number;
  })

unfoldable pub supports_operation : DeviceInfo → ℕ → Bool
supports_operation info code = find_code info.operations_supported code

unfoldable pub supports_device_property : DeviceInfo → ℕ → Bool
supports_device_property info code = find_code info.device_properties_supported code

unfoldable pub supports_event : DeviceInfo → ℕ → Bool
supports_event info code = find_code info.events_supported code

unfoldable pub supports_format : DeviceInfo → ℕ → Bool
supports_format info code = find_code info.image_formats code

-- `isspace` and `strcasestr` are the C library's.
module _ (isspace : ℕ → Bool) (strcasestr : List ℕ → List ℕ → Bool) where
  unfoldable pub strip : List ℕ → List ℕ
  strip [] = []
  strip (c ∷ str) = let rest = strip str in if isspace c then rest else c ∷ rest

  -- `GetFilesystemFriendlyName`
  unfoldable pub filesystem_friendly_name : DeviceInfo → List ℕ
  filesystem_friendly_name info =
      strip info.manufacturer ++ (b'-' ∷ (strip info.model ++ (b'-' ∷ strip info.serial_number)))

  -- `Matches(filter)`
  unfoldable pub matches : DeviceInfo → List ℕ → Bool
  matches info [] = true
  matches info (c ∷ filter) = strcasestr (filesystem_friendly_name info) (c ∷ filter)

pub record StorageIds : Type 0 where
  pub storage_ids : List ℕ

unfoldable pub read_storage_ids : Reader StorageIds
read_storage_ids = do storage_ids ← read_array read32; return (record { storage_ids = storage_ids })

pub record StorageInfo : Type 0 where
  pub storage_type : ℕ
  pub filesystem_type : ℕ
  pub access_capability : ℕ
  pub max_capacity : ℕ
  pub free_space_in_bytes : ℕ
  pub free_space_in_images : ℕ
  pub storage_description : List ℕ
  pub volume_label : List ℕ

unfoldable pub read_storage_info : Reader StorageInfo
read_storage_info = do
  storage_type ← read16
  filesystem_type ← read16
  access_capability ← read16
  max_capacity ← read64
  free_space_in_bytes ← read64
  free_space_in_images ← read32
  storage_description ← read_string
  volume_label ← read_string
  return (record {
    storage_type = storage_type;
    filesystem_type = filesystem_type;
    access_capability = access_capability;
    max_capacity = max_capacity;
    free_space_in_bytes = free_space_in_bytes;
    free_space_in_images = free_space_in_images;
    storage_description = storage_description;
    volume_label = volume_label;
  })

-- `GetName`
unfoldable pub storage_name : StorageInfo → List ℕ
storage_name info = choose info.storage_description info.volume_label
  where
    choose : List ℕ → List ℕ → List ℕ
    choose [] label = label
    choose (c ∷ description) label = c ∷ description
