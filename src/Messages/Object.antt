-- ===== src/Messages/Object.antt =====
-- `ObjectInfo` and the smaller object messages of mtp/ptp/Messages.h. Identifiers are u32 numbers,
-- enumerations are their u16 values, and strings are their bytes.
use zune_sync.Base.{ℕ, Bool, false, not, List, [], ◌∷◌, ltb, ◌==◌, ◌||◌, if◌then◌else◌}
use zune_sync.Stream.Input.{Reader, ◌>>=◌, return, read8, read16, read32, read_string, read_array}
use zune_sync.Stream.Output.{Writer, ◌>>◌, write16, write32, write_string, write_array}

-- `MaxObjectSize` of mtp/ptp/ObjectFormat.h.
abbrev pub max_object_size : ℕ
max_object_size = 0xffff_ffff

pub record ObjectInfo : Type 0 where
  pub storage_id : ℕ
  pub object_format : ℕ
  pub protection_status : ℕ
  pub object_compressed_size : ℕ
  pub thumb_format : ℕ
  pub thumb_compressed_size : ℕ
  pub thumb_pix_width : ℕ
  pub thumb_pix_height : ℕ
  pub image_pix_width : ℕ
  pub image_pix_height : ℕ
  pub image_bit_depth : ℕ
  pub parent_object : ℕ
  pub association_type : ℕ
  pub association_desc : ℕ
  pub sequence_number : ℕ
  pub filename : List ℕ
  pub capture_date : List ℕ
  pub modification_date : List ℕ
  pub keywords : List ℕ

unfoldable pub read_object_info : Reader ObjectInfo
read_object_info = do
  storage_id ← read32
  object_format ← read16
  protection_status ← read16
  object_compressed_size ← read32
  thumb_format ← read16
  thumb_compressed_size ← read32
  thumb_pix_width ← read32
  thumb_pix_height ← read32
  image_pix_width ← read32
  image_pix_height ← read32
  image_bit_depth ← read32
  parent_object ← read32
  association_type ← read16
  association_desc ← read32
  sequence_number ← read32
  filename ← read_string
  capture_date ← read_string
  modification_date ← read_string
  keywords ← read_string
  return (record {
    storage_id = storage_id;
    object_format = object_format;
    protection_status = protection_status;
    object_compressed_size = object_compressed_size;
    thumb_format = thumb_format;
    thumb_compressed_size = thumb_compressed_size;
    thumb_pix_width = thumb_pix_width;
    thumb_pix_height = thumb_pix_height;
    image_pix_width = image_pix_width;
    image_pix_height = image_pix_height;
    image_bit_depth = image_bit_depth;
    parent_object = parent_object;
    association_type = association_type;
    association_desc = association_desc;
    sequence_number = sequence_number;
    filename = filename;
    capture_date = capture_date;
    modification_date = modification_date;
    keywords = keywords;
  })

-- A size that does not fit is written as `MaxObjectSize`.
unfoldable pub write_object_info : ObjectInfo → Writer
write_object_info info = do
  write32 info.storage_id
  write16 info.object_format
  write16 info.protection_status
  write32 (
      if ltb max_object_size info.object_compressed_size
      then max_object_size
      else info.object_compressed_size)
  write16 info.thumb_format
  write32 info.thumb_compressed_size
  write32 info.thumb_pix_width
  write32 info.thumb_pix_height
  write32 info.image_pix_width
  write32 info.image_pix_height
  write32 info.image_bit_depth
  write32 info.parent_object
  write16 info.association_type
  write32 info.association_desc
  write32 info.sequence_number
  write_string info.filename
  write_string info.capture_date
  write_string info.modification_date
  write_string info.keywords

pub record ObjectHandles : Type 0 where
  pub object_handles : List ℕ

unfoldable pub read_object_handles : Reader ObjectHandles
read_object_handles = do
  object_handles ← read_array read32
  return (record { object_handles = object_handles })

unfoldable pub write_object_handles : ObjectHandles → Writer
write_object_handles handles = write_array write32 handles.object_handles

pub record ObjectPropertiesSupported : Type 0 where
  pub object_property_codes : List ℕ

unfoldable pub read_object_properties_supported : Reader ObjectPropertiesSupported
read_object_properties_supported = do
  object_property_codes ← read_array read16
  return (record { object_property_codes = object_property_codes })

-- `std::find(...) != end()`
unfoldable pub find_code : List ℕ → ℕ → Bool
find_code [] code = false
find_code (x ∷ xs) code = (x == code) || find_code xs code

unfoldable pub supports_object_property : ObjectPropertiesSupported → ℕ → Bool
supports_object_property supported property = find_code supported.object_property_codes property

pub record SendObjectPropListResponse : Type 0 where
  pub storage_id : ℕ
  pub parent_object_id : ℕ
  pub object_id : ℕ
  pub failed_property_index : ℕ

unfoldable pub read_send_object_prop_list_response : Reader SendObjectPropListResponse
read_send_object_prop_list_response = do
  storage_id ← read32
  parent_object_id ← read32
  object_id ← read32
  failed_property_index ← read32
  return (record {
    storage_id = storage_id;
    parent_object_id = parent_object_id;
    object_id = object_id;
    failed_property_index = failed_property_index;
  })

pub record NewObjectInfo : Type 0 where
  pub storage_id : ℕ
  pub parent_object_id : ℕ
  pub object_id : ℕ

unfoldable pub read_new_object_info : Reader NewObjectInfo
read_new_object_info = do
  storage_id ← read32
  parent_object_id ← read32
  object_id ← read32
  return (record {
    storage_id = storage_id;
    parent_object_id = parent_object_id;
    object_id = object_id;
  })

pub record DevicePropertyDesc : Type 0 where
  pub property : ℕ
  pub type : ℕ
  pub writeable : Bool

-- The byte is converted to `bool`.
unfoldable pub read_device_property_desc : Reader DevicePropertyDesc
read_device_property_desc = do
  property ← read16
  type ← read16
  writeable ← read8
  return (record { property = property; type = type; writeable = not (writeable == 0) })
