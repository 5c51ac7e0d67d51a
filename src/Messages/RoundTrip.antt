-- ===== src/Messages/RoundTrip.antt =====
-- What the program writes of an object, it reads back.
use zune_sync.Base.{ℕ, ◌≡◌, List, [], IsU16, IsU32, IsU64, ok, min, arith, ltb, if◌then◌else◌}
use zune_sync.Stream.Input.{run}
use zune_sync.Stream.Fields.{
  Codes, Codes-then, Codes-last, u16_Codes, u32_Codes, IsMessageText, text_Codes, run-Codes,
}
use zune_sync.Messages.Object.{max_object_size, ObjectInfo, read_object_info, write_object_info}

-- Every field is in the range of its C++ type, and every string fits a message.
pub record IsObjectInfo (info : ObjectInfo) : Type 0 where
  pub storage_id_range : IsU32 info.storage_id
  pub object_format_range : IsU16 info.object_format
  pub protection_status_range : IsU16 info.protection_status
  pub object_compressed_size_range : IsU64 info.object_compressed_size
  pub thumb_format_range : IsU16 info.thumb_format
  pub thumb_compressed_size_range : IsU32 info.thumb_compressed_size
  pub thumb_pix_width_range : IsU32 info.thumb_pix_width
  pub thumb_pix_height_range : IsU32 info.thumb_pix_height
  pub image_pix_width_range : IsU32 info.image_pix_width
  pub image_pix_height_range : IsU32 info.image_pix_height
  pub image_bit_depth_range : IsU32 info.image_bit_depth
  pub parent_object_range : IsU32 info.parent_object
  pub association_type_range : IsU16 info.association_type
  pub association_desc_range : IsU32 info.association_desc
  pub sequence_number_range : IsU32 info.sequence_number
  pub filename_range : IsMessageText info.filename
  pub capture_date_range : IsMessageText info.capture_date
  pub modification_date_range : IsMessageText info.modification_date
  pub keywords_range : IsMessageText info.keywords

clamped : ℕ → ℕ
clamped size = if ltb max_object_size size then max_object_size else size

clamped-min : (size : ℕ) → clamped size ≡ min size max_object_size
unfolding clamped
clamped-min size = ground arith

clamped-IsU32 : (size : ℕ) → IsU32 (clamped size)
unfolding clamped
clamped-IsU32 size = ground arith

object_info-Codes :
    (info : ObjectInfo)
    → IsObjectInfo info
    → Codes
        (write_object_info info)
        read_object_info
        (record info { object_compressed_size = clamped info.object_compressed_size })
unfolding write_object_info read_object_info clamped
object_info-Codes info v = Codes-then _ _ _ _ _ (u32_Codes info.storage_id v.storage_id_range) (
    Codes-then _ _ _ _ _ (u16_Codes info.object_format v.object_format_range) (
      Codes-then _ _ _ _ _ (u16_Codes info.protection_status v.protection_status_range) (
        Codes-then _ _ _ _ _
          (u32_Codes (clamped info.object_compressed_size)
            (clamped-IsU32 info.object_compressed_size))
          (Codes-then _ _ _ _ _ (u16_Codes info.thumb_format v.thumb_format_range) (
            Codes-then _ _ _ _ _
              (u32_Codes info.thumb_compressed_size v.thumb_compressed_size_range)
              (Codes-then _ _ _ _ _ (u32_Codes info.thumb_pix_width v.thumb_pix_width_range) (
                Codes-then _ _ _ _ _ (u32_Codes info.thumb_pix_height v.thumb_pix_height_range) (
                  Codes-then _ _ _ _ _ (u32_Codes info.image_pix_width v.image_pix_width_range) (
                    Codes-then _ _ _ _ _ (u32_Codes info.image_pix_height v.image_pix_height_range)
                      (Codes-then _ _ _ _ _ (u32_Codes info.image_bit_depth v.image_bit_depth_range)
                        (Codes-then _ _ _ _ _ (u32_Codes info.parent_object v.parent_object_range) (
                          Codes-then _ _ _ _ _
                            (u16_Codes info.association_type v.association_type_range)
                            (Codes-then _ _ _ _ _
                              (u32_Codes info.association_desc v.association_desc_range)
                              (Codes-then _ _ _ _ _
                                (u32_Codes info.sequence_number v.sequence_number_range)
                                (Codes-then _ _ _ _ _ (text_Codes info.filename v.filename_range) (
                                  Codes-then _ _ _ _ _
                                    (text_Codes info.capture_date v.capture_date_range)
                                    (Codes-then _ _ _ _ _
                                      (text_Codes info.modification_date v.modification_date_range)
                                      (Codes-last _ _ _ _ (
                                        text_Codes info.keywords v.keywords_range)))))))))))))))))))

-- `Write` of an object's information, its fields in the range of their types and its texts such as a
-- message can hold, and then `Read` gives every field back, the size cut to `MaxObjectSize`.
pub read-write_object_info :
    (info : ObjectInfo)
    → IsObjectInfo info
    → (bytes : List ℕ) × (write_object_info info [] ≡ ok bytes)
      × (run read_object_info bytes
          ≡ ok (record info {
            object_compressed_size = min info.object_compressed_size max_object_size;
          }))
read-write_object_info info v =
    rw (← clamped-min info.object_compressed_size)
      (run-Codes (write_object_info info) read_object_info _ (object_info-Codes info v))
