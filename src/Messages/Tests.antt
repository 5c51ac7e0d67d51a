-- ===== src/Messages/Tests.antt =====
-- The theorems about messages at concrete inputs.
use zune_sync.Base.{ℕ, min, ◌≡◌, List, [], ◌∷◌, ok, refl, arith}
use zune_sync.Stream.Input.{run}
use zune_sync.Stream.Text.{utf8}
use zune_sync.Stream.Fields.{IsMessageText}
use zune_sync.Messages.Object.{ObjectInfo, read_object_info, write_object_info, max_object_size}
use zune_sync.Messages.RoundTrip.{IsObjectInfo, read-write_object_info}

-- "a.mp3"
abbrev song : List ℕ
song = 0x61 ∷ 0x2e ∷ 0x6d ∷ 0x70 ∷ 0x33 ∷ []

-- An object of 4 GiB and a byte.
abbrev song_info : ObjectInfo
song_info = record {
  storage_id = 0x10001;
  object_format = 0x3009;
  protection_status = 0;
  object_compressed_size = 0x1_0000_0001;
  thumb_format = 0;
  thumb_compressed_size = 0;
  thumb_pix_width = 0;
  thumb_pix_height = 0;
  image_pix_width = 0;
  image_pix_height = 0;
  image_bit_depth = 0;
  parent_object = 5;
  association_type = 0;
  association_desc = 0;
  sequence_number = 1;
  filename = utf8 song;
  capture_date = utf8 [];
  modification_date = utf8 [];
  keywords = utf8 [];
}

empty_text : IsMessageText (utf8 [])
empty_text = ([], record { units = tt; short = omega arith }, refl)

song_text : IsMessageText (utf8 song)
song_text = (
  song,
  record {
    units = (
      (omega arith, omega arith),
      (
        (omega arith, omega arith),
        (
          (omega arith, omega arith),
          ((omega arith, omega arith), ((omega arith, omega arith), tt)),
        ),
      ),
    );
    short = omega arith;
  },
  refl,
)

song_info-IsObjectInfo : IsObjectInfo song_info
song_info-IsObjectInfo = record {
  storage_id_range = omega arith;
  object_format_range = omega arith;
  protection_status_range = omega arith;
  object_compressed_size_range = omega arith;
  thumb_format_range = omega arith;
  thumb_compressed_size_range = omega arith;
  thumb_pix_width_range = omega arith;
  thumb_pix_height_range = omega arith;
  image_pix_width_range = omega arith;
  image_pix_height_range = omega arith;
  image_bit_depth_range = omega arith;
  parent_object_range = omega arith;
  association_type_range = omega arith;
  association_desc_range = omega arith;
  sequence_number_range = omega arith;
  filename_range = song_text;
  capture_date_range = empty_text;
  modification_date_range = empty_text;
  keywords_range = empty_text;
}

read-write_object_info_example :
    (bytes : List ℕ) × (write_object_info song_info [] ≡ ok bytes)
    × (run read_object_info bytes
        ≡ ok (record song_info {
          object_compressed_size = min song_info.object_compressed_size max_object_size;
        }))
read-write_object_info_example = read-write_object_info song_info song_info-IsObjectInfo
