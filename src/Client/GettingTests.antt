-- ===== src/Client/GettingTests.antt =====
-- The theorems about `Get` at concrete inputs.
use zune_sync.Base.{◌==◌, ◌≡◌, refl, if◌then◌else◌, true, false, [], ◌∷◌, none, Error, ok, err}
use zune_sync.Codes.ObjectFormat
use zune_sync.Messages.Object.{ObjectInfo}
use zune_sync.Session.Transaction.{blank_info}
use zune_sync.Library.Samples.{shelf}
use zune_sync.Client.Samples.{desk}
use zune_sync.Client.State.{ClientSession}
use zune_sync.Client.Getting.{
  Effect, Downloads, Files, World, copy_time, ask_size, get_file, below, get,
}
use zune_sync.Client.Below.{Adds, get-Adds}

-- "b"
abbrev child_info : ObjectInfo
child_info = record {
  storage_id = 0x10001;
  object_format = 0x3000;
  protection_status = 0;
  object_compressed_size = 1;
  thumb_format = 0;
  thumb_compressed_size = 0;
  thumb_pix_width = 0;
  thumb_pix_height = 0;
  image_pix_width = 0;
  image_pix_height = 0;
  image_bit_depth = 0;
  parent_object = 4;
  association_type = 0;
  association_desc = 0;
  sequence_number = 0;
  filename = b'b' ∷ [];
  capture_date = [];
  modification_date = [];
  keywords = [];
}

-- The directory 4 has the file 7.
abbrev nested : ClientSession
nested = record desk {
  base = record shelf {
    get_object_integer_property =
        λ id property s. (ok (if id == 4 then ObjectFormat.association else 0x3000), s);
    get_object_handles = λ storage format parent s.
        (ok (record { object_handles = if parent == 4 then 7 ∷ [] else [] }), s);
  };
  get_object_info = λ id s. (ok child_info, s);
}

abbrev tree : Downloads
tree = record {
  client = nested;
  get_object = λ id s. (ok (1 ∷ (2 ∷ [])), s);
  get_thumb = λ id s. (err Error.timeout, s);
  get_object_modification_time = λ id s. (ok 5, s);
}

abbrev disk : Files
disk = record { open_file = λ path. ok tt; set_time = λ path time. ok tt }

abbrev before : World tree
before = (
  [],
  (
    record {
      library = none;
      gdi = blank_info;
      cs = 0x10001;
      cs_name = b'd' ∷ [];
      cd = 4;
      running = true;
      show_prompt = true;
      prompt = [];
      battery_supported = true;
      device_friendly_name_supported = true;
    },
    [],
  ),
)

-- What `get` of the directory does, in order.
got :
    (get tree disk true 2 false (b'a' ∷ []) 4 before).1.0
    ≡ Effect.made_directory (b'a' ∷ [])
      ∷ (Effect.opened (b'a' ∷ (b'/' ∷ (b'b' ∷ [])))
          ∷ (Effect.wrote (b'a' ∷ (b'/' ∷ (b'b' ∷ []))) (1 ∷ (2 ∷ []))
              ∷ (Effect.timed (b'a' ∷ (b'/' ∷ (b'b' ∷ []))) 5 ∷ [])))
unfolding get get_file ask_size copy_time below
got = refl

get-Adds_example : Adds (b'a' ∷ []) [] (get tree disk true 2 false (b'a' ∷ []) 4 before).1.0
get-Adds_example = get-Adds tree disk true 2 false (b'a' ∷ []) 4 before
