-- ===== src/Client/Samples.antt =====
-- A session with a storage for the concrete inputs of the tests.
use zune_sync.Base.{[], ◌∷◌, Error, ok, err}
use zune_sync.Library.Samples.{shelf}
use zune_sync.Client.State.{ClientSession}

abbrev pub desk : ClientSession
desk = record {
  base = shelf;
  get_object_parent = λ id s. (ok 0, s);
  get_storage_info = λ id s. (
    ok (record {
      storage_type = 3;
      filesystem_type = 2;
      access_capability = 0;
      max_capacity = 100;
      free_space_in_bytes = 40;
      free_space_in_images = 0;
      storage_description = b'd' ∷ [];
      volume_label = [];
    }),
    s,
  );
  get_object_info = λ id s. (err (Error.not_supported 0x1008), s);
  delete_object = λ id s. (ok tt, s);
  send_object_info = λ info storage parent s.
      (ok (record { storage_id = storage; parent_object_id = parent; object_id = 8 }), s);
  send_object = λ bytes s. (ok tt, s);
  set_object_string_property = λ id property value s. (ok tt, s);
  get_device_string_property = λ property s. (err Error.timeout, s);
  get_device_integer_property = λ property s. (ok 70, s);
}
