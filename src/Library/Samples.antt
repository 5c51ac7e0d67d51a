-- ===== src/Library/Samples.antt =====
-- A session for the concrete inputs of the tests.
use zune_sync.Base.{ℕ, ltb, ◌==◌, if◌then◌else◌, List, [], ◌∷◌, length, Error, ok, err}
use zune_sync.Session.Transaction.{blank_info}
use zune_sync.Library.Interface.{SessionInterface}
use zune_sync.Library.State.{Platform}

abbrev pub lookup : ℕ → List (ℕ × List ℕ) → List ℕ
lookup id [] = []
lookup id ((k, v) ∷ entries) = if k == id then v else lookup id entries

-- A device that keeps up to three references for an object.
abbrev pub shelf : SessionInterface
shelf = record {
  State = List (ℕ × List ℕ);
  device_info = λ s. blank_info;
  get_storage_ids = λ s. (ok (record { storage_ids = 0x10001 ∷ [] }), s);
  get_object_handles = λ storage format parent s. (ok (record { object_handles = [] }), s);
  get_object_properties_supported = λ format s. (ok (record { object_property_codes = [] }), s);
  get_object_property_list = λ parent format property group depth s. (ok (0 ∷ 0 ∷ 0 ∷ 0 ∷ []), s);
  get_object_string_property = λ id property s. (ok (b'a' ∷ []), s);
  get_object_integer_property = λ id property s. (ok 1, s);
  send_object_prop_list = λ storage parent format size bytes s. (
    ok (record {
      storage_id = storage;
      parent_object_id = parent;
      object_id = 9;
      failed_property_index = 0;
    }),
    s,
  );
  create_directory = λ name parent storage type s.
      (ok (record { storage_id = storage; parent_object_id = parent; object_id = 8 }), s);
  set_object_references = λ id handles s.
      if ltb 3 (length handles.object_handles)
      then (err Error.timeout, s)
      else (ok tt, (id, handles.object_handles) ∷ s);
  get_object_references = λ id s. (ok (record { object_handles = lookup id s }), s);
  set_object_property_as_array = λ id property bytes s. (ok tt, s);
}

abbrev pub plain : Platform
plain = record {
  set_order = λ ids. ids;
  range_order = λ entries. entries;
  convert_date_time = λ text. 0;
  convert_year = λ year. ok [];
}
