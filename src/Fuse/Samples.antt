-- ===== src/Fuse/Samples.antt =====
-- A device, a host and a wrapper for the concrete inputs of the tests.
use zune_sync.Base.{
  ℕ, ◌==◌, if◌then◌else◌, true, false, List, [], ◌∷◌, take, drop, refl, Error, ok, err,
}
use zune_sync.Client.Samples.{desk}
use zune_sync.Client.Upload.{upload_info}
use zune_sync.Fuse.State.{FuseSession, Fuse, Host, blank_stat, file_mode}
use zune_sync.Fuse.Serving.{IsAccepting}

-- The object 7 has three bytes, every other one none.
abbrev pub contents : ℕ → List ℕ
contents id = if id == 7 then 1 ∷ 2 ∷ 3 ∷ [] else []

abbrev pub shop : FuseSession
shop = record {
  client = record desk { get_object_info = λ id s. (ok (upload_info (b'n' ∷ []) 0x3000 12), s) };
  edit_object_supported = λ s. true;
  get_object_property_list_supported = λ s. false;
  get_object_storage = λ id s. (ok 0x10001, s);
  get_object_property = λ id property s. (err Error.timeout, s);
  get_object = λ id s. (ok (contents id), s);
  get_partial_object = λ id begin size s. (ok (take size (drop begin (contents id))), s);
  begin_edit_object = λ id s. (ok tt, s);
  truncate_object = λ id size s. (ok tt, s);
  send_partial_object = λ id offset bytes s. (ok tt, s);
  end_edit_object = λ id s. (ok tt, s);
}

abbrev pub door_to : (S : Type 0) → Host S
door_to S = record {
  uid = 1000;
  gid = 1000;
  now = λ s. 5;
  convert_date_time = λ text. 0;
  accepts = λ replies r. true;
  direntry_size = λ name. 32;
  direntry = λ name st offset. name;
  find_first = λ s. (ok true, s);
  open_session = λ s. (ok tt, s);
}

abbrev pub door : Host (List (ℕ × List ℕ))
door = door_to (List (ℕ × List ℕ))

pub door-IsAccepting : IsAccepting door
door-IsAccepting = record { accepting = λ replies r. refl }

-- The directory 4 holds the file 7, which is cached.
abbrev pub mounted : Fuse
mounted = record {
  edit_object_supported = true;
  get_object_property_list_supported = false;
  get_partial_object_supported = false;
  connect_time = 5;
  files = (1000004, (b'a' ∷ [], 1000007) ∷ []) ∷ [];
  object_attrs = (7, record blank_stat { mode = file_mode; size = 3 }) ∷ [];
  opened_files = [];
  directory_cache = [];
  storage_id_list = 0x10001 ∷ [];
  storage_to_name = (0x10001, b'd' ∷ []) ∷ [];
  storage_from_name = (b'd' ∷ [], 0x10001) ∷ [];
  object_cache = (7, contents 7) ∷ [];
  replies = [];
}
