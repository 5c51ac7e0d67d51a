-- ===== src/Client/State.antt =====
-- The members of cli/Session.h that its operations change, and the calls of the session.
use zune_sync.Base.{
  ℕ, zero, suc, ◌+◌, ◌/◌, ◌%◌, ltb, ◌==◌, if◌then◌else◌, Bool, List, [], ◌∷◌, ◌++◌, Option, Result,
  ok,
}
use zune_sync.Base.Stateful.{Stateful}
use zune_sync.Messages.Object.{ObjectInfo, NewObjectInfo}
use zune_sync.Messages.Device.{DeviceInfo, StorageInfo}
use zune_sync.Session.Objects.{
  get_storage_info, get_object_info, send_object_info, send_object, delete_object, any_storage,
  all_storages,
}
use zune_sync.Session.Properties.{
  get_object_parent, set_object_string_property, get_device_string_property,
  get_device_integer_property,
}
use zune_sync.Library.Interface.{SessionInterface, session_interface}
use zune_sync.Library.State.{Library}

-- What the client calls of the session, beside what the library calls.
pub record ClientSession : Type 1 where
  pub base : SessionInterface
  pub get_object_parent : ℕ → base.State → Result ℕ × base.State
  pub get_storage_info : ℕ → base.State → Result StorageInfo × base.State
  pub get_object_info : ℕ → base.State → Result ObjectInfo × base.State
  pub delete_object : ℕ → base.State → Result (Unit {0}) × base.State
  pub send_object_info : ObjectInfo → ℕ → ℕ → base.State → Result NewObjectInfo × base.State
  pub send_object : List ℕ → base.State → Result (Unit {0}) × base.State
  pub set_object_string_property : ℕ → ℕ → List ℕ → base.State → Result (Unit {0}) × base.State
  pub get_device_string_property : ℕ → base.State → Result (List ℕ) × base.State
  pub get_device_integer_property : ℕ → base.State → Result ℕ × base.State

-- The session of mtp/ptp/Session.cpp.
abbrev pub client_session : ClientSession
client_session = record {
  base = session_interface;
  get_object_parent = get_object_parent;
  get_storage_info = get_storage_info;
  get_object_info = get_object_info;
  delete_object = delete_object;
  send_object_info = send_object_info;
  send_object = send_object;
  set_object_string_property = set_object_string_property;
  get_device_string_property = get_device_string_property;
  get_device_integer_property = get_device_integer_property;
}

pub record Client : Type 0 where
  pub library : Option Library
  pub gdi : DeviceInfo
  pub cs : ℕ
  pub cs_name : List ℕ
  pub cd : ℕ
  pub running : Bool
  pub show_prompt : Bool
  pub prompt : List ℕ
  pub battery_supported : Bool
  pub device_friendly_name_supported : Bool

-- A method of the client, which runs on the session too.
abbrev pub Method {ℓ} : ClientSession → Type ℓ → Type ℓ
Method C A = Stateful (Client × C.base.State) A

abbrev pub call {ℓ} : {S : Type 0} {A : Type ℓ} → (S → Result A × S) → Stateful (Client × S) A
call f w = let r = f w.1 in (r.0, (w.0, r.1))

abbrev pub read_client {ℓ} : {S : Type 0} {A : Type ℓ} → (Client → A) → Stateful (Client × S) A
read_client f w = (ok (f w.0), w)

abbrev pub change : {S : Type 0} → (Client → Client) → Stateful (Client × S) (Unit {0})
change f w = (ok tt, (f w.0, w.1))

-- `GetUploadStorageId`
unfoldable pub upload_storage : Client → ℕ
upload_storage c = if c.cs == all_storages then any_storage else c.cs

-- `std::to_string` and `<<` of an unsigned integer with at most this number of digits.
unfoldable pub digits : ℕ → ℕ → List ℕ
digits zero n = []
digits (suc k) n =
    let rest = digits k (n / 10) in
    if ltb n 10 then (b'0' + n) ∷ [] else rest ++ ((b'0' + n % 10) ∷ [])

-- A `u64` has at most twenty digits.
abbrev pub to_decimal : ℕ → List ℕ
to_decimal n = digits 20 n
