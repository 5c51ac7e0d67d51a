-- ===== src/Library/Interface.antt =====
-- What the library calls of the session, over the session's unknown state.
use zune_sync.Base.{ℕ, List, Result}
use zune_sync.Messages.Object.{
  ObjectHandles, ObjectPropertiesSupported, SendObjectPropListResponse, NewObjectInfo,
}
use zune_sync.Messages.Device.{DeviceInfo, StorageIds}
use zune_sync.Session.State.{Session}
use zune_sync.Session.Objects.{
  get_storage_ids, get_object_handles, get_object_properties_supported, send_object_prop_list,
  create_directory, set_object_references, get_object_references,
}
use zune_sync.Session.Properties.{
  get_object_string_property, get_object_integer_property, get_object_property_list,
  set_object_property_as_array,
}

pub record SessionInterface : Type 1 where
  pub State : Type 0
  pub device_info : State → DeviceInfo
  pub get_storage_ids : State → Result StorageIds × State
  pub get_object_handles : ℕ → ℕ → ℕ → State → Result ObjectHandles × State
  pub get_object_properties_supported : ℕ → State → Result ObjectPropertiesSupported × State
  pub get_object_property_list : ℕ → ℕ → ℕ → ℕ → ℕ → State → Result (List ℕ) × State
  pub get_object_string_property : ℕ → ℕ → State → Result (List ℕ) × State
  pub get_object_integer_property : ℕ → ℕ → State → Result ℕ × State
  pub send_object_prop_list :
      ℕ → ℕ → ℕ → ℕ → List ℕ → State → Result SendObjectPropListResponse × State
  pub create_directory : List ℕ → ℕ → ℕ → ℕ → State → Result NewObjectInfo × State
  pub set_object_references : ℕ → ObjectHandles → State → Result (Unit {0}) × State
  pub get_object_references : ℕ → State → Result ObjectHandles × State
  pub set_object_property_as_array : ℕ → ℕ → List ℕ → State → Result (Unit {0}) × State

-- The session of mtp/ptp/Session.cpp.
abbrev pub session_interface : SessionInterface
session_interface = record {
  State = Session;
  device_info = λ s. s.device_info;
  get_storage_ids = get_storage_ids;
  get_object_handles = get_object_handles;
  get_object_properties_supported = get_object_properties_supported;
  get_object_property_list = get_object_property_list;
  get_object_string_property = get_object_string_property;
  get_object_integer_property = get_object_integer_property;
  send_object_prop_list = send_object_prop_list;
  create_directory = create_directory;
  set_object_references = set_object_references;
  get_object_references = get_object_references;
  set_object_property_as_array = set_object_property_as_array;
}
