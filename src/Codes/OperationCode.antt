-- ===== src/Codes/OperationCode.antt =====
-- mtp/ptp/OperationCode.values.h: the enumerators of `OperationCode`, each with its 16-bit value.
use Prim.Native.String.{String}
use zune_sync.Base.{ℕ, List, [], ◌∷◌}

abbrev pub get_device_info : ℕ
get_device_info = 0x1001

abbrev pub open_session : ℕ
open_session = 0x1002

abbrev pub close_session : ℕ
close_session = 0x1003

abbrev pub get_storage_i_ds : ℕ
get_storage_i_ds = 0x1004

abbrev pub get_storage_info : ℕ
get_storage_info = 0x1005

abbrev pub get_num_objects : ℕ
get_num_objects = 0x1006

abbrev pub get_object_handles : ℕ
get_object_handles = 0x1007

abbrev pub get_object_info : ℕ
get_object_info = 0x1008

abbrev pub get_object : ℕ
get_object = 0x1009

abbrev pub get_thumb : ℕ
get_thumb = 0x100a

abbrev pub delete_object : ℕ
delete_object = 0x100b

abbrev pub send_object_info : ℕ
send_object_info = 0x100c

abbrev pub send_object : ℕ
send_object = 0x100d

abbrev pub initiate_capture : ℕ
initiate_capture = 0x100e

abbrev pub format_store : ℕ
format_store = 0x100f

abbrev pub reset_device : ℕ
reset_device = 0x1010

abbrev pub self_test : ℕ
self_test = 0x1011

abbrev pub set_object_protection : ℕ
set_object_protection = 0x1012

abbrev pub power_down : ℕ
power_down = 0x1013

abbrev pub get_device_prop_desc : ℕ
get_device_prop_desc = 0x1014

abbrev pub get_device_prop_value : ℕ
get_device_prop_value = 0x1015

abbrev pub set_device_prop_value : ℕ
set_device_prop_value = 0x1016

abbrev pub reset_device_prop_value : ℕ
reset_device_prop_value = 0x1017

abbrev pub terminate_open_capture : ℕ
terminate_open_capture = 0x1018

abbrev pub move_object : ℕ
move_object = 0x1019

abbrev pub copy_object : ℕ
copy_object = 0x101a

abbrev pub get_partial_object : ℕ
get_partial_object = 0x101b

abbrev pub initiate_open_capture : ℕ
initiate_open_capture = 0x101c

abbrev pub cancel_transaction : ℕ
cancel_transaction = 0x4001

abbrev pub janus_get_secure_time_challenge : ℕ
janus_get_secure_time_challenge = 0x9101

abbrev pub janus_set_secure_time_response : ℕ
janus_set_secure_time_response = 0x9102

abbrev pub janus_set_license_response : ℕ
janus_set_license_response = 0x9103

abbrev pub janus_get_sync_list : ℕ
janus_get_sync_list = 0x9104

abbrev pub janus_send_meter_challenge_query : ℕ
janus_send_meter_challenge_query = 0x9105

abbrev pub janus_get_meter_challenge : ℕ
janus_get_meter_challenge = 0x9106

abbrev pub janus_set_meter_response : ℕ
janus_set_meter_response = 0x9107

abbrev pub janus_clean_data_store : ℕ
janus_clean_data_store = 0x9108

abbrev pub janus_get_license_state : ℕ
janus_get_license_state = 0x9109

abbrev pub janus_send_command : ℕ
janus_send_command = 0x910a

abbrev pub janus_send_request : ℕ
janus_send_request = 0x910b

abbrev pub process_wcf_object : ℕ
process_wcf_object = 0x9122

abbrev pub open_media_session : ℕ
open_media_session = 0x9170

abbrev pub close_media_session : ℕ
close_media_session = 0x9171

abbrev pub get_next_data_block : ℕ
get_next_data_block = 0x9172

abbrev pub set_current_time_position : ℕ
set_current_time_position = 0x9173

abbrev pub wmp_metadata_round_trip : ℕ
wmp_metadata_round_trip = 0x9201

abbrev pub wmp_get_acquired_content : ℕ
wmp_get_acquired_content = 0x9202

abbrev pub reboot_device : ℕ
reboot_device = 0x9204

abbrev pub send_wmdrmpd_app_request : ℕ
send_wmdrmpd_app_request = 0x9212

abbrev pub get_wmdrmpd_app_response : ℕ
get_wmdrmpd_app_response = 0x9213

abbrev pub enable_trusted_files_operations : ℕ
enable_trusted_files_operations = 0x9214

abbrev pub disable_trusted_files_operations : ℕ
disable_trusted_files_operations = 0x9215

abbrev pub end_trusted_app_session : ℕ
end_trusted_app_session = 0x9216

abbrev pub get_service_i_ds : ℕ
get_service_i_ds = 0x9301

abbrev pub get_service_info : ℕ
get_service_info = 0x9302

abbrev pub get_service_capabilities : ℕ
get_service_capabilities = 0x9303

abbrev pub get_service_prop_desc : ℕ
get_service_prop_desc = 0x9304

abbrev pub get_service_prop_list : ℕ
get_service_prop_list = 0x9305

abbrev pub set_service_prop_list : ℕ
set_service_prop_list = 0x9306

abbrev pub update_object_prop_list : ℕ
update_object_prop_list = 0x9307

abbrev pub delete_object_prop_list : ℕ
delete_object_prop_list = 0x9308

abbrev pub delete_service_prop_list : ℕ
delete_service_prop_list = 0x9309

abbrev pub get_format_capabilities : ℕ
get_format_capabilities = 0x930a

abbrev pub send_tiny_clr_data : ℕ
send_tiny_clr_data = 0x9401

abbrev pub get_tiny_clr_data : ℕ
get_tiny_clr_data = 0x9402

abbrev pub get_partial_object64 : ℕ
get_partial_object64 = 0x95c1

abbrev pub send_partial_object : ℕ
send_partial_object = 0x95c2

abbrev pub truncate_object : ℕ
truncate_object = 0x95c3

abbrev pub begin_edit_object : ℕ
begin_edit_object = 0x95c4

abbrev pub end_edit_object : ℕ
end_edit_object = 0x95c5

abbrev pub get_object_props_supported : ℕ
get_object_props_supported = 0x9801

abbrev pub get_object_prop_desc : ℕ
get_object_prop_desc = 0x9802

abbrev pub get_object_prop_value : ℕ
get_object_prop_value = 0x9803

abbrev pub set_object_prop_value : ℕ
set_object_prop_value = 0x9804

abbrev pub get_object_prop_list : ℕ
get_object_prop_list = 0x9805

abbrev pub set_object_prop_list : ℕ
set_object_prop_list = 0x9806

abbrev pub get_interdependent_prop_desc : ℕ
get_interdependent_prop_desc = 0x9807

abbrev pub send_object_prop_list : ℕ
send_object_prop_list = 0x9808

abbrev pub get_object_references : ℕ
get_object_references = 0x9810

abbrev pub set_object_references : ℕ
set_object_references = 0x9811

abbrev pub update_device_firmware : ℕ
update_device_firmware = 0x9812

abbrev pub reset_object_prop_value : ℕ
reset_object_prop_value = 0x9813

abbrev pub skip : ℕ
skip = 0x9820

-- What the macro `ENUM_VALUE` lists: name and value.
unfoldable pub enumerators : List (String × ℕ)
enumerators =
    ("GetDeviceInfo", get_device_info)
    ∷ ("OpenSession", open_session)
    ∷ ("CloseSession", close_session)
    ∷ ("GetStorageIDs", get_storage_i_ds)
    ∷ ("GetStorageInfo", get_storage_info)
    ∷ ("GetNumObjects", get_num_objects)
    ∷ ("GetObjectHandles", get_object_handles)
    ∷ ("GetObjectInfo", get_object_info)
    ∷ ("GetObject", get_object)
    ∷ ("GetThumb", get_thumb)
    ∷ ("DeleteObject", delete_object)
    ∷ ("SendObjectInfo", send_object_info)
    ∷ ("SendObject", send_object)
    ∷ ("InitiateCapture", initiate_capture)
    ∷ ("FormatStore", format_store)
    ∷ ("ResetDevice", reset_device)
    ∷ ("SelfTest", self_test)
    ∷ ("SetObjectProtection", set_object_protection)
    ∷ ("PowerDown", power_down)
    ∷ ("GetDevicePropDesc", get_device_prop_desc)
    ∷ ("GetDevicePropValue", get_device_prop_value)
    ∷ ("SetDevicePropValue", set_device_prop_value)
    ∷ ("ResetDevicePropValue", reset_device_prop_value)
    ∷ ("TerminateOpenCapture", terminate_open_capture)
    ∷ ("MoveObject", move_object)
    ∷ ("CopyObject", copy_object)
    ∷ ("GetPartialObject", get_partial_object)
    ∷ ("InitiateOpenCapture", initiate_open_capture)
    ∷ ("CancelTransaction", cancel_transaction)
    ∷ ("JanusGetSecureTimeChallenge", janus_get_secure_time_challenge)
    ∷ ("JanusSetSecureTimeResponse", janus_set_secure_time_response)
    ∷ ("JanusSetLicenseResponse", janus_set_license_response)
    ∷ ("JanusGetSyncList", janus_get_sync_list)
    ∷ ("JanusSendMeterChallengeQuery", janus_send_meter_challenge_query)
    ∷ ("JanusGetMeterChallenge", janus_get_meter_challenge)
    ∷ ("JanusSetMeterResponse", janus_set_meter_response)
    ∷ ("JanusCleanDataStore", janus_clean_data_store)
    ∷ ("JanusGetLicenseState", janus_get_license_state)
    ∷ ("JanusSendCommand", janus_send_command)
    ∷ ("JanusSendRequest", janus_send_request)
    ∷ ("ProcessWCFObject", process_wcf_object)
    ∷ ("OpenMediaSession", open_media_session)
    ∷ ("CloseMediaSession", close_media_session)
    ∷ ("GetNextDataBlock", get_next_data_block)
    ∷ ("SetCurrentTimePosition", set_current_time_position)
    ∷ ("WMPMetadataRoundTrip", wmp_metadata_round_trip)
    ∷ ("WmpGetAcquiredContent", wmp_get_acquired_content)
    ∷ ("RebootDevice", reboot_device)
    ∷ ("SendWMDRMPDAppRequest", send_wmdrmpd_app_request)
    ∷ ("GetWMDRMPDAppResponse", get_wmdrmpd_app_response)
    ∷ ("EnableTrustedFilesOperations", enable_trusted_files_operations)
    ∷ ("DisableTrustedFilesOperations", disable_trusted_files_operations)
    ∷ ("EndTrustedAppSession", end_trusted_app_session)
    ∷ ("GetServiceIDs", get_service_i_ds)
    ∷ ("GetServiceInfo", get_service_info)
    ∷ ("GetServiceCapabilities", get_service_capabilities)
    ∷ ("GetServicePropDesc", get_service_prop_desc)
    ∷ ("GetServicePropList", get_service_prop_list)
    ∷ ("SetServicePropList", set_service_prop_list)
    ∷ ("UpdateObjectPropList", update_object_prop_list)
    ∷ ("DeleteObjectPropList", delete_object_prop_list)
    ∷ ("DeleteServicePropList", delete_service_prop_list)
    ∷ ("GetFormatCapabilities", get_format_capabilities)
    ∷ ("SendTinyCLRData", send_tiny_clr_data)
    ∷ ("GetTinyCLRData", get_tiny_clr_data)
    ∷ ("GetPartialObject64", get_partial_object64)
    ∷ ("SendPartialObject", send_partial_object)
    ∷ ("TruncateObject", truncate_object)
    ∷ ("BeginEditObject", begin_edit_object)
    ∷ ("EndEditObject", end_edit_object)
    ∷ ("GetObjectPropsSupported", get_object_props_supported)
    ∷ ("GetObjectPropDesc", get_object_prop_desc)
    ∷ ("GetObjectPropValue", get_object_prop_value)
    ∷ ("SetObjectPropValue", set_object_prop_value)
    ∷ ("GetObjectPropList", get_object_prop_list)
    ∷ ("SetObjectPropList", set_object_prop_list)
    ∷ ("GetInterdependentPropDesc", get_interdependent_prop_desc)
    ∷ ("SendObjectPropList", send_object_prop_list)
    ∷ ("GetObjectReferences", get_object_references)
    ∷ ("SetObjectReferences", set_object_references)
    ∷ ("UpdateDeviceFirmware", update_device_firmware)
    ∷ ("ResetObjectPropValue", reset_object_prop_value)
    ∷ ("Skip", skip)
    ∷ []
