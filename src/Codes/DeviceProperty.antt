-- ===== src/Codes/DeviceProperty.antt =====
-- mtp/ptp/DeviceProperty.values.h: the enumerators of `DeviceProperty`, each with its 16-bit value.
use Prim.Native.String.{String}
use zune_sync.Base.{ℕ, List, [], ◌∷◌}

abbrev pub undefined : ℕ
undefined = 0x5000

abbrev pub battery_level : ℕ
battery_level = 0x5001

abbrev pub functional_mode : ℕ
functional_mode = 0x5002

abbrev pub image_size : ℕ
image_size = 0x5003

abbrev pub compression_setting : ℕ
compression_setting = 0x5004

abbrev pub white_balance : ℕ
white_balance = 0x5005

abbrev pub rgb_gain : ℕ
rgb_gain = 0x5006

abbrev pub f_number : ℕ
f_number = 0x5007

abbrev pub focal_length : ℕ
focal_length = 0x5008

abbrev pub focus_distance : ℕ
focus_distance = 0x5009

abbrev pub focus_mode : ℕ
focus_mode = 0x500a

abbrev pub exposure_metering_mode : ℕ
exposure_metering_mode = 0x500b

abbrev pub flash_mode : ℕ
flash_mode = 0x500c

abbrev pub exposure_time : ℕ
exposure_time = 0x500d

abbrev pub exposure_program_mode : ℕ
exposure_program_mode = 0x500e

abbrev pub exposure_index : ℕ
exposure_index = 0x500f

abbrev pub exposure_bias_compensation : ℕ
exposure_bias_compensation = 0x5010

abbrev pub datetime : ℕ
datetime = 0x5011

abbrev pub capture_delay : ℕ
capture_delay = 0x5012

abbrev pub still_capture_mode : ℕ
still_capture_mode = 0x5013

abbrev pub contrast : ℕ
contrast = 0x5014

abbrev pub sharpness : ℕ
sharpness = 0x5015

abbrev pub digital_zoom : ℕ
digital_zoom = 0x5016

abbrev pub effect_mode : ℕ
effect_mode = 0x5017

abbrev pub burst_number : ℕ
burst_number = 0x5018

abbrev pub burst_interval : ℕ
burst_interval = 0x5019

abbrev pub timelapse_number : ℕ
timelapse_number = 0x501a

abbrev pub timelapse_interval : ℕ
timelapse_interval = 0x501b

abbrev pub focus_metering_mode : ℕ
focus_metering_mode = 0x501c

abbrev pub upload_url : ℕ
upload_url = 0x501d

abbrev pub artist : ℕ
artist = 0x501e

abbrev pub copyright_info : ℕ
copyright_info = 0x501f

abbrev pub secure_time : ℕ
secure_time = 0xd101

abbrev pub device_certificate : ℕ
device_certificate = 0xd102

abbrev pub revocation_info : ℕ
revocation_info = 0xd103

abbrev pub plays_for_sure_id : ℕ
plays_for_sure_id = 0xd131

abbrev pub device_eui64 : ℕ
device_eui64 = 0xd210

abbrev pub firmware_version : ℕ
firmware_version = 0xd233

abbrev pub serial_number : ℕ
serial_number = 0xd235

abbrev pub functional_id : ℕ
functional_id = 0xd301

abbrev pub model_id : ℕ
model_id = 0xd302

abbrev pub use_device_stage : ℕ
use_device_stage = 0xd303

abbrev pub synchronization_partner : ℕ
synchronization_partner = 0xd401

abbrev pub device_friendly_name : ℕ
device_friendly_name = 0xd402

abbrev pub volume : ℕ
volume = 0xd403

abbrev pub supported_formats_ordered : ℕ
supported_formats_ordered = 0xd404

abbrev pub device_icon : ℕ
device_icon = 0xd405

abbrev pub session_initiator_version_info : ℕ
session_initiator_version_info = 0xd406

abbrev pub perceived_device_type : ℕ
perceived_device_type = 0xd407

abbrev pub playback_rate : ℕ
playback_rate = 0xd410

abbrev pub playback_object : ℕ
playback_object = 0xd411

abbrev pub playback_container_index : ℕ
playback_container_index = 0xd412

abbrev pub playback_position : ℕ
playback_position = 0xd413

-- What the macro `ENUM_VALUE` lists: name and value.
unfoldable pub enumerators : List (String × ℕ)
enumerators =
    ("Undefined", undefined)
    ∷ ("BatteryLevel", battery_level)
    ∷ ("FunctionalMode", functional_mode)
    ∷ ("ImageSize", image_size)
    ∷ ("CompressionSetting", compression_setting)
    ∷ ("WhiteBalance", white_balance)
    ∷ ("RgbGain", rgb_gain)
    ∷ ("FNumber", f_number)
    ∷ ("FocalLength", focal_length)
    ∷ ("FocusDistance", focus_distance)
    ∷ ("FocusMode", focus_mode)
    ∷ ("ExposureMeteringMode", exposure_metering_mode)
    ∷ ("FlashMode", flash_mode)
    ∷ ("ExposureTime", exposure_time)
    ∷ ("ExposureProgramMode", exposure_program_mode)
    ∷ ("ExposureIndex", exposure_index)
    ∷ ("ExposureBiasCompensation", exposure_bias_compensation)
    ∷ ("Datetime", datetime)
    ∷ ("CaptureDelay", capture_delay)
    ∷ ("StillCaptureMode", still_capture_mode)
    ∷ ("Contrast", contrast)
    ∷ ("Sharpness", sharpness)
    ∷ ("DigitalZoom", digital_zoom)
    ∷ ("EffectMode", effect_mode)
    ∷ ("BurstNumber", burst_number)
    ∷ ("BurstInterval", burst_interval)
    ∷ ("TimelapseNumber", timelapse_number)
    ∷ ("TimelapseInterval", timelapse_interval)
    ∷ ("FocusMeteringMode", focus_metering_mode)
    ∷ ("UploadUrl", upload_url)
    ∷ ("Artist", artist)
    ∷ ("CopyrightInfo", copyright_info)
    ∷ ("SecureTime", secure_time)
    ∷ ("DeviceCertificate", device_certificate)
    ∷ ("RevocationInfo", revocation_info)
    ∷ ("PlaysForSureID", plays_for_sure_id)
    ∷ ("DeviceEUI64", device_eui64)
    ∷ ("FirmwareVersion", firmware_version)
    ∷ ("SerialNumber", serial_number)
    ∷ ("FunctionalID", functional_id)
    ∷ ("ModelID", model_id)
    ∷ ("UseDeviceStage", use_device_stage)
    ∷ ("SynchronizationPartner", synchronization_partner)
    ∷ ("DeviceFriendlyName", device_friendly_name)
    ∷ ("Volume", volume)
    ∷ ("SupportedFormatsOrdered", supported_formats_ordered)
    ∷ ("DeviceIcon", device_icon)
    ∷ ("SessionInitiatorVersionInfo", session_initiator_version_info)
    ∷ ("PerceivedDeviceType", perceived_device_type)
    ∷ ("PlaybackRate", playback_rate)
    ∷ ("PlaybackObject", playback_object)
    ∷ ("PlaybackContainerIndex", playback_container_index)
    ∷ ("PlaybackPosition", playback_position)
    ∷ []
