-- ===== src/Codes/Names.antt =====
-- `ToString` of each enumeration (mtp/ptp/*.cpp), and the classes of formats and data types.
use Prim.Native.String.{String}
use text.Mathlib.Text.{◌==◌ as str_eq}
use text.Mathlib.TextEquality.{eq_iff}
use zune_sync.Base.{
  ℕ, ◌/◌, ◌^◌, ◌≡◌, refl, Bool, true, ◌&&◌, ◌||◌, List, [], ◌∷◌, ◌==◌, if◌then◌else◌, All, arith,
}
use zune_sync.Codes.OperationCode
use zune_sync.Codes.ResponseType
use zune_sync.Codes.ObjectFormat
use zune_sync.Codes.ObjectProperty
use zune_sync.Codes.DataTypeCode
use zune_sync.Codes.DeviceProperty
use zune_sync.Codes.EventCode

-- `hex(value, padding).ToString()` prints through an `std::stringstream`.
module _ (hex : ℕ → ℕ → String) where
  -- `switch(value)` over the enumerators, with `ENUM_VALUE_TO_STRING_DEFAULT` at the end.
  unfoldable pub switch_name : List (String × ℕ) → ℕ → ℕ → String
  switch_name [] value padding = hex value padding
  switch_name ((name, code) ∷ rest) value padding =
      if value == code then name else switch_name rest value padding

  unfoldable pub operation_code_to_string : ℕ → String
  operation_code_to_string value = switch_name OperationCode.enumerators value 4

  unfoldable pub response_type_to_string : ℕ → String
  response_type_to_string value = switch_name ResponseType.enumerators value 4

  unfoldable pub object_format_to_string : ℕ → String
  object_format_to_string value = switch_name ObjectFormat.enumerators value 4

  unfoldable pub object_property_to_string : ℕ → String
  object_property_to_string value = switch_name ObjectProperty.enumerators value 4

  unfoldable pub data_type_to_string : ℕ → String
  data_type_to_string value = switch_name DataTypeCode.enumerators value 4

  unfoldable pub device_property_to_string : ℕ → String
  device_property_to_string value = switch_name DeviceProperty.enumerators value 4

  unfoldable pub event_code_to_string : ℕ → String
  event_code_to_string value = switch_name EventCode.enumerators value 4

-- `IsArray`
unfoldable pub is_array : ℕ → Bool
is_array type =
    (type == DataTypeCode.array_int8)
    || (type == DataTypeCode.array_uint8)
    || (type == DataTypeCode.array_int16)
    || (type == DataTypeCode.array_uint16)
    || (type == DataTypeCode.array_int32)
    || (type == DataTypeCode.array_uint32)
    || (type == DataTypeCode.array_int64)
    || (type == DataTypeCode.array_uint64)
    || (type == DataTypeCode.array_int128)
    || (type == DataTypeCode.array_uint128)

-- `IsAudioFormat`
unfoldable pub is_audio_format : ℕ → Bool
is_audio_format format =
    (format == ObjectFormat.aiff)
    || (format == ObjectFormat.wav)
    || (format == ObjectFormat.mp3)
    || (format == ObjectFormat.m4a)
    || (format == ObjectFormat.undefined_audio)
    || (format == ObjectFormat.wma)
    || (format == ObjectFormat.ogg)
    || (format == ObjectFormat.aac)
    || (format == ObjectFormat.audible)
    || (format == ObjectFormat.flac)

-- `IsImageFormat`: the upper byte is 0x38.
unfoldable pub is_image_format : ℕ → Bool
is_image_format format = format / 2 ^ 8 == 0x38

-- Each enumerator of the list is printed by its own name: no value stands under two names.
abbrev pub NamesItself : ((ℕ → ℕ → String) → ℕ → String) → List (String × ℕ) → Type 0
NamesItself to_string entries =
    (hex : ℕ → ℕ → String) → All (λ (e : String × ℕ). to_string hex e.1 ≡ e.0) entries

and_left : (a b : Bool) → (a && b) ≡ true → a ≡ true
and_left a b h = ground arith

and_right : (a b : Bool) → (a && b) ≡ true → b ≡ true
and_right a b h = ground arith

module _ (to_string : ℕ → String) where
  check : List (String × ℕ) → Bool
  check [] = true
  check ((name, code) ∷ entries) = str_eq (to_string code) name && check entries

  check_sound :
      (entries : List (String × ℕ))
      → check entries ≡ true
      → All (λ (e : String × ℕ). to_string e.1 ≡ e.0) entries
  unfolding check
  check_sound [] h = tt
  check_sound ((name, code) ∷ entries) h =
      ((eq_iff (to_string code) name).0 (and_left _ _ h), check_sound entries (and_right _ _ h))

-- `ToString` prints every operation, response, format, property, data type, device property and
-- event of the value lists by its own name.
to_string-names :
    NamesItself operation_code_to_string OperationCode.enumerators
    × NamesItself response_type_to_string ResponseType.enumerators
    × NamesItself object_format_to_string ObjectFormat.enumerators
    × NamesItself object_property_to_string ObjectProperty.enumerators
    × NamesItself data_type_to_string DataTypeCode.enumerators
    × NamesItself device_property_to_string DeviceProperty.enumerators
    × NamesItself event_code_to_string EventCode.enumerators
unfolding check switch_name operation_code_to_string response_type_to_string object_format_to_string
    object_property_to_string data_type_to_string device_property_to_string event_code_to_string
    OperationCode.enumerators ResponseType.enumerators ObjectFormat.enumerators
    ObjectProperty.enumerators DataTypeCode.enumerators DeviceProperty.enumerators
    EventCode.enumerators
to_string-names = (
  λ hex. check_sound (operation_code_to_string hex) OperationCode.enumerators refl,
  λ hex. check_sound (response_type_to_string hex) ResponseType.enumerators refl,
  λ hex. check_sound (object_format_to_string hex) ObjectFormat.enumerators refl,
  λ hex. check_sound (object_property_to_string hex) ObjectProperty.enumerators refl,
  λ hex. check_sound (data_type_to_string hex) DataTypeCode.enumerators refl,
  λ hex. check_sound (device_property_to_string hex) DeviceProperty.enumerators refl,
  λ hex. check_sound (event_code_to_string hex) EventCode.enumerators refl,
)
