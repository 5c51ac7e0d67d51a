-- ===== src/Codes/DataTypeCode.antt =====
-- mtp/ptp/DataTypeCode.values.h: the enumerators of `DataTypeCode`, each with its 16-bit value.
use Prim.Native.String.{String}
use zune_sync.Base.{ℕ, List, [], ◌∷◌}

abbrev pub undefined : ℕ
undefined = 0x0000

abbrev pub int8 : ℕ
int8 = 0x0001

abbrev pub uint8 : ℕ
uint8 = 0x0002

abbrev pub int16 : ℕ
int16 = 0x0003

abbrev pub uint16 : ℕ
uint16 = 0x0004

abbrev pub int32 : ℕ
int32 = 0x0005

abbrev pub uint32 : ℕ
uint32 = 0x0006

abbrev pub int64 : ℕ
int64 = 0x0007

abbrev pub uint64 : ℕ
uint64 = 0x0008

abbrev pub int128 : ℕ
int128 = 0x0009

abbrev pub uint128 : ℕ
uint128 = 0x000a

abbrev pub array_int8 : ℕ
array_int8 = 0x4001

abbrev pub array_uint8 : ℕ
array_uint8 = 0x4002

abbrev pub array_int16 : ℕ
array_int16 = 0x4003

abbrev pub array_uint16 : ℕ
array_uint16 = 0x4004

abbrev pub array_int32 : ℕ
array_int32 = 0x4005

abbrev pub array_uint32 : ℕ
array_uint32 = 0x4006

abbrev pub array_int64 : ℕ
array_int64 = 0x4007

abbrev pub array_uint64 : ℕ
array_uint64 = 0x4008

abbrev pub array_int128 : ℕ
array_int128 = 0x4009

abbrev pub array_uint128 : ℕ
array_uint128 = 0x400a

abbrev pub string : ℕ
string = 0xffff

-- What the macro `ENUM_VALUE` lists: name and value.
unfoldable pub enumerators : List (String × ℕ)
enumerators =
    ("Undefined", undefined)
    ∷ ("Int8", int8)
    ∷ ("Uint8", uint8)
    ∷ ("Int16", int16)
    ∷ ("Uint16", uint16)
    ∷ ("Int32", int32)
    ∷ ("Uint32", uint32)
    ∷ ("Int64", int64)
    ∷ ("Uint64", uint64)
    ∷ ("Int128", int128)
    ∷ ("Uint128", uint128)
    ∷ ("ArrayInt8", array_int8)
    ∷ ("ArrayUint8", array_uint8)
    ∷ ("ArrayInt16", array_int16)
    ∷ ("ArrayUint16", array_uint16)
    ∷ ("ArrayInt32", array_int32)
    ∷ ("ArrayUint32", array_uint32)
    ∷ ("ArrayInt64", array_int64)
    ∷ ("ArrayUint64", array_uint64)
    ∷ ("ArrayInt128", array_int128)
    ∷ ("ArrayUint128", array_uint128)
    ∷ ("String", string)
    ∷ []
