-- ===== src/PropertyList/Parser.antt =====
-- mtp/ptp/ObjectPropertyListParser.h. The calls of `func` are the list of their arguments, in order.
use zune_sync.Base.{
  ℕ, zero, suc, ◌==◌, ◌||◌, not, if◌then◌else◌, List, [], ◌∷◌, Error, Result, ok, err,
}
use zune_sync.Base.Stateful
use zune_sync.Base.Stateful.{Stateful}
use zune_sync.Codes.DataTypeCode
use zune_sync.Stream.Input.{
  InputStream, open_stream, Reader, ◌>>=◌, return, throw, read8, read16, read32, read64,
  read_string, run, skip,
}

pub record Property (A : Type 0) : Type 0 where
  pub object_id : ℕ
  pub property : ℕ
  pub value : A

-- `ObjectPropertyParser<PropertyType>::Parse`, before the cast to the property type.
unfoldable pub parse_integer : ℕ → Reader ℕ
parse_integer data_type =
    if data_type == DataTypeCode.uint8
    then read8
    else if data_type == DataTypeCode.uint16
    then read16
    else if data_type == DataTypeCode.uint32
    then read32
    else if data_type == DataTypeCode.uint64
    then read64
    else if data_type == DataTypeCode.int8
    then read8
    else if data_type == DataTypeCode.int16
    then read16
    else if data_type == DataTypeCode.int32
    then read32
    else if data_type == DataTypeCode.int64
    then read64
    else throw Error.invalid_type

-- `ObjectPropertyParser<std::string>::Parse`
unfoldable pub parse_string : ℕ → Reader (List ℕ)
parse_string data_type =
    if not (data_type == DataTypeCode.string) then throw Error.invalid_type else read_string

-- `DummyPropertyListParser::Parse` of cli/Session.cpp: values of every type are passed over, and come
-- back empty.
unfoldable pub parse_skipping : ℕ → Reader (List ℕ)
parse_skipping data_type =
    if (data_type == DataTypeCode.uint8) || (data_type == DataTypeCode.int8)
    then (skip 1 >>= λ _. return [])
    else if (data_type == DataTypeCode.uint16) || (data_type == DataTypeCode.int16)
    then (skip 2 >>= λ _. return [])
    else if (data_type == DataTypeCode.uint32) || (data_type == DataTypeCode.int32)
    then (skip 4 >>= λ _. return [])
    else if (data_type == DataTypeCode.uint64) || (data_type == DataTypeCode.int64)
    then (skip 8 >>= λ _. return [])
    else if (data_type == DataTypeCode.uint128) || (data_type == DataTypeCode.int128)
    then (skip 16 >>= λ _. return [])
    else if data_type == DataTypeCode.string
    then (read_string >>= λ _. return [])
    else throw Error.invalid_type

-- `GetSize`
unfoldable pub get_size : List ℕ → Result ℕ
get_size bytes = run read32 bytes

module _ {A : Type 0} (parser : ℕ → Reader A) where
  unfoldable pub parse_property : Reader (Property A)
  parse_property = do
    object_id ← read32
    property ← read16
    data_type ← read16
    value ← parser data_type
    return (record { object_id = object_id; property = property; value = value })

  -- The loop `while(n--)` of `Parse`.
  unfoldable pub parse_properties : ℕ → Reader (List (Property A))
  parse_properties zero = return []
  parse_properties (suc n) = do
    first ← parse_property
    rest ← parse_properties n
    return (first ∷ rest)

  unfoldable pub parse : List ℕ → Result (List (Property A))
  parse bytes = run (do n ← read32; parse_properties n) bytes

-- The calls of `func` as they happen: what it does stays, also when a later entry does not parse.
module _ {A : Type 0} {S : Type 0} (parser : ℕ → Reader A)
    (func : Property A → Stateful S (Unit {0})) where
  unfoldable pub each_property : ℕ → InputStream → Stateful S (Unit {0})
  each_property zero s = Stateful.return tt
  each_property (suc n) s = elim (parse_property parser s) [
    | err e ↦ Stateful.throw e
    | ok (p, s') ↦ Stateful.◌>>◌ (func p) (each_property n s')
  ]

  unfoldable pub parse_each : List ℕ → Stateful S (Unit {0})
  parse_each bytes = elim (read32 (open_stream bytes)) [
    | err e ↦ Stateful.throw e
    | ok (n, s) ↦ each_property n s
  ]
