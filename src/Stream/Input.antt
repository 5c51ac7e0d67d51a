-- ===== src/Stream/Input.antt =====
-- mtp/ptp/InputStream.h: the decoder of MTP data. A stream is the byte array and an offset.
use zune_sync.Base.{
  ℕ, zero, suc, ◌+◌, ◌*◌, ◌/◌, ◌^◌, Bool, List, [], ◌∷◌, ◌++◌, none, some, length, get_elem?,
  bit_and, bit_or, leb, ◌==◌, if◌then◌else◌, Error, Result, ok, err,
}

pub record InputStream : Type 0 where
  pub source : List ℕ
  pub offset : ℕ

-- A method that reads: it returns a value and the advanced stream, or throws.
abbrev pub Reader {ℓ} : Type ℓ → Type ℓ
Reader A = InputStream → Result (A × InputStream)

infixl 5 ◌>>=◌
abbrev pub ◌>>=◌ {ℓ κ} : {A : Type ℓ} {B : Type κ} → Reader A → (A → Reader B) → Reader B
◌>>=◌ m f s = elim (m s) [ ok (a, s') ↦ f a s' | err e ↦ err e ]

abbrev pub return {ℓ} : {A : Type ℓ} → A → Reader A
return a s = ok (a, s)

abbrev pub throw {ℓ} : {A : Type ℓ} → Error → Reader A
throw e s = err e

-- `InputStream is(data);`
abbrev pub open_stream : List ℕ → InputStream
open_stream bytes = record { source = bytes; offset = 0 }

unfoldable pub skip : ℕ → Reader (Unit {0})
skip size s = ok (tt, record s { offset = s.offset + size })

unfoldable pub at_end : InputStream → Bool
at_end s = leb (length s.source) s.offset

-- `_data.at(_offset++)`
unfoldable pub read8 : Reader ℕ
read8 s = elim (get_elem? s.source s.offset) [
  | some b ↦ ok (b, record s { offset = s.offset + 1 })
  | none ↦ err Error.out_of_range
]

-- `<<` is a product by a power of two, in the wider type.
unfoldable pub read16 : Reader ℕ
read16 = do l ← read8; h ← read8; return (bit_or l (h * 2 ^ 8))

unfoldable pub read32 : Reader ℕ
read32 = do l ← read16; h ← read16; return (bit_or l (h * 2 ^ 16))

unfoldable pub read64 : Reader ℕ
read64 = do l ← read32; h ← read32; return (bit_or l (h * 2 ^ 32))

-- The upper half is skipped, without a test that it is there.
unfoldable pub read128 : Reader ℕ
read128 = do l ← read64; (λ s. elim (skip 8 s) [ ok (_, s') ↦ ok (l, s') | err e ↦ err e ])

-- The bytes that `ReadString` appends for one UTF-16 unit.
unfoldable pub unit_bytes : ℕ → List ℕ
unit_bytes ch =
    if ch == 0
    then []
    else if leb ch 0x7f
    then ch ∷ []
    else if leb ch 0x7ff
    then bit_or (ch / 2 ^ 6) 0xc0 ∷ bit_or (bit_and ch 0x3f) 0x80 ∷ []
    else bit_or (ch / 2 ^ 12) 0xe0
      ∷ bit_or (bit_and ch 0x0fc0 / 2 ^ 6) 0x80
      ∷ bit_or (bit_and ch 0x003f) 0x80
      ∷ []

-- `ReadString(unsigned len)`: the loop `while(len--)`.
unfoldable pub read_units : ℕ → Reader (List ℕ)
read_units zero = return []
read_units (suc len) = do ch ← read16; str ← read_units len; return (unit_bytes ch ++ str)

-- `ReadString()`
unfoldable pub read_string : Reader (List ℕ)
read_string = do len ← read8; read_units len

module _ {A : Type 0} (element : Reader A) where
  -- `while(size--)`
  unfoldable pub read_elements : ℕ → Reader (List A)
  read_elements zero = return []
  read_elements (suc size) = do el ← element; array ← read_elements size; return (el ∷ array)

  -- `ReadArray`: at the end of the data the array is empty, with no size read.
  unfoldable pub read_array : Reader (List A)
  read_array s = if at_end s then ok ([], s) else (do size ← read32; read_elements size) s

-- The value of a reader that is run on a whole byte array.
abbrev pub run {ℓ} : {A : Type ℓ} → Reader A → List ℕ → Result A
run m bytes = elim (m (open_stream bytes)) [ ok (a, s) ↦ ok a | err e ↦ err e ]

-- `ReadSingleInteger`: the switch on the length.
unfoldable pub read_single_integer : List ℕ → Result ℕ
read_single_integer bytes =
    if length bytes == 8
    then run read64 bytes
    else if length bytes == 4
    then run read32 bytes
    else if length bytes == 2
    then run read16 bytes
    else if length bytes == 1
    then run read8 bytes
    else err Error.unexpected_length

-- `ReadSingleString`
unfoldable pub read_single_string : List ℕ → Result (List ℕ)
read_single_string bytes = run read_string bytes

-- `ParseResponse`: runs the `Read` of a message.
unfoldable pub parse_response : {A : Type 0} → Reader A → List ℕ → Result A
parse_response read bytes = run read bytes
