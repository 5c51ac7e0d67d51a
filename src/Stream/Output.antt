-- ===== src/Stream/Output.antt =====
-- mtp/ptp/OutputStream.h: the encoder of MTP data. A stream is the byte array it appends to.
use zune_sync.Base.{
  ℕ, zero, suc, ◌+◌, ◌*◌, ◌/◌, ◌^◌, Bool, not, ◌&&◌, ◌||◌, List, [], ◌∷◌, ◌++◌, length, bit_and,
  bit_or, ltb, leb, ◌==◌, if◌then◌else◌, u8, u16, u32, Error, Result, ok, err,
}

-- A method that writes: it returns the array with what it appended, or throws.
abbrev pub Writer : Type 0
Writer = List ℕ → Result (List ℕ)

infixl 5 ◌>>◌
abbrev pub ◌>>◌ : Writer → Writer → Writer
◌>>◌ w v out = elim (w out) [ ok out' ↦ v out' | err e ↦ err e ]

abbrev pub nothing : Writer
nothing out = ok out

-- `_data.push_back(value)`, the value cast to a byte.
unfoldable pub write8 : ℕ → Writer
write8 value out = ok (out ++ (u8 value ∷ []))

unfoldable pub write16 : ℕ → Writer
write16 value = do write8 value; write8 (value / 2 ^ 8)

unfoldable pub write32 : ℕ → Writer
write32 value = do write16 (u16 value); write16 (u16 (value / 2 ^ 16))

-- The parameter is a `u32`, and the second half is shifted by 16, as in the source.
unfoldable pub write64 : ℕ → Writer
write64 v = do write32 (u32 v); write32 (u32 v / 2 ^ 16)

-- `WriteData`
unfoldable pub write_bytes : List ℕ → Writer
write_bytes [] = nothing
write_bytes (b ∷ bs) = do write8 b; write_bytes bs

-- The bytes that begin a character: all but `10xxxxxx`.
unfoldable pub is_leading : ℕ → Bool
is_leading c = (bit_and c 0x80 == 0) || not (bit_and c 0xc0 == 0x80)

unfoldable pub utf8_length : List ℕ → ℕ
utf8_length [] = 0
utf8_length (c ∷ value) = (if is_leading c then 1 else 0) + utf8_length value

-- `c0` with one and with two bytes after it; `?` for a lead byte that is neither.
unfoldable pub two_byte_unit : ℕ → ℕ → ℕ
two_byte_unit c0 c1 = bit_or (bit_and c0 0x1f * 2 ^ 6) (bit_and c1 0x3f)

unfoldable pub three_byte_unit : ℕ → ℕ → ℕ → ℕ
three_byte_unit c0 c1 c2 =
    if leb 0xe0 c0 && leb c0 0xef
    then bit_or (bit_or (bit_and c0 0x0f * 2 ^ 12) (bit_and c1 0x3f * 2 ^ 6)) (bit_and c2 0x3f)
    else b'?'

-- The `else` branch of `WriteString`, on what follows `c0`. `value[value.size()]` is 0; the byte
-- behind it is out of bounds. After either the loop ends, so the rest is empty.
unfoldable pub continuation : ℕ → List ℕ → Result (ℕ × List ℕ)
continuation c0 [] =
    if leb 0xc2 c0 && leb c0 0xdf then ok (two_byte_unit c0 0, []) else err Error.past_terminator
continuation c0 (c1 ∷ []) =
    if leb 0xc2 c0 && leb c0 0xdf
    then ok (two_byte_unit c0 c1, [])
    else ok (three_byte_unit c0 c1 0, [])
continuation c0 (c1 ∷ c2 ∷ value) =
    if leb 0xc2 c0 && leb c0 0xdf
    then ok (two_byte_unit c0 c1, c2 ∷ value)
    else ok (three_byte_unit c0 c1 c2, value)

-- One round of the loop of `WriteString`: the unit, and the bytes that are left.
unfoldable pub next_unit : ℕ → List ℕ → Result (ℕ × List ℕ)
next_unit c0 value =
    if (c0 == 0xc0) || (c0 == 0xc1) || leb 0xf5 c0
    then ok (b'?', value)
    else if ltb c0 0x80
    then ok (c0, value)
    else continuation c0 value

-- `for(size_t i = 0, p = 0; i < len && p < value.size(); ++i)`; the first argument is `len - i`.
unfoldable pub write_units : ℕ → List ℕ → Writer
write_units zero value out = ok out
write_units (suc len) [] out = ok out
write_units (suc len) (c0 ∷ value) out = elim (next_unit c0 value) [
  | ok (uni, rest) ↦ (do write16 uni; write_units len rest) out
  | err e ↦ err e
]

unfoldable pub write_string : List ℕ → Writer
write_string [] = write8 0
write_string (c ∷ cs) =
    let value = c ∷ cs in
    let len = 1 + utf8_length value in
    if ltb 255 len
    then (λ out. err Error.string_too_big)
    else (do write8 len; write_units len value; write16 0)

module _ {A : Type 0} (element : A → Writer) where
  unfoldable pub write_elements : List A → Writer
  write_elements [] = nothing
  write_elements (el ∷ array) = do element el; write_elements array

  unfoldable pub write_array : List A → Writer
  write_array array = do write32 (length array); write_elements array
