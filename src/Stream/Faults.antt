-- ===== src/Stream/Faults.antt =====
-- Where the encoder of mtp/ptp/OutputStream.h does not write what the decoder reads back.
use zune_sync.Base.{
  ℕ, suc, ◌+◌, ◌*◌, ◌/◌, ◌%◌, ◌^◌, ◌≤◌, ◌<◌, ◌≡◌, ◌↔◌, true, false, ap, ◌∙◌, List, [], ◌∷◌, ◌++◌,
  length, All, arith, IsU64, ok, err, le→ltb, Error,
}
use zune_sync.Base.Bits.{mask_80, mask_c0}
use zune_sync.Stream.Input.{run, read64}
use zune_sync.Stream.Output
use zune_sync.Stream.Output.{
  Writer, write8, write16, write32, write64, is_leading, utf8_length, three_byte_unit, continuation,
  next_unit, write_units, write_string,
}
use zune_sync.Stream.Codec.{
  Encodes-then, run-Decodes, le8, le32, then_ok, write8-Encodes, write32-Encodes, read64-halves,
}
use zune_sync.Stream.Characters.{characters_bytes, utf8-characters}
use zune_sync.Stream.Text.{IsUnit, utf8, write_units-utf8, utf8_length-utf8}

-- Of a u64, `Write64` writes the lower half and then this half shifted by 16, so `Read64` gets the
-- value back exactly when its upper half equals the upper 16 bits of its lower half.
pub read64-write64 :
    (v : ℕ)
    → IsU64 v
    → (bytes : List ℕ) × (write64 v [] ≡ ok bytes)
      × ((run read64 bytes ≡ ok v) ↔ (v / 2 ^ 32 ≡ v % 2 ^ 32 / 2 ^ 16))
unfolding write64
read64-write64 v h = (
  le32 (v % 2 ^ 32) ++ le32 (v % 2 ^ 32 / 2 ^ 16),
  Encodes-then (write32 (v % 2 ^ 32)) (write32 (v % 2 ^ 32 / 2 ^ 16)) _ _
      (write32-Encodes (v % 2 ^ 32)) (write32-Encodes (v % 2 ^ 32 / 2 ^ 16)) [],
  (λ e. ground (arith, got), λ e. got ∙ ap ok (omega arith)),
)
  where
    got :
        run read64 (le32 (v % 2 ^ 32) ++ le32 (v % 2 ^ 32 / 2 ^ 16))
        ≡ ok (v % 2 ^ 32 + v % 2 ^ 32 / 2 ^ 16 * 2 ^ 32)
    got =
        run-Decodes read64 _ _
          (read64-halves (v % 2 ^ 32) (v % 2 ^ 32 / 2 ^ 16) (omega arith) (omega arith))

utf8_length-append : (xs ys : List ℕ) → utf8_length (xs ++ ys) ≡ utf8_length xs + utf8_length ys
unfolding utf8_length
utf8_length-append [] ys = omega arith
utf8_length-append (x ∷ xs) ys = omega (arith, utf8_length-append xs ys)

-- A continuation byte `10xxxxxx`.
abbrev pub IsContinuation : ℕ → Type 0
IsContinuation c = (0x80 ≤ c) × (c < 0xc0)

-- A character outside the basic plane, as UTF-8 encodes it in four bytes.
pub record IsFourBytes (c0 c1 c2 c3 : ℕ) : Type 0 where
  pub lead_low : 0xf0 ≤ c0
  pub lead_high : c0 < 0xf5
  pub second : IsContinuation c1
  pub third : IsContinuation c2
  pub fourth : IsContinuation c3

is_leading_continuation : (c : ℕ) → IsContinuation c → is_leading c ≡ false
unfolding is_leading
is_leading_continuation c h = ground (arith, mask_80 c (omega arith), mask_c0 c (omega arith))

is_leading_four : (c : ℕ) → 0xf0 ≤ c → c < 0xf5 → is_leading c ≡ true
unfolding is_leading
is_leading_four c h k = ground (arith, mask_80 c (omega arith), mask_c0 c (omega arith))

-- It is counted as one unit.
four_bytes_length :
    (c0 c1 c2 c3 : ℕ) → IsFourBytes c0 c1 c2 c3 → utf8_length (c0 ∷ c1 ∷ c2 ∷ c3 ∷ []) ≡ 1
unfolding utf8_length
four_bytes_length c0 c1 c2 c3 f = rw (
  is_leading_four c0 f.lead_low f.lead_high,
  is_leading_continuation c1 f.second,
  is_leading_continuation c2 f.third,
  is_leading_continuation c3 f.fourth,
)

-- The loop takes three of its bytes as one unit, and the fourth as the next lead byte.
four_bytes_fault :
    (c0 c1 c2 c3 : ℕ) (out : List ℕ)
    → IsFourBytes c0 c1 c2 c3
    → write_units 2 (c0 ∷ c1 ∷ c2 ∷ c3 ∷ []) out ≡ err Error.past_terminator
unfolding write_units next_unit continuation three_byte_unit write16 write8
four_bytes_fault c0 c1 c2 c3 out f = ground arith

then_err : (w v : Writer) (out : List ℕ) {e : Error} → w out ≡ err e → Output.◌>>◌ w v out ≡ err e
then_err w v out h = rw (h, Output.◌>>◌)

-- Where the loop fails, so does `WriteString`.
write_string-err :
    (value : List ℕ) (n : ℕ) (out : List ℕ) (e : Error)
    → utf8_length value ≡ suc n
    → suc n ≤ 254
    → write_units (1 + suc n) value (out ++ le8 (1 + suc n)) ≡ err e
    → write_string value out ≡ err e
unfolding write_string
write_string-err [] n out e counted short fails = absurd (unfold utf8_length in omega arith)
write_string-err (c ∷ cs) n out e counted short fails =
    rw (counted, le→ltb 255 (1 + suc n) (omega arith))
      (then_ok (write8 (1 + suc n)) _ out (write8-Encodes (1 + suc n) out)
        ∙ then_err (write_units (1 + suc n) (c ∷ cs)) (write16 0) _ fails)

-- A string of at most 253 characters, each of one to three bytes, and then one of four bytes is never
-- written: the loop of `WriteString` reads behind the end of the string.
pub write_string-four_bytes :
    (us : List ℕ) (c0 c1 c2 c3 : ℕ) (out : List ℕ)
    → All IsUnit us
    → length us ≤ 253
    → IsFourBytes c0 c1 c2 c3
    → write_string (characters_bytes us ++ (c0 ∷ c1 ∷ c2 ∷ c3 ∷ [])) out ≡ err Error.past_terminator
write_string-four_bytes us c0 c1 c2 c3 out h short f =
    let tail : List ℕ = c0 ∷ c1 ∷ c2 ∷ c3 ∷ [] in
    let counted : utf8_length (utf8 us ++ tail) ≡ suc (length us) = omega (
      arith,
      utf8_length-append (utf8 us) tail,
      utf8_length-utf8 us h,
      four_bytes_length c0 c1 c2 c3 f,
    ) in
    let rounds : 1 + suc (length us) ≡ length us + 2 = omega arith in
    rw (← utf8-characters us h) (
      write_string-err (utf8 us ++ tail) (length us) out Error.past_terminator counted (omega arith)
        (rw (rounds) (
          write_units-utf8 us tail 2 (out ++ le8 (length us + 2)) h
          ∙ four_bytes_fault c0 c1 c2 c3 _ f)))
