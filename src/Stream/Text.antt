-- ===== src/Stream/Text.antt =====
-- The round trip of `WriteString` and `ReadString`, over lists of UTF-16 units.
use zune_sync.Base.{
  ℕ, zero, suc, ◌+◌, ◌*◌, ◌/◌, ◌%◌, ◌≤◌, ◌<◌, ◌≡◌, ◌⊎◌, inl, inr, refl, ap, ◌∙◌, List, [], ◌∷◌,
  ◌++◌, append_assoc, length, All, arith, ok, le→ltb, true, false,
}
use zune_sync.Base.Bits.{
  mask_80, mask_c0, mask_1f, mask_0f, mask_3f, mask_0fc0, set_c0, set_e0, set_80, bit_or_high_low,
}
use zune_sync.Stream.Input.{read8, read16, unit_bytes, read_units, read_string}
use zune_sync.Stream.Output
use zune_sync.Stream.Output.{
  nothing, write8, write16, is_leading, utf8_length, two_byte_unit, three_byte_unit, continuation,
  next_unit, write_units, write_string,
}
use zune_sync.Stream.Codec.{
  Decodes, Encodes, Decodes-return, Decodes-bind, Decodes-map, Encodes-then, le16, le8,
  write8-Encodes, write16-Encodes, then_ok, read8-Decodes_byte, read16-Decodes,
}
use mathlib.Core.List.{append-nil}
use native.Mathlib.Nat.{add_comm}

-- A UTF-16 unit other than the terminator.
abbrev pub IsUnit : ℕ → Type 0
IsUnit u = (0 < u) × (u < 65536)

-- The bytes of a unit, in plain arithmetic.
pub unit_bytes_one : (u : ℕ) → 0 < u → u < 128 → unit_bytes u ≡ u ∷ []
unfolding unit_bytes
unit_bytes_one u p h = ground arith

pub unit_bytes_two :
    (u : ℕ) → 128 ≤ u → u < 2048 → unit_bytes u ≡ (u / 64 + 192) ∷ (u % 64 + 128) ∷ []
unfolding unit_bytes
unit_bytes_two u p h =
    ground (arith, set_c0 (u / 64) (omega arith), mask_3f u, set_80 (u % 64) (omega arith))

pub unit_bytes_three :
    (u : ℕ)
    → 2048 ≤ u
    → u < 65536
    → unit_bytes u ≡ (u / 4096 + 224) ∷ (u / 64 % 64 + 128) ∷ (u % 64 + 128) ∷ []
unfolding unit_bytes
unit_bytes_three u p h = ground (
  arith,
  set_e0 (u / 4096) (omega arith),
  mask_3f u,
  mask_0fc0 u,
  set_80 (u % 64) (omega arith),
  set_80 (u / 64 % 64) (omega arith),
)

-- `WriteString` finds each unit again.
next_unit_one : (u : ℕ) (value : List ℕ) → u < 128 → next_unit u value ≡ ok (u, value)
unfolding next_unit
next_unit_one u value h = ground arith

two_bytes : (u : ℕ) → u < 2048 → two_byte_unit (u / 64 + 192) (u % 64 + 128) ≡ u
unfolding two_byte_unit
two_bytes u h = ground (
  arith,
  mask_1f (u / 64 + 192) (omega arith),
  mask_3f (u % 64 + 128),
  bit_or_high_low 6 (u / 64) (u % 64) (omega arith),
)

three_bytes :
    (u : ℕ) → u < 65536 → three_byte_unit (u / 4096 + 224) (u / 64 % 64 + 128) (u % 64 + 128) ≡ u
unfolding three_byte_unit
three_bytes u h = ground (
  arith,
  mask_0f (u / 4096 + 224) (omega arith),
  mask_3f (u / 64 % 64 + 128),
  mask_3f (u % 64 + 128),
  bit_or_high_low 12 (u / 4096) (u / 64 % 64 * 64) (omega arith),
  bit_or_high_low 6 (u / 4096 * 64 + u / 64 % 64) (u % 64) (omega arith),
)

next_unit_two :
    (u : ℕ) (value : List ℕ)
    → 128 ≤ u
    → u < 2048
    → next_unit (u / 64 + 192) ((u % 64 + 128) ∷ value) ≡ ok (u, value)
unfolding next_unit continuation
next_unit_two u [] p h = ground (arith, two_bytes u h)
next_unit_two u (c ∷ value) p h = ground (arith, two_bytes u h)

next_unit_three :
    (u : ℕ) (value : List ℕ)
    → 2048 ≤ u
    → u < 65536
    → next_unit (u / 4096 + 224) ((u / 64 % 64 + 128) ∷ (u % 64 + 128) ∷ value) ≡ ok (u, value)
unfolding next_unit continuation
next_unit_three u value p h = ground (arith, three_bytes u h)

-- The text of a list of units, and its bytes on the wire.
unfoldable pub utf8 : List ℕ → List ℕ
utf8 [] = []
utf8 (u ∷ us) = unit_bytes u ++ utf8 us

pub units_bytes : List ℕ → List ℕ
units_bytes [] = []
units_bytes (u ∷ us) = le16 u ++ units_bytes us

unit_range : (u : ℕ) → IsUnit u → (u < 128) ⊎ (((128 ≤ u) × (u < 2048)) ⊎ (2048 ≤ u))
unit_range u h = grind arith

leading_one : (c : ℕ) → c < 128 → is_leading c ≡ true
unfolding is_leading
leading_one c h = ground (arith, mask_80 c (omega arith))

leading_many : (c : ℕ) → 192 ≤ c → c < 256 → is_leading c ≡ true
unfolding is_leading
leading_many c h k = ground (arith, mask_80 c k, mask_c0 c k)

trailing : (c : ℕ) → 128 ≤ c → c < 192 → is_leading c ≡ false
unfolding is_leading
trailing c h k = ground (arith, mask_80 c (omega arith), mask_c0 c (omega arith))

-- One unit, whatever its length: one round of the writer, and one more in the count.
record Round (u : ℕ) (value : List ℕ) : Type 0 where
  lead : ℕ
  after : List ℕ
  shape : unit_bytes u ≡ lead ∷ after
  found : next_unit lead (after ++ value) ≡ ok (u, value)
  counted : utf8_length (lead ∷ (after ++ value)) ≡ 1 + utf8_length value

unit-Round : (u : ℕ) (value : List ℕ) → IsUnit u → Round u value
unfolding utf8_length
unit-Round u value h = elim (unit_range u h) [
  | inl a ↦ record {
    lead = u;
    after = [];
    shape = unit_bytes_one u h.0 a;
    found = next_unit_one u value a;
    counted = rw (leading_one u a);
  }
  | inr (inl b) ↦ record {
    lead = u / 64 + 192;
    after = (u % 64 + 128) ∷ [];
    shape = unit_bytes_two u b.0 b.1;
    found = next_unit_two u value b.0 b.1;
    counted =
        rw
          (
            leading_many (u / 64 + 192) (omega arith) (omega arith),
            trailing (u % 64 + 128) (omega arith) (omega arith),
          )
          (omega arith);
  }
  | inr (inr c) ↦ record {
    lead = u / 4096 + 224;
    after = (u / 64 % 64 + 128) ∷ (u % 64 + 128) ∷ [];
    shape = unit_bytes_three u c h.1;
    found = next_unit_three u value c h.1;
    counted =
        rw
          (
            leading_many (u / 4096 + 224) (omega arith) (omega arith),
            trailing (u / 64 % 64 + 128) (omega arith) (omega arith),
            trailing (u % 64 + 128) (omega arith) (omega arith),
          )
          (omega arith);
  }
]

pub utf8_length-utf8 : (us : List ℕ) → All IsUnit us → utf8_length (utf8 us) ≡ length us
unfolding utf8
utf8_length-utf8 [] h = unfold utf8_length in refl
utf8_length-utf8 (u ∷ us) h =
    let r = unit-Round u (utf8 us) h.0 in
    rw (r.shape) (r.counted ∙ omega (arith, utf8_length-utf8 us h.1))

write_units_step :
    (len c : ℕ) (value out : List ℕ) {u : ℕ} {rest : List ℕ}
    → next_unit c value ≡ ok (u, rest)
    → write_units (suc len) (c ∷ value) out ≡ Output.◌>>◌ (write16 u) (write_units len rest) out
unfolding write_units
write_units_step len c value out e = rw (e, write_units)

-- The units of `us`, and then whatever the loop does on the rest.
pub write_units-utf8 :
    (us rest : List ℕ) (len : ℕ) (out : List ℕ)
    → All IsUnit us
    → write_units (length us + len) (utf8 us ++ rest) out
      ≡ write_units len rest (out ++ units_bytes us)
unfolding utf8 units_bytes
write_units-utf8 [] rest len out h = let e : 0 + len ≡ len = omega arith in rw (e, append-nil)
write_units-utf8 (u ∷ us) rest len out h =
    let r = unit-Round u (utf8 us ++ rest) h.0 in
    let n : suc (length us) + len ≡ suc (length us + len) = omega arith in
    rw (n, r.shape, append_assoc r.after (utf8 us) rest)
      (write_units_step (length us + len) r.lead (r.after ++ (utf8 us ++ rest)) out r.found
        ∙ then_ok (write16 u) (write_units (length us + len) (utf8 us ++ rest)) out
            (write16-Encodes u out)
        ∙ write_units-utf8 us rest len (out ++ le16 u) h.1
        ∙ ap (write_units len rest) (append_assoc out (le16 u) (units_bytes us)))

write_units-nil : (len : ℕ) (out : List ℕ) → write_units len [] out ≡ ok out
unfolding write_units
write_units-nil zero out = refl
write_units-nil (suc len) out = refl

write_units-Encodes :
    (us : List ℕ) → All IsUnit us → Encodes (write_units (length us + 1) (utf8 us)) (units_bytes us)
write_units-Encodes us h out =
    rw (append-nil) at (write_units-utf8 us [] 1 out h) ∙ write_units-nil 1 (out ++ units_bytes us)

read_units-Decodes :
    (us : List ℕ)
    → All IsUnit us
    → Decodes (read_units (suc (length us))) (utf8 us) (units_bytes us ++ le16 0)
unfolding utf8 units_bytes read_units
read_units-Decodes [] h =
    unfold unit_bytes in
    Decodes-bind read16 _ 0 (le16 0) [] (read16-Decodes 0 (omega arith)) (Decodes-return [])
read_units-Decodes (u ∷ us) h =
    Decodes-bind read16 _ u (le16 u) (units_bytes us ++ le16 0) (read16-Decodes u h.0.1) (
      Decodes-map (read_units (suc (length us))) (λ str. unit_bytes u ++ str) (utf8 us) _
        (read_units-Decodes us h.1))

-- What stands for a string in a message: its length with the terminator, the units, the terminator.
unfoldable pub text_bytes : List ℕ → List ℕ
text_bytes [] = 0 ∷ []
text_bytes (u ∷ us) = suc (length (u ∷ us)) ∷ (units_bytes (u ∷ us) ++ le16 0)

-- A text that a message can hold: no terminator inside, and at most 254 units.
pub record IsText (us : List ℕ) : Type 0 where
  pub units : All IsUnit us
  pub short : length us ≤ 254

write_nonempty-Encodes :
    (c n : ℕ) (cs bytes : List ℕ)
    → utf8_length (c ∷ cs) ≡ n
    → n ≤ 254
    → Encodes (write_units (1 + n) (c ∷ cs)) bytes
    → Encodes (write_string (c ∷ cs)) ((1 + n) ∷ (bytes ++ le16 0))
unfolding write_string
write_nonempty-Encodes c n cs bytes counted short units out =
    let len : (1 + n) % 256 ≡ 1 + n = omega arith in
    rw (counted, le→ltb 255 (1 + n) (omega arith))
      (rw (len) at (
        Encodes-then (write8 (1 + n)) _ (le8 (1 + n)) (bytes ++ le16 0) (write8-Encodes (1 + n))
          (Encodes-then (write_units (1 + n) (c ∷ cs)) (write16 0) bytes (le16 0) units
            (write16-Encodes 0))
          out))

pub write_string-Encodes :
    (us : List ℕ) → IsText us → Encodes (write_string (utf8 us)) (text_bytes us)
unfolding utf8 text_bytes
write_string-Encodes [] t = unfold write_string in write8-Encodes 0
write_string-Encodes (u ∷ us) t =
    let r = unit-Round u (utf8 us) t.units.0 in
    let n : 1 + suc (length us) ≡ suc (suc (length us)) = omega arith in
    rw (r.shape, ← n)
      (write_nonempty-Encodes r.lead (suc (length us)) (r.after ++ utf8 us) (units_bytes (u ∷ us))
        (rw (r.shape) at (utf8_length-utf8 (u ∷ us) t.units)) t.short
        (rw (r.shape, add_comm) at (write_units-Encodes (u ∷ us) t.units)))

pub read_string-Decodes : (us : List ℕ) → IsText us → Decodes read_string (utf8 us) (text_bytes us)
unfolding read_string text_bytes
read_string-Decodes [] t =
    unfold utf8 read_units in
    Decodes-bind read8 read_units 0 (0 ∷ []) [] (read8-Decodes_byte 0) (Decodes-return [])
read_string-Decodes (u ∷ us) t =
    Decodes-bind read8 read_units (suc (length (u ∷ us))) (suc (length (u ∷ us)) ∷ [])
      (units_bytes (u ∷ us) ++ le16 0) (read8-Decodes_byte (suc (length (u ∷ us))))
      (read_units-Decodes (u ∷ us) t.units)
