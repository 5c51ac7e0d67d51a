-- ===== src/Session/Integers.antt =====
-- The integers that `SetObjectProperty` sends are the ones that `ReadSingleInteger` reads.
use zune_sync.Base.{
  ltb, lt→ltb, le→ltb, if◌then◌else◌, ℕ, zero, suc, ◌-◌, ◌/◌, ◌%◌, ◌^◌, ◌≤◌, ◌<◌, ◌≡◌, refl, sym,
  ap, ne→==, le→leb, lt→leb, List, [], ◌∷◌, ◌++◌, length, take, replicate, ok, arith, IsU64,
}
use zune_sync.Stream.Input.{read32, read64, read_single_integer}
use zune_sync.Stream.Codec.{le32, le64, run-Decodes, read32-Decodes, read64-Decodes}
use zune_sync.Session.Properties.{significant_bytes, integer_bytes}
use native.Mathlib.Decide.{dec_lt}

-- The `n` low bytes of a number.
low_bytes : ℕ → ℕ → List ℕ
low_bytes zero value = []
low_bytes (suc n) value = (value % 256) ∷ low_bytes n (value / 256)

low_bytes-zero : (n : ℕ) → low_bytes n 0 ≡ replicate n 0
unfolding low_bytes
low_bytes-zero zero = refl
low_bytes-zero (suc n) = ap (λ xs. 0 ∷ xs) (low_bytes-zero n)

sub_zero : (n : ℕ) → n - 0 ≡ n
sub_zero n = omega arith

sub_suc : (n k : ℕ) → suc n - suc k ≡ n - k
sub_suc n k = omega arith

significant_bytes-padded :
    (n value : ℕ)
    → significant_bytes n value ++ replicate (n - length (significant_bytes n value)) 0
      ≡ low_bytes n value
unfolding significant_bytes low_bytes
significant_bytes-padded zero value = refl
significant_bytes-padded (suc n) zero = rw (sub_zero (suc n)) (sym (low_bytes-zero (suc n)))
significant_bytes-padded (suc n) (suc v) =
    rw (ne→== (suc v) 0 (omega arith), sub_suc n _)
      (ap (λ xs. (suc v % 256) ∷ xs) (significant_bytes-padded n (suc v / 256)))

significant_bytes-zero : (n : ℕ) → significant_bytes n 0 ≡ []
unfolding significant_bytes
significant_bytes-zero zero = refl
significant_bytes-zero (suc n) = refl

length-significant_bytes :
    (n value : ℕ)
    → length (significant_bytes (suc n) value) ≤ suc (length (significant_bytes n (value / 256)))
unfolding significant_bytes
length-significant_bytes n zero = omega arith
length-significant_bytes n (suc v) = rw (ne→== (suc v) 0 (omega arith)) (omega arith)

length-significant_bytes_more :
    (n value : ℕ)
    → 1 ≤ value
    → length (significant_bytes (suc n) value) ≡ suc (length (significant_bytes n (value / 256)))
unfolding significant_bytes
length-significant_bytes_more n zero h = absurd (omega arith)
length-significant_bytes_more n (suc v) h = rw (ne→== (suc v) 0 (omega arith))

-- Four bytes are enough exactly below 2^32.
length-significant_bytes_low : (value : ℕ) → value < 2 ^ 32 → length (significant_bytes 8 value) ≤ 4
length-significant_bytes_low value h =
    let done : value / 256 / 256 / 256 / 256 ≡ 0 = omega arith in
    let last : length (significant_bytes 4 (value / 256 / 256 / 256 / 256)) ≡ 0 =
      rw (done) (ap length (significant_bytes-zero 4)) in
    omega (
      arith,
      last,
      length-significant_bytes 7 value,
      length-significant_bytes 6 (value / 256),
      length-significant_bytes 5 (value / 256 / 256),
      length-significant_bytes 4 (value / 256 / 256 / 256),
    )

length-significant_bytes_high :
    (value : ℕ) → 2 ^ 32 ≤ value → 4 < length (significant_bytes 8 value)
length-significant_bytes_high value h = omega (
  arith,
  length-significant_bytes_more 7 value (omega arith),
  length-significant_bytes_more 6 (value / 256) (omega arith),
  length-significant_bytes_more 5 (value / 256 / 256) (omega arith),
  length-significant_bytes_more 4 (value / 256 / 256 / 256) (omega arith),
  length-significant_bytes_more 3 (value / 256 / 256 / 256 / 256) (omega arith),
)

same_cons : {x y : ℕ} {xs ys : List ℕ} → x ≡ y → xs ≡ ys → (x ∷ xs) ≡ (y ∷ ys)
same_cons e f = rw (e, f)

low_bytes-le32 : (value : ℕ) → value < 2 ^ 32 → take 4 (low_bytes 8 value) ≡ le32 value
unfolding low_bytes le32
low_bytes-le32 value h =
    same_cons (omega arith)
      (same_cons (omega arith) (same_cons (omega arith) (same_cons (omega arith) refl)))

low_bytes-le64 : (value : ℕ) → IsU64 value → take 8 (low_bytes 8 value) ≡ le64 value
unfolding low_bytes le64 le32
low_bytes-le64 value h = same_cons (omega arith) (
    same_cons (omega arith) (
      same_cons (omega arith) (
        same_cons (omega arith) (
          same_cons (omega arith)
            (same_cons (omega arith) (same_cons (omega arith) (same_cons (omega arith) refl)))))))

-- The bytes that `SetObjectProperty` sends for a u64 are four below 2^32 and eight from there on, and are
-- read by `ReadSingleInteger` as that number.
pub read_single_integer-integer_bytes :
    (value : ℕ)
    → IsU64 value
    → (length (integer_bytes value) ≡ (if ltb value (2 ^ 32) then 4 else 8))
      × (read_single_integer (integer_bytes value) ≡ ok value)
unfolding read_single_integer integer_bytes le32 read32 le64 read64
read_single_integer-integer_bytes value h = elim (dec_lt value (2 ^ 32)) [
  | yes low ↦
      rw
        (
          le→leb _ _ (length-significant_bytes_low value low),
          significant_bytes-padded 8 value,
          low_bytes-le32 value low,
          lt→ltb value (2 ^ 32) low,
        )
        (refl, run-Decodes read32 value (le32 value) (read32-Decodes value low))
  | no high ↦
      rw
        (
          lt→leb _ _ (length-significant_bytes_high value (omega arith)),
          significant_bytes-padded 8 value,
          low_bytes-le64 value h,
          le→ltb value (2 ^ 32) (omega arith),
        )
        (refl, run-Decodes read64 value (le64 value) (read64-Decodes value h))
]
