-- ===== src/Base/Bits.antt =====
-- `|` of disjoint fields and `&` with a mask, as arithmetic.
use Prim.Native.Nat.{
  ℕ, zero, suc, ◌+◌, ◌*◌, ◌/◌, ◌%◌, ◌^◌, ◌≤◌, ◌<◌, min, max, bit_and, bit_or, digits,
  bit_and-bitwise, bit_or-bitwise,
}
use native.Mathlib.Nat.{le_refl, pow-suc}
use native.Mathlib.Omega.{arith}
use mathlib.Core.Path.{◌≡◌, refl, ap}
use mathlib.Core.Bool.{Bool, true, ◌&&◌}
use zune_sync.Base.Tests.{◌==◌}

-- The native operations are a recursion on binary digits with fuel: more fuel changes nothing.
module _ (on_zero : ℕ → ℕ) (digit : ℕ → ℕ → ℕ) where
  digits_enough : (n a b : ℕ) → a ≤ n → digits on_zero digit n a b ≡ digits on_zero digit a a b
  digits_enough n a b h = go n a a b h (le_refl a)
    where
      go : (n m a b : ℕ) → a ≤ n → a ≤ m → digits on_zero digit n a b ≡ digits on_zero digit m a b
      go zero zero a b p q = refl
      go zero (suc m) zero b p q = refl
      go zero (suc m) (suc a) b p q = absurd (omega arith)
      go (suc n) zero zero b p q = refl
      go (suc n) zero (suc a) b p q = absurd (omega arith)
      go (suc n) (suc m) zero b p q = refl
      go (suc n) (suc m) (suc a) b p q = rw (go n m (suc a / 2) (b / 2) (omega arith) (omega arith))

pub bit_or_digit : (a b : ℕ) → bit_or a b ≡ bit_or (a / 2) (b / 2) * 2 + max (a % 2) (b % 2)
bit_or_digit zero b = simp bit_or-bitwise (omega arith)
bit_or_digit (suc a) b =
    simp bit_or-bitwise
      (omega (arith, digits_enough (λ y. y) max a (suc a / 2) (b / 2) (omega arith)))

pub bit_and_digit : (a b : ℕ) → bit_and a b ≡ bit_and (a / 2) (b / 2) * 2 + min (a % 2) (b % 2)
bit_and_digit zero b = simp bit_and-bitwise (omega arith)
bit_and_digit (suc a) b =
    simp bit_and-bitwise
      (omega (arith, digits_enough (λ y. zero) min a (suc a / 2) (b / 2) (omega arith)))

zero-bit_or : (b : ℕ) → bit_or 0 b ≡ b
zero-bit_or b = bit_or-bitwise 0 b

bit_or-zero_fuel : (fuel x : ℕ) → x ≤ fuel → bit_or x 0 ≡ x
bit_or-zero_fuel fuel zero h = refl
bit_or-zero_fuel zero (suc x) h = absurd (omega arith)
bit_or-zero_fuel (suc fuel) (suc x) h =
    omega (arith, bit_or_digit (suc x) 0, bit_or-zero_fuel fuel (suc x / 2) (omega arith))

doubled : (q k : ℕ) → q * 2 ^ suc k ≡ 2 * (q * 2 ^ k)
doubled q k = omega (arith, ap (λ (t : ℕ). q * t) (pow-suc 2 k))

-- `low | (high << k)`
pub bit_or_low_high :
    (k low high : ℕ) → low < 2 ^ k → bit_or low (high * 2 ^ k) ≡ low + high * 2 ^ k
bit_or_low_high zero low high h = ground (arith, zero-bit_or high)
bit_or_low_high (suc k) low high h = ground (
  arith,
  bit_or_digit low (high * 2 ^ suc k),
  doubled high k,
  bit_or_low_high k (low / 2) high (omega arith),
)

-- `(high << k) | low`
pub bit_or_high_low :
    (k high low : ℕ) → low < 2 ^ k → bit_or (high * 2 ^ k) low ≡ high * 2 ^ k + low
bit_or_high_low zero high low h = ground (arith, bit_or-zero_fuel high high (le_refl high))
bit_or_high_low (suc k) high low h = ground (
  arith,
  bit_or_digit (high * 2 ^ suc k) low,
  doubled high k,
  bit_or_high_low k high (low / 2) (omega arith),
)

-- Two functions agree below a bound when a run over all the values says so.
module _ (f g : ℕ → ℕ) where
  agree : ℕ → Bool
  agree zero = true
  agree (suc n) = f n == g n && agree n

  agree_sound : (n i : ℕ) → agree n ≡ true → i < n → f i ≡ g i
  unfolding agree
  agree_sound zero i e h = absurd (omega arith)
  agree_sound (suc n) i e h = ground (arith, agree_sound n i)

module _ (c : ℕ) (h : c < 256) where
  pub mask_80 : bit_and c 0x80 ≡ c / 128 * 128
  unfolding agree
  mask_80 = agree_sound (λ x. bit_and x 0x80) (λ x. x / 128 * 128) 256 c refl h

  pub mask_c0 : bit_and c 0xc0 ≡ c / 64 * 64
  unfolding agree
  mask_c0 = agree_sound (λ x. bit_and x 0xc0) (λ x. x / 64 * 64) 256 c refl h

  pub mask_1f : bit_and c 0x1f ≡ c % 32
  unfolding agree
  mask_1f = agree_sound (λ x. bit_and x 0x1f) (λ x. x % 32) 256 c refl h

  pub mask_0f : bit_and c 0x0f ≡ c % 16
  unfolding agree
  mask_0f = agree_sound (λ x. bit_and x 0x0f) (λ x. x % 16) 256 c refl h

pub set_c0 : (x : ℕ) → x < 32 → bit_or x 0xc0 ≡ x + 192
unfolding agree
set_c0 x h = agree_sound (λ x. bit_or x 0xc0) (λ x. x + 192) 32 x refl h

pub set_e0 : (x : ℕ) → x < 16 → bit_or x 0xe0 ≡ x + 224
unfolding agree
set_e0 x h = agree_sound (λ x. bit_or x 0xe0) (λ x. x + 224) 16 x refl h

pub set_80 : (x : ℕ) → x < 64 → bit_or x 0x80 ≡ x + 128
unfolding agree
set_80 x h = agree_sound (λ x. bit_or x 0x80) (λ x. x + 128) 64 x refl h

bit_and-zero_fuel : (fuel x : ℕ) → x ≤ fuel → bit_and x 0 ≡ 0
bit_and-zero_fuel fuel zero h = refl
bit_and-zero_fuel zero (suc x) h = absurd (omega arith)
bit_and-zero_fuel (suc fuel) (suc x) h =
    omega (arith, bit_and_digit (suc x) 0, bit_and-zero_fuel fuel (suc x / 2) (omega arith))

-- The masks of `ReadString` and `WriteString` on a number of any size.
pub mask_3f : (a : ℕ) → bit_and a 0x3f ≡ a % 64
mask_3f a = omega (
  arith,
  bit_and_digit a 0x3f,
  bit_and_digit (a / 2) 0x1f,
  bit_and_digit (a / 2 / 2) 0x0f,
  bit_and_digit (a / 2 / 2 / 2) 7,
  bit_and_digit (a / 2 / 2 / 2 / 2) 3,
  bit_and_digit (a / 2 / 2 / 2 / 2 / 2) 1,
  bit_and-zero_fuel _ (a / 2 / 2 / 2 / 2 / 2 / 2) (le_refl _),
)

-- `(a & 0x0fc0) >> 6`
pub mask_0fc0 : (a : ℕ) → bit_and a 0x0fc0 / 64 ≡ a / 64 % 64
mask_0fc0 a = omega (
  arith,
  bit_and_digit a 0x0fc0,
  bit_and_digit (a / 2) 0x07e0,
  bit_and_digit (a / 2 / 2) 0x03f0,
  bit_and_digit (a / 2 / 2 / 2) 0x01f8,
  bit_and_digit (a / 2 / 2 / 2 / 2) 0x00fc,
  bit_and_digit (a / 2 / 2 / 2 / 2 / 2) 0x007e,
  mask_3f (a / 2 / 2 / 2 / 2 / 2 / 2),
)
