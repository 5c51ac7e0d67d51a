-- ===== src/Base/Tests.antt =====
-- Boolean tests on native numbers, the conditional, and casts to the fixed widths.
use Prim.Native.Nat.{ℕ, ◌%◌, ◌^◌, ◌≤◌, ◌<◌, compare, Ordering}
use mathlib.Core.Path.{◌≡◌, refl}
use mathlib.Core.Logic.{◌↔◌, ◌⊎◌, inl, inr}
use mathlib.Core.Bool.{Bool, true, false}
use mathlib.Core.Option.{Option, none, some}
use native.Mathlib.Omega.{arith}

abbrev pub ltb : ℕ → ℕ → Bool
ltb a b = elim (compare a b) [ Ordering.lt ↦ true | _ ↦ false ]

abbrev pub leb : ℕ → ℕ → Bool
leb a b = elim (compare a b) [ Ordering.gt ↦ false | _ ↦ true ]

infix 50 ◌==◌
abbrev pub ◌==◌ : ℕ → ℕ → Bool
a == b = elim (compare a b) [ Ordering.eq ↦ true | _ ↦ false ]

infix 1 if◌then◌else◌
abbrev pub if◌then◌else◌ {ℓ} : {A : Type ℓ} → Bool → A → A → A
if true then x else y = x
if false then x else y = y

pub ==_iff : (a b : ℕ) → ((a == b) ≡ true) ↔ (a ≡ b)
==_iff a b = ground arith

pub eq→== : (a b : ℕ) → a ≡ b → (a == b) ≡ true
eq→== a b e = ground arith

pub ne→== : (a b : ℕ) → ¬ (a ≡ b) → (a == b) ≡ false
ne→== a b e = ground arith

pub lt→ltb : (a b : ℕ) → a < b → ltb a b ≡ true
lt→ltb a b h = ground arith

pub le→ltb : (a b : ℕ) → b ≤ a → ltb a b ≡ false
le→ltb a b h = ground arith

pub le→leb : (a b : ℕ) → a ≤ b → leb a b ≡ true
le→leb a b h = ground arith

pub lt→leb : (a b : ℕ) → b < a → leb a b ≡ false
lt→leb a b h = ground arith

pub Bool-cases : (b : Bool) → (b ≡ true) ⊎ (b ≡ false)
Bool-cases true = inl refl
Bool-cases false = inr refl

pub Option-cases {ℓ} : {A : Type ℓ} (o : Option A) → (o ≡ none) ⊎ ((a : A) × (o ≡ some a))
Option-cases none = inl refl
Option-cases (some a) = inr (a, refl)

-- The fixed widths of mtp/types.h: a value of the type, and a cast to it.
abbrev pub IsU8 : ℕ → Type 0
IsU8 n = n < 256

abbrev pub IsU16 : ℕ → Type 0
IsU16 n = n < 65536

abbrev pub IsU32 : ℕ → Type 0
IsU32 n = n < 2 ^ 32

abbrev pub IsU64 : ℕ → Type 0
IsU64 n = n < 2 ^ 64

abbrev pub u8 : ℕ → ℕ
u8 n = n % 256

abbrev pub u16 : ℕ → ℕ
u16 n = n % 65536

abbrev pub u32 : ℕ → ℕ
u32 n = n % 2 ^ 32
