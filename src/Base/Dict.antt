-- ===== src/Base/Dict.antt =====
-- `std::string` equality, and `std::unordered_map` as a list of its entries.
use Prim.Native.Nat.{ℕ}
use mathlib.Core.Path.{◌≡◌, refl, ◌∙◌}
use mathlib.Core.Logic.{inl, inr}
use mathlib.Core.Bool.{Bool, true, false, ◌&&◌}
use mathlib.Core.Option.{Option, none, some}
use mathlib.Core.List.{List, [], ◌∷◌, ◌++◌}
use native.Mathlib.Omega.{arith}
use zune_sync.Base.Tests.{◌==◌, if◌then◌else◌, Bool-cases, Option-cases}

unfoldable pub equal_bytes : List ℕ → List ℕ → Bool
equal_bytes [] [] = true
equal_bytes [] (y ∷ ys) = false
equal_bytes (x ∷ xs) [] = false
equal_bytes (x ∷ xs) (y ∷ ys) = (x == y) && equal_bytes xs ys

pub equal_bytes_refl : (xs : List ℕ) → equal_bytes xs xs ≡ true
unfolding equal_bytes
equal_bytes_refl [] = refl
equal_bytes_refl (x ∷ xs) = ground (arith, equal_bytes_refl xs)

pub equal_bytes_sound : (xs ys : List ℕ) → equal_bytes xs ys ≡ true → xs ≡ ys
unfolding equal_bytes
equal_bytes_sound [] [] h = refl
equal_bytes_sound [] (y ∷ ys) h = absurd (ground arith)
equal_bytes_sound (x ∷ xs) [] h = absurd (ground arith)
equal_bytes_sound (x ∷ xs) (y ∷ ys) h = ground (arith, equal_bytes_sound xs ys)

module _ {K V : Type 0} (same : K → K → Bool) where
  -- `find`
  unfoldable pub find : K → List (K × V) → Option V
  find k [] = none
  find k (entry ∷ entries) =
      let rest = find k entries in if same k entry.0 then some entry.1 else rest

  -- `insert`, which leaves an entry that is there.
  unfoldable pub insert : K → V → List (K × V) → List (K × V)
  insert k v entries = elim (find k entries) [ none ↦ entries ++ ((k, v) ∷ []) | some _ ↦ entries ]

  find-append :
      (j k : K) (v : V) (entries : List (K × V))
      → find j entries ≡ none
      → find j (entries ++ ((k, v) ∷ [])) ≡ (if same j k then some v else none)
  unfolding find
  find-append j k v [] h = refl
  find-append j k v (entry ∷ entries) h = elim (Bool-cases (same j entry.0)) [
    | inl e ↦ absurd (grind (arith, h, e))
    | inr e ↦ rw (e) (find-append j k v entries (rw (e) at h))
  ]

  find-append_some :
      (j k : K) (v w : V) (entries : List (K × V))
      → find j entries ≡ some w
      → find j (entries ++ ((k, v) ∷ [])) ≡ some w
  unfolding find
  find-append_some j k v w [] h = absurd (ground arith)
  find-append_some j k v w (entry ∷ entries) h = elim (Bool-cases (same j entry.0)) [
    | inl e ↦ rw (e) (rw (e) at h)
    | inr e ↦ rw (e) (find-append_some j k v w entries (rw (e) at h))
  ]

  -- A new key is found with its value.
  pub find-insert_new :
      (k : K) (v : V) (entries : List (K × V))
      → same k k ≡ true
      → find k entries ≡ none
      → find k (insert k v entries) ≡ some v
  unfolding insert
  find-insert_new k v entries r h = rw (insert, h) (find-append k k v entries h ∙ rw (r))

  -- An old entry stays as it was.
  find-insert_old :
      (j k : K) (v w : V) (entries : List (K × V))
      → find j entries ≡ some w
      → find j (insert k v entries) ≡ some w
  unfolding insert
  find-insert_old j k v w entries h = elim (Option-cases (find k entries)) [
    | inl e ↦ rw (insert, e) (find-append_some j k v w entries h)
    | inr (x, e) ↦ rw (insert, e) h
  ]
