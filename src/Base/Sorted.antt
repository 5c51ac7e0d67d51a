-- ===== src/Base/Sorted.antt =====
-- `std::map` and `std::set` as the list of their entries, in the order of the keys.
use Prim.Native.Nat.{ℕ}
use mathlib.Core.Path.{◌≡◌, refl, sym, ap, ◌∙◌}
use mathlib.Core.Logic.{◌≢◌, inl, inr}
use mathlib.Core.Bool.{Bool, true, false}
use mathlib.Core.Option.{none, some}
use mathlib.Core.List.{List, [], ◌∷◌}
use native.Mathlib.Omega.{arith}
use zune_sync.Base.Tests.{ltb, ◌==◌, if◌then◌else◌, Bool-cases, Option-cases, eq→==, ==_iff}
use zune_sync.Base.Dict.{equal_bytes, equal_bytes_refl, equal_bytes_sound, find}

-- `<` on `std::string`.
unfoldable pub less_bytes : List ℕ → List ℕ → Bool
less_bytes [] [] = false
less_bytes [] (y ∷ ys) = true
less_bytes (x ∷ xs) [] = false
less_bytes (x ∷ xs) (y ∷ ys) =
    let rest = less_bytes xs ys in if ltb x y then true else if ltb y x then false else rest

-- `==` and `<` on the keys of a map.
pub record Key (K : Type 0) : Type 0 where
  pub same : K → K → Bool
  pub less : K → K → Bool
  pub same_refl : (k : K) → same k k ≡ true
  pub same_sound : (j k : K) → same j k ≡ true → j ≡ k

abbrev pub number_key : Key ℕ
number_key = record {
  same = ◌==◌;
  less = ltb;
  same_refl = λ k. eq→== k k refl;
  same_sound = λ j k e. (==_iff j k).0 e;
}

abbrev pub name_key : Key (List ℕ)
name_key = record {
  same = equal_bytes;
  less = less_bytes;
  same_refl = equal_bytes_refl;
  same_sound = equal_bytes_sound;
}

pub differ : {K : Type 0} (key : Key K) (j k : K) → j ≢ k → key.same j k ≡ false
differ key j k n = elim (Bool-cases (key.same j k)) [
  | inl e ↦ absurd (n (key.same_sound j k e))
  | inr e ↦ e
]

module _ {K V : Type 0} (key : Key K) where
  -- before the first greater key
  unfoldable pub place : K → V → List (K × V) → List (K × V)
  place k v [] = (k, v) ∷ []
  place k v (entry ∷ entries) =
      let rest = place k v entries in
      if key.less k entry.0 then (k, v) ∷ (entry ∷ entries) else entry ∷ rest

  -- `emplace` and `insert`, which leave an entry that is there.
  unfoldable pub emplace : K → V → List (K × V) → List (K × V)
  emplace k v entries = elim (find key.same k entries) [
    | none ↦ place k v entries
    | some _ ↦ entries
  ]

  -- `erase(key)`
  unfoldable pub erase : K → List (K × V) → List (K × V)
  erase k [] = []
  erase k (entry ∷ entries) =
      let rest = erase k entries in if key.same k entry.0 then rest else entry ∷ rest

  -- `map[key] = value`
  unfoldable pub assign : K → V → List (K × V) → List (K × V)
  assign k v entries = place k v (erase k entries)

  pub find-erase : (k : K) (entries : List (K × V)) → find key.same k (erase k entries) ≡ none
  unfolding find erase
  find-erase k [] = refl
  find-erase k (entry ∷ entries) = elim (Bool-cases (key.same k entry.0)) [
    | inl e ↦ rw (e) (find-erase k entries)
    | inr e ↦ rw (e, e) (find-erase k entries)
  ]

  pub find-erase_ne :
      (j k : K) (entries : List (K × V))
      → key.same j k ≡ false
      → find key.same j (erase k entries) ≡ find key.same j entries
  unfolding find erase
  find-erase_ne j k [] h = refl
  find-erase_ne j k (entry ∷ entries) h = elim (Bool-cases (key.same k entry.0)) [
    | inl e ↦
        let other : key.same j entry.0 ≡ false =
          ap (λ x. key.same j x) (sym (key.same_sound k entry.0 e)) ∙ h in
        rw (e, other) (find-erase_ne j k entries h)
    | inr e ↦
        rw (e)
          (ap (λ o. if key.same j entry.0 then some entry.1 else o) (find-erase_ne j k entries h))
  ]

  find-place :
      (k : K) (v : V) (entries : List (K × V))
      → find key.same k entries ≡ none
      → find key.same k (place k v entries) ≡ some v
  unfolding find place
  find-place k v [] h = rw (key.same_refl k)
  find-place k v (entry ∷ entries) h = elim (Bool-cases (key.same k entry.0)) [
    | inl e ↦ absurd (grind (arith, h, e))
    | inr e ↦ elim (Bool-cases (key.less k entry.0)) [
      | inl f ↦ rw (f, key.same_refl k)
      | inr f ↦ rw (f, e) (find-place k v entries (rw (e) at h))
    ]
  ]

  find-place_ne :
      (j k : K) (v : V) (entries : List (K × V))
      → key.same j k ≡ false
      → find key.same j (place k v entries) ≡ find key.same j entries
  unfolding find place
  find-place_ne j k v [] h = rw (h)
  find-place_ne j k v (entry ∷ entries) h = elim (Bool-cases (key.less k entry.0)) [
    | inl f ↦ rw (f, h)
    | inr f ↦
        rw (f)
          (ap (λ o. if key.same j entry.0 then some entry.1 else o) (find-place_ne j k v entries h))
  ]

  -- A key that was assigned is found with its value.
  pub find-assign :
      (k : K) (v : V) (entries : List (K × V)) → find key.same k (assign k v entries) ≡ some v
  unfolding assign
  find-assign k v entries = find-place k v (erase k entries) (find-erase k entries)

  -- An entry is there after `emplace`, whether it is new or not.
  pub find-emplace :
      (k : K) (v : V) (entries : List (K × V))
      → find key.same k entries ≡ none
      → find key.same k (emplace k v entries) ≡ some v
  unfolding emplace
  find-emplace k v entries h = rw (emplace, h) (find-place k v entries h)

  pub find-emplace_ne :
      (j k : K) (v : V) (entries : List (K × V))
      → key.same j k ≡ false
      → find key.same j (emplace k v entries) ≡ find key.same j entries
  unfolding emplace
  find-emplace_ne j k v entries h = elim (Option-cases (find key.same k entries)) [
    | inl e ↦ rw (emplace, e) (find-place_ne j k v entries h)
    | inr (x, e) ↦ rw (emplace, e) refl
  ]

-- `std::set<u32>`, as a map of no values.
unfoldable pub set_of : List ℕ → List (ℕ × Unit {0})
set_of [] = []
set_of (x ∷ xs) = emplace number_key x tt (set_of xs)
