-- ===== src/Client/Names.antt =====
-- The directory and the file name of a path, and the prefixes that completion tests.
use zune_sync.Base.{
  ℕ, suc, ◌==◌, ◌≡◌, ◌⊎◌, inl, inr, refl, sym, ap, false, Bool-cases, if◌then◌else◌, List, [], ◌∷◌,
  ◌++◌, take, drop, Option, none, some, arith,
}
use zune_sync.Messages.Object.{find_code}
use zune_sync.Client.Text.{rfind, get_filename, get_dirname}

-- Where the last `c` of `s` is.
abbrev IsLast : ℕ → List ℕ → Option ℕ → Type 0
IsLast c s none = find_code s c ≡ false
IsLast c s (some i) =
    (s ≡ take i s ++ (c ∷ drop (suc i) s)) × (find_code (drop (suc i) s) c ≡ false)

rfind-IsLast : (c : ℕ) (s : List ℕ) → IsLast c s (rfind c s)
unfolding rfind find_code
rfind-IsLast c [] = refl
rfind-IsLast c (x ∷ xs) = step (rfind c xs) (rfind-IsLast c xs)
  where
    step :
        (o : Option ℕ)
        → IsLast c xs o
        → IsLast c
            (x ∷ xs)
            (elim o [ some i ↦ some (suc i) | none ↦ if x == c then some 0 else none ])
    step (some i) h = (ap (λ t. x ∷ t) h.0, h.1)
    step none h = elim (Bool-cases (x == c)) [
      | inl e ↦ let same : x ≡ c = ground (arith, e) in rw e (ap (λ y. y ∷ xs) same, h)
      | inr e ↦ rw e (ground (arith, e, h))
    ]

-- A path is its directory, a slash and its file name, or it has no directory and is its file name; the
-- file name has no slash.
pub get_dirname-get_filename :
    (path : List ℕ)
    → (find_code (get_filename path) b'/' ≡ false)
      × ((get_dirname path ++ (b'/' ∷ get_filename path) ≡ path)
          ⊎ ((get_dirname path ≡ []) × (get_filename path ≡ path)))
unfolding get_dirname get_filename
get_dirname-get_filename path = parts (rfind b'/' path) (rfind-IsLast b'/' path)
  where
    parts :
        (o : Option ℕ)
        → IsLast b'/' path o
        → (find_code (elim o [ none ↦ path | some pos ↦ drop (suc pos) path ]) b'/' ≡ false)
          × ((elim o [ none ↦ [] | some pos ↦ take pos path ]
                  ++ (b'/' ∷ elim o [ none ↦ path | some pos ↦ drop (suc pos) path ])
                ≡ path)
              ⊎ ((elim o [ none ↦ [] | some pos ↦ take pos path ] ≡ [])
                  × (elim o [ none ↦ path | some pos ↦ drop (suc pos) path ] ≡ path)))
    parts none h = (h, inr (refl, refl))
    parts (some i) h = (h.1, inl (sym h.0))
