-- ===== src/Base/Lists.antt =====
-- Lists measured by native numbers, under the library's names.
use Prim.Native.Nat.{ℕ, zero, suc, ◌+◌, ◌-◌, ◌≤◌, min}
use mathlib.Core.Path.{sym, ◌≡◌, refl, ap, ap₂, ◌∙◌}
use mathlib.Core.List.{append_assoc, List, [], ◌∷◌, ◌++◌}
use mathlib.Core.Option.{Option, none, some}
use native.Mathlib.Omega.{arith}

module _ {ℓ} {A : Type ℓ} where
  abbrev pub length : List A → ℕ
  length [] = 0
  length (x ∷ xs) = suc (length xs)

  abbrev pub get_elem? : List A → ℕ → Option A
  get_elem? [] i = none
  get_elem? (x ∷ xs) zero = some x
  get_elem? (x ∷ xs) (suc i) = get_elem? xs i

  abbrev pub take : ℕ → List A → List A
  take zero xs = []
  take (suc n) [] = []
  take (suc n) (x ∷ xs) = x ∷ take n xs

  abbrev pub drop : ℕ → List A → List A
  drop zero xs = xs
  drop (suc n) [] = []
  drop (suc n) (x ∷ xs) = drop n xs

  abbrev pub replicate : ℕ → A → List A
  replicate zero a = []
  replicate (suc n) a = a ∷ replicate n a

  abbrev pub All {κ} : (A → Type κ) → List A → Type κ
  All P [] = Unit {κ}
  All P (x ∷ xs) = P x × All P xs

module _ {ℓ} {A : Type ℓ} where
  pub length-append : (xs ys : List A) → length (xs ++ ys) ≡ length xs + length ys
  length-append [] ys = omega arith
  length-append (x ∷ xs) ys = omega (arith, length-append xs ys)

  pub take-append-drop : (n : ℕ) (xs : List A) → take n xs ++ drop n xs ≡ xs
  take-append-drop zero xs = refl
  take-append-drop (suc n) [] = refl
  take-append-drop (suc n) (x ∷ xs) = ap (λ t. x ∷ t) (take-append-drop n xs)

  pub length-take : (n : ℕ) (xs : List A) → length (take n xs) ≡ min n (length xs)
  length-take zero xs = omega arith
  length-take (suc n) [] = omega arith
  length-take (suc n) (x ∷ xs) = omega (arith, length-take n xs)

  pub length-drop : (n : ℕ) (xs : List A) → length (drop n xs) ≡ length xs - n
  length-drop zero xs = omega arith
  length-drop (suc n) [] = omega arith
  length-drop (suc n) (x ∷ xs) = omega (arith, length-drop n xs)

  pub length-replicate : (n : ℕ) (a : A) → length (replicate n a) ≡ n
  length-replicate zero a = refl
  length-replicate (suc n) a = ap suc (length-replicate n a)

  pub take-all : (n : ℕ) (xs : List A) → length xs ≤ n → take n xs ≡ xs
  take-all zero [] h = refl
  take-all zero (x ∷ xs) h = absurd (omega arith)
  take-all (suc n) [] h = refl
  take-all (suc n) (x ∷ xs) h = ap (λ t. x ∷ t) (take-all n xs (omega arith))

  pub drop-all : (n : ℕ) (xs : List A) → length xs ≤ n → drop n xs ≡ []
  drop-all zero [] h = refl
  drop-all zero (x ∷ xs) h = absurd (omega arith)
  drop-all (suc n) [] h = refl
  drop-all (suc n) (x ∷ xs) h = drop-all n xs (omega arith)

  pub All-append {κ} : (P : A → Type κ) (xs ys : List A) → All P xs → All P ys → All P (xs ++ ys)
  All-append P [] ys h k = k
  All-append P (x ∷ xs) ys h k = (h.0, All-append P xs ys h.1 k)

  pub take-append : (xs ys : List A) → take (length xs) (xs ++ ys) ≡ xs
  take-append [] ys = refl
  take-append (x ∷ xs) ys = ap (λ t. x ∷ t) (take-append xs ys)

  pub drop-append : (xs ys : List A) → drop (length xs) (xs ++ ys) ≡ ys
  drop-append [] ys = refl
  drop-append (x ∷ xs) ys = drop-append xs ys

  pub drop-append_add : (xs ys : List A) (k : ℕ) → drop (length xs + k) (xs ++ ys) ≡ drop k ys
  drop-append_add [] ys k = let e : 0 + k ≡ k = omega arith in ap (λ n. drop n ys) e
  drop-append_add (x ∷ xs) ys k =
      let e : suc (length xs) + k ≡ suc (length xs + k) = omega arith in
      ap (λ n. drop n (x ∷ (xs ++ ys))) e ∙ drop-append_add xs ys k

  pub drop-replicate : (k m : ℕ) (a : A) → drop k (replicate m a) ≡ replicate (m - k) a
  drop-replicate zero m a = let e : m ≡ m - 0 = omega arith in ap (λ n. replicate n a) e
  drop-replicate (suc k) zero a = let e : 0 ≡ 0 - suc k = omega arith in ap (λ n. replicate n a) e
  drop-replicate (suc k) (suc m) a =
      let e : m - k ≡ suc m - suc k = omega arith in
      drop-replicate k m a ∙ ap (λ n. replicate n a) e

  -- A prefix of `ys` that is as long as `xs`, where both begin the same list.
  pub take-prefix :
      (xs ys rest more : List A)
      → ys ++ more ≡ xs ++ rest
      → length xs ≤ length ys
      → take (length xs) ys ≡ xs
  take-prefix [] ys rest more e h = refl
  take-prefix (x ∷ xs) [] rest more e h = absurd (omega arith)
  take-prefix (x ∷ xs) (y ∷ ys) rest more e h =
      ap₂ (λ u v. u ∷ v) (cc) (take-prefix xs ys rest more (cc) (omega arith))

  pub take-append_le : (k : ℕ) (xs ys : List A) → k ≤ length xs → take k (xs ++ ys) ≡ take k xs
  take-append_le zero xs ys h = refl
  take-append_le (suc k) [] ys h = absurd (omega arith)
  take-append_le (suc k) (x ∷ xs) ys h = ap (λ t. x ∷ t) (take-append_le k xs ys (omega arith))

  pub drop-append_le :
      (k : ℕ) (xs ys : List A) → k ≤ length xs → drop k (xs ++ ys) ≡ drop k xs ++ ys
  drop-append_le zero xs ys h = refl
  drop-append_le (suc k) [] ys h = absurd (omega arith)
  drop-append_le (suc k) (x ∷ xs) ys h = drop-append_le k xs ys (omega arith)

  -- Where the front of `xs ++ ys` ends inside `ys`.
  pub take-append_ge :
      (k : ℕ) (xs ys : List A) → length xs ≤ k → take k (xs ++ ys) ≡ xs ++ take (k - length xs) ys
  take-append_ge k [] ys h = let e : k ≡ k - 0 = omega arith in ap (λ n. take n ys) e
  take-append_ge zero (x ∷ xs) ys h = absurd (omega arith)
  take-append_ge (suc k) (x ∷ xs) ys h =
      let e : k - length xs ≡ suc k - suc (length xs) = omega arith in
      ap (λ t. x ∷ t) (take-append_ge k xs ys (omega arith) ∙ ap (λ n. xs ++ take n ys) e)

  pub drop-append_ge :
      (k : ℕ) (xs ys : List A) → length xs ≤ k → drop k (xs ++ ys) ≡ drop (k - length xs) ys
  drop-append_ge k [] ys h = let e : k ≡ k - 0 = omega arith in ap (λ n. drop n ys) e
  drop-append_ge zero (x ∷ xs) ys h = absurd (omega arith)
  drop-append_ge (suc k) (x ∷ xs) ys h =
      let e : k - length xs ≡ suc k - suc (length xs) = omega arith in
      drop-append_ge k xs ys (omega arith) ∙ ap (λ n. drop n ys) e

  abbrev pub flatten : List (List A) → List A
  flatten [] = []
  flatten (xs ∷ xss) = xs ++ flatten xss

  pub flatten-append : (xss yss : List (List A)) → flatten (xss ++ yss) ≡ flatten xss ++ flatten yss
  flatten-append [] yss = refl
  flatten-append (xs ∷ xss) yss =
      ap (λ ys. xs ++ ys) (flatten-append xss yss)
      ∙ sym (append_assoc xs (flatten xss) (flatten yss))

  drop-nil : (k : ℕ) → drop {A = A} k [] ≡ []
  drop-nil zero = refl
  drop-nil (suc k) = refl

  pub drop-drop : (n k : ℕ) (xs : List A) → drop (n + k) xs ≡ drop k (drop n xs)
  drop-drop zero k xs = let e : 0 + k ≡ k = omega arith in rw (e)
  drop-drop (suc n) k [] = rw (drop-nil (suc n + k), drop-nil k)
  drop-drop (suc n) k (x ∷ xs) =
      let e : suc n + k ≡ suc (n + k) = omega arith in rw (e) (drop-drop n k xs)
