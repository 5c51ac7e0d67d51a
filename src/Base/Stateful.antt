-- ===== src/Base/Stateful.antt =====
-- Methods of an object that may throw: the result with the object after it. What was changed before
-- a throw stays changed.
use mathlib.Core.Path.{◌≡◌, refl, ap}
use native.Mathlib.Omega.{arith}
use mathlib.Core.List.{List, [], ◌∷◌}
use zune_sync.Base.Outcome.{Error, Result, ok, err}

abbrev pub Stateful {ℓ} : Type 0 → Type ℓ → Type ℓ
Stateful S A = S → Result A × S

infixl 5 ◌>>=◌ ◌>>◌
abbrev pub ◌>>=◌ {ℓ κ} :
    {S : Type 0} {A : Type ℓ} {B : Type κ} → Stateful S A → (A → Stateful S B) → Stateful S B
◌>>=◌ m f s = let r = m s in elim r.0 [ err e ↦ (err e, r.1) | ok a ↦ f a r.1 ]

abbrev pub ◌>>◌ {ℓ κ} :
    {S : Type 0} {A : Type ℓ} {B : Type κ} → Stateful S A → Stateful S B → Stateful S B
◌>>◌ m k = m >>= λ _. k

abbrev pub return {ℓ} : {S : Type 0} {A : Type ℓ} → A → Stateful S A
return a s = (ok a, s)

abbrev pub throw {ℓ} : {S : Type 0} {A : Type ℓ} → Error → Stateful S A
throw e s = (err e, s)

-- What does not touch the object.
abbrev pub lift {ℓ} : {S : Type 0} {A : Type ℓ} → Result A → Stateful S A
lift r s = (r, s)

-- `try { ... } catch (const std::exception &) { ... }`
abbrev pub catch {ℓ} : {S : Type 0} {A : Type ℓ} → Stateful S A → Stateful S A → Stateful S A
catch m handler s = let r = m s in elim r.0 [ err e ↦ handler r.1 | ok a ↦ (ok a, r.1) ]

abbrev pub for_each {ℓ} :
    {S : Type 0} {A : Type ℓ} → (A → Stateful S (Unit {0})) → List A → Stateful S (Unit {0})
for_each body [] = return tt
for_each body (x ∷ xs) = body x >> for_each body xs

-- A call that returns, and one that throws, before what follows it.
pub call_ok {ℓ κ} :
    {S : Type 0} {A : Type ℓ} {B : Type κ} (m : Stateful S A) (f : A → Stateful S B) (s s' : S)
    (a : A)
    → m s ≡ (ok a, s')
    → ◌>>=◌ m f s ≡ f a s'
call_ok m f s s' a e = ap (λ r. ◌>>=◌ (λ _. r) f s) e

pub call_err {ℓ κ} :
    {S : Type 0} {A : Type ℓ} {B : Type κ} (m : Stateful S A) (f : A → Stateful S B) (s s' : S)
    (x : Error)
    → m s ≡ (err x, s')
    → ◌>>=◌ m f s ≡ (err x, s')
call_err m f s s' x e = ap (λ r. ◌>>=◌ (λ _. r) f s) e

pub record Returned {ℓ} {S : Type 0} {A : Type ℓ} (m : Stateful S A) (s : S) : Type ℓ where
  pub value : A
  pub state : S
  pub path : m s ≡ (ok value, state)

-- A chain that returned came by a first part that returned.
pub bind_inversion {ℓ κ} :
    {S : Type 0} {A : Type ℓ} {B : Type κ} (m : Stateful S A) (f : A → Stateful S B) (s s' : S)
    (b : B)
    → ◌>>=◌ m f s ≡ (ok b, s')
    → (r : Returned m s) × (f r.value r.state ≡ (ok b, s'))
bind_inversion {S = S} {A = A} {B = B} m f s s' b e = go (m s) refl e
  where
    go :
        (r : Result A × S)
        → m s ≡ r
        → ◌>>=◌ (λ _. r) f s ≡ (ok b, s')
        → (r : Returned m s) × (f r.value r.state ≡ (ok b, s'))
    go (ok a, s1) p q = (record { value = a; state = s1; path = p }, q)
    go (err x, s1) p q = absurd (grind (arith, q))

-- What holds of the state before and after every way out of a method, step by step.
pub every_way {ℓ κ μ} :
    {S : Type 0} {A : Type ℓ} {B : Type κ} (R : S → S → Type μ)
    → ((s t u : S) → R s t → R t u → R s u)
    → (m : Stateful S A) (f : A → Stateful S B) → ((s : S) → R s (m s).1)
    → ((a : A) (s : S) → R s (f a s).1)
    → (s : S) → R s (◌>>=◌ m f s).1
every_way {S = S} {A = A} {B = B} R trans m f hm hf s = go (m s) (hm s)
  where
    go : (r : Result A × S) → R s r.1 → R s (◌>>=◌ (λ _. r) f s).1
    go (ok a, s1) h = trans s s1 _ h (hf a s1)
    go (err x, s1) h = h
