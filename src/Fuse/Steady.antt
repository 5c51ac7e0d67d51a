-- ===== src/Fuse/Steady.antt =====
-- The parts of requests that neither reply nor touch the object cache: how they are put together.
use zune_sync.Base.{
  ◌≡◌, refl, ◌∙◌, Bool, true, false, if◌then◌else◌, List, [], ◌∷◌, Option, none, some, Result, ok,
  err,
}
use zune_sync.Base.Stateful.{◌>>=◌, return, lift, catch, for_each, every_way}
use zune_sync.Fuse.State.{FuseSession, Fuse, Method, State, call, ask, read_fuse, change}

pub record IsKept (f g : Fuse) : Type 0 where
  pub replies : g.replies ≡ f.replies
  pub object_cache : g.object_cache ≡ f.object_cache

pub same-IsKept : (f : Fuse) → IsKept f f
same-IsKept f = record { replies = refl; object_cache = refl }

pub trans-IsKept : (f g h : Fuse) → IsKept f g → IsKept g h → IsKept f h
trans-IsKept f g h p q = record {
  replies = q.replies ∙ p.replies;
  object_cache = q.object_cache ∙ p.object_cache;
}

pub record IsSteady (C : FuseSession) {A : Type 0} (m : Method C A) : Type 0 where
  pub kept : (w : Fuse × State C) → IsKept w.0 (m w).1.0

module _ (C : FuseSession) where
  pub bind-IsSteady :
      {A B : Type 0} (m : Method C A) (f : A → Method C B)
      → IsSteady C m
      → ((a : A) → IsSteady C (f a))
      → IsSteady C (m >>= f)
  bind-IsSteady m f hm hf = record {
    kept =
        every_way (λ s t. IsKept s.0 t.0) (λ s t u. trans-IsKept s.0 t.0 u.0) m f hm.kept
          (λ a. (hf a).kept);
  }

  pub return-IsSteady : {A : Type 0} (a : A) → IsSteady C (return a)
  return-IsSteady a = record { kept = λ w. same-IsKept w.0 }

  pub lift-IsSteady : {A : Type 0} (r : Result A) → IsSteady C (lift r)
  lift-IsSteady r = record { kept = λ w. same-IsKept w.0 }

  pub read-IsSteady : {A : Type 0} (f : Fuse → A) → IsSteady C (read_fuse f)
  read-IsSteady f = record { kept = λ w. same-IsKept w.0 }

  pub ask-IsSteady : {A : Type 0} (f : State C → A) → IsSteady C (ask f)
  ask-IsSteady f = record { kept = λ w. same-IsKept w.0 }

  pub call-IsSteady : {A : Type 0} (f : State C → Result A × State C) → IsSteady C (call f)
  call-IsSteady f = record { kept = λ w. same-IsKept w.0 }

  pub change-IsSteady :
      (g : Fuse → Fuse)
      → ((f : Fuse) → (g f).replies ≡ f.replies)
      → ((f : Fuse) → (g f).object_cache ≡ f.object_cache)
      → IsSteady C (change g)
  change-IsSteady g h k = record { kept = λ w. record { replies = h w.0; object_cache = k w.0 } }

  pub catch-IsSteady :
      {A : Type 0} (m handler : Method C A)
      → IsSteady C m
      → IsSteady C handler
      → IsSteady C (catch m handler)
  catch-IsSteady {A} m handler hm hh = record { kept = λ w. go (m w) w (hm.kept w) }
    where
      go :
          (r : Result A × (Fuse × State C)) (w : Fuse × State C)
          → IsKept w.0 r.1.0
          → IsKept w.0 (catch (λ _. r) handler w).1.0
      go (ok a, w1) w h = h
      go (err x, w1) w h = trans-IsKept w.0 w1.0 _ h (hh.kept w1)

  pub for_each-IsSteady :
      {A : Type 0} (body : A → Method C (Unit {0})) (xs : List A)
      → ((a : A) → IsSteady C (body a))
      → IsSteady C (for_each body xs)
  for_each-IsSteady body [] h = return-IsSteady tt
  for_each-IsSteady body (x ∷ xs) h =
      bind-IsSteady (body x) (λ _. for_each body xs) (h x) (λ _. for_each-IsSteady body xs h)

  pub if-IsSteady :
      {A : Type 0} (b : Bool) (m k : Method C A)
      → IsSteady C m
      → IsSteady C k
      → IsSteady C (if b then m else k)
  if-IsSteady true m k hm hk = hm
  if-IsSteady false m k hm hk = hk

  pub option-IsSteady :
      {A B : Type 0} (o : Option B) (m : Method C A) (f : B → Method C A)
      → IsSteady C m
      → ((b : B) → IsSteady C (f b))
      → IsSteady C {A = A} (elim o as (λ _. Method C A) [ none ↦ m | some b ↦ f b ])
  option-IsSteady none m f hm hf = hm
  option-IsSteady (some b) m f hm hf = hf b

  -- A method that looks at the wrapper first.
  pub depending-IsSteady :
      {A B : Type 0} (see : Fuse → Option B) (m : Method C A) (f : B → Method C A)
      → IsSteady C m
      → ((b : B) → IsSteady C (f b))
      → IsSteady C {A = A} (λ w. elim (see w.0) as (λ _. Result A × (Fuse × State C)) [
        | none ↦ m w
        | some b ↦ f b w
      ])
  depending-IsSteady {A} {B} see m f hm hf = record { kept = λ w. go (see w.0) w }
    where
      go :
          (o : Option B) (w : Fuse × State C)
          → IsKept w.0
              (elim o as (λ _. Result A × (Fuse × State C)) [ none ↦ m w | some b ↦ f b w ]).1.0
      go none w = hm.kept w
      go (some b) w = (hf b).kept w
