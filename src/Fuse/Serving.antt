-- ===== src/Fuse/Serving.antt =====
-- How a request is answered, and what it leaves in the object cache: how its parts are put together.
use zune_sync.Base.{
  ◌≤◌, ◌≡◌, refl, ap, ◌∙◌, Bool, true, false, if◌then◌else◌, List, [], ◌∷◌, ◌++◌, length, Option,
  none, some, Error, Result, ok, err, arith,
}
use zune_sync.Base.Stateful.{◌>>=◌, throw}
use zune_sync.Fuse.State.{FuseSession, Fuse, Host, Method, State, Reply, reply}
use zune_sync.Fuse.Files.{cache_size}
use zune_sync.Fuse.Steady.{IsSteady}

-- At most `cache_size` objects are cached.
abbrev pub IsBounded : Fuse → Type 0
IsBounded f = length f.object_cache ≤ cache_size

-- No reply, and the cache no bigger than it may be.
pub record IsCalm (f g : Fuse) : Type 0 where
  pub replies : g.replies ≡ f.replies
  pub bounded : IsBounded f → IsBounded g

-- One reply, or an exception and none.
abbrev pub Replied : Result (Unit {0}) → Fuse → Fuse → Type 0
Replied (ok _) f g = (r : Reply) × (g.replies ≡ f.replies ++ (r ∷ []))
Replied (err e) f g = g.replies ≡ f.replies

pub record IsServed (outcome : Result (Unit {0})) (f g : Fuse) : Type 0 where
  pub replied : Replied outcome f g
  pub bounded : IsBounded f → IsBounded g

-- Every reply call of libfuse succeeds.
pub record IsAccepting {S : Type 0} (host : Host S) : Type 0 where
  pub accepting : (replies : List Reply) (r : Reply) → host.accepts replies r ≡ true

pub record IsCalming (C : FuseSession) {A : Type 0} (m : Method C A) : Type 0 where
  pub calm : (w : Fuse × State C) → IsCalm w.0 (m w).1.0

pub record IsServing (C : FuseSession) (m : Method C (Unit {0})) : Type 0 where
  pub served : (w : Fuse × State C) → IsServed (m w).0 w.0 (m w).1.0

pub from_calm :
    (outcome : Result (Unit {0})) (f g h : Fuse)
    → IsCalm f g
    → IsServed outcome g h
    → IsServed outcome f h
from_calm (ok u) f g h c s = record {
  replied = (s.replied.0, s.replied.1 ∙ ap (λ rs. rs ++ (s.replied.0 ∷ [])) c.replies);
  bounded = λ b. s.bounded (c.bounded b);
}
from_calm (err e) f g h c s = record {
  replied = s.replied ∙ c.replies;
  bounded = λ b. s.bounded (c.bounded b);
}

module _ (C : FuseSession) where
  pub steady-IsCalming : {A : Type 0} (m : Method C A) → IsSteady C m → IsCalming C m
  steady-IsCalming m h = record {
    calm = λ w. record {
      replies = (h.kept w).replies;
      bounded = λ b.
          let e : length (m w).1.0.object_cache ≡ length w.0.object_cache =
            ap length (h.kept w).object_cache in
          omega (arith, b, e);
    };
  }

  pub calm-IsServing :
      {A : Type 0} (m : Method C A) (f : A → Method C (Unit {0}))
      → IsCalming C m
      → ((a : A) → IsServing C (f a))
      → IsServing C (m >>= f)
  calm-IsServing {A} m f hm hf = record { served = λ w. go (m w) w (hm.calm w) }
    where
      go :
          (r : Result A × (Fuse × State C)) (w : Fuse × State C)
          → IsCalm w.0 r.1.0
          → IsServed (◌>>=◌ (λ _. r) f w).0 w.0 (◌>>=◌ (λ _. r) f w).1.0
      go (ok a, w1) w h = from_calm (f a w1).0 w.0 w1.0 (f a w1).1.0 h ((hf a).served w1)
      go (err e, w1) w h = record { replied = h.replies; bounded = h.bounded }

  -- A part without a reply, before a part with one.
  pub bind-IsServing :
      {A : Type 0} (m : Method C A) (f : A → Method C (Unit {0}))
      → IsSteady C m
      → ((a : A) → IsServing C (f a))
      → IsServing C (m >>= f)
  bind-IsServing m f hm hf = calm-IsServing m f (steady-IsCalming m hm) hf

  pub throw-IsServing : (e : Error) → IsServing C (throw e)
  throw-IsServing e = record { served = λ w. record { replied = refl; bounded = λ b. b } }

  pub if-IsServing :
      (b : Bool) (m k : Method C (Unit {0}))
      → IsServing C m
      → IsServing C k
      → IsServing C (if b then m else k)
  if-IsServing true m k hm hk = hm
  if-IsServing false m k hm hk = hk

  pub option-IsServing :
      {B : Type 0} (o : Option B) (m : Method C (Unit {0})) (f : B → Method C (Unit {0}))
      → IsServing C m
      → ((b : B) → IsServing C (f b))
      → IsServing C (elim o as (λ _. Method C (Unit {0})) [ none ↦ m | some b ↦ f b ])
  option-IsServing none m f hm hf = hm
  option-IsServing (some b) m f hm hf = hf b

  pub reply-IsServing :
      (host : Host (State C)) (r : Reply) → IsAccepting host → IsServing C (reply host r)
  unfolding reply
  reply-IsServing host r h = record {
    served = λ w.
        rw (reply, h.accepting w.0.replies r) (record { replied = (r, refl); bounded = λ b. b });
  }
