-- ===== src/Fuse/CacheSize.antt =====
-- How the object cache grows and shrinks in `Read`.
use zune_sync.Base.{
  u32, ℕ, zero, suc, ◌+◌, ◌≤◌, ◌==◌, ltb, ◌≡◌, refl, ap, ◌∙◌, inl, inr, Bool-cases, Bool, true,
  false, if◌then◌else◌, List, [], ◌∷◌, length, get_elem?, Option, none, some, Result, ok, arith,
}
use zune_sync.Base.Stateful.{◌>>=◌, return, every_way}
use zune_sync.Fuse.State.{FuseSession, Fuse, Host, Method, State, call, change}
use zune_sync.Fuse.Files.{
  cache_size, slice, find_cached, replace_at, swap_first, pop_back, purge, set_object_cache,
  take_hit, keep_contents, read_hit, read_miss, read_cached, read_bytes,
}
use zune_sync.Fuse.Steady.{return-IsSteady, lift-IsSteady, call-IsSteady}
use zune_sync.Fuse.Serving.{IsCalm, IsCalming, steady-IsCalming}

length-replace_at :
    {A : Type 0} (i : ℕ) (a : A) (xs : List A) → length (replace_at i a xs) ≡ length xs
unfolding replace_at
length-replace_at i a [] = refl
length-replace_at zero a (x ∷ xs) = refl
length-replace_at (suc i) a (x ∷ xs) = ap suc (length-replace_at i a xs)

length-swap_first : {A : Type 0} (i : ℕ) (xs : List A) → length (swap_first i xs) ≡ length xs
unfolding swap_first
length-swap_first i [] = refl
length-swap_first zero (x ∷ xs) = refl
length-swap_first {A} (suc i) (x ∷ xs) =
    elim (get_elem? xs i)
      as (λ o.
        length (elim o as (λ _. List A) [ none ↦ x ∷ xs | some y ↦ y ∷ replace_at i x xs ])
        ≡ suc (length xs)) [ none ↦ refl | some y ↦ ap suc (length-replace_at i x xs) ]

length-pop_back :
    {A : Type 0} (x : A) (xs : List A) → suc (length (pop_back (x ∷ xs))) ≡ length (x ∷ xs)
unfolding pop_back
length-pop_back x [] = refl
length-pop_back x (y ∷ xs) = ap suc (length-pop_back y xs)

-- Counted right, the cache is cut to the limit.
length-purge :
    (size : ℕ) (entries : List (ℕ × List ℕ))
    → size ≡ length entries
    → length (purge size entries) ≤ cache_size
unfolding purge
length-purge zero entries h = omega (arith, h)
length-purge (suc size) [] h = absurd (omega (arith, h))
length-purge (suc size) (x ∷ xs) h = elim (Bool-cases (ltb cache_size (suc size))) [
  | inl e ↦ rw (e) (length-purge size (pop_back (x ∷ xs)) (omega (arith, h, length-pop_back x xs)))
  | inr e ↦ rw (e) (ground (arith, e, h))
]

length-purge_le :
    (size : ℕ) (entries : List (ℕ × List ℕ)) → length (purge size entries) ≤ length entries
unfolding purge pop_back
length-purge_le zero entries = omega arith
length-purge_le (suc size) [] = elim (Bool-cases (ltb cache_size (suc size))) [
  | inl e ↦ rw (purge, e) (length-purge_le size [])
  | inr e ↦ rw (purge, e) (omega arith)
]
length-purge_le (suc size) (x ∷ xs) = elim (Bool-cases (ltb cache_size (suc size))) [
  | inl e ↦
      let ih = length-purge_le size (pop_back (x ∷ xs)) in
      rw (purge, e) (omega (arith, ih, length-pop_back x xs))
  | inr e ↦ rw (purge, e) (omega arith)
]

chain-IsCalming :
    (C : FuseSession) {A B : Type 0} (m : Method C A) (f : A → Method C B)
    → IsCalming C m
    → ((a : A) → IsCalming C (f a))
    → IsCalming C (m >>= f)
chain-IsCalming C m f hm hf = record {
  calm =
      every_way (λ s t. IsCalm s.0 t.0)
        (λ s t u p q. record {
          replies = q.replies ∙ p.replies;
          bounded = λ b. q.bounded (p.bounded b);
        })
        m f hm.calm (λ a. (hf a).calm);
}

module _ (C : FuseSession) (host : Host (State C)) where
  return-IsCalming : {A : Type 0} (a : A) → IsCalming C (return a)
  return-IsCalming a = steady-IsCalming C (return a) (return-IsSteady C a)

  take_hit-IsCalming : (i : ℕ) → IsCalming C (change (take_hit i))
  unfolding take_hit set_object_cache
  take_hit-IsCalming i = record {
    calm = λ w. record {
      replies = refl;
      bounded = λ b.
          let shorter = length-purge_le i (swap_first i w.0.object_cache) in
          let same = length-swap_first i w.0.object_cache in omega (arith, b, shorter, same);
    };
  }

  keep_contents-IsCalming :
      (id : ℕ) (contents : List ℕ) → IsCalming C (change (keep_contents id contents))
  unfolding keep_contents set_object_cache
  keep_contents-IsCalming id contents = record {
    calm = λ w. record {
      replies = refl;
      bounded = λ b.
          length-purge (length w.0.object_cache + 1) ((id, contents) ∷ w.0.object_cache)
            (omega arith);
    };
  }

  read_hit-IsCalming :
      (begin rsize : ℕ) (hit : ℕ × List ℕ) → IsCalming C (read_hit C host begin rsize hit)
  unfolding read_hit
  read_hit-IsCalming begin rsize hit =
      chain-IsCalming C _ _ (steady-IsCalming C _ (lift-IsSteady C (slice begin rsize hit.1)))
        λ bytes. chain-IsCalming C _ _ (take_hit-IsCalming hit.0) λ _. return-IsCalming bytes

  read_miss-IsCalming : (id begin rsize : ℕ) → IsCalming C (read_miss C host id begin rsize)
  unfolding read_miss
  read_miss-IsCalming id begin rsize =
      chain-IsCalming C _ _ (steady-IsCalming C _ (call-IsSteady C (C.get_object id))) λ contents.
        chain-IsCalming C _ _ (steady-IsCalming C _ (lift-IsSteady C (slice begin rsize contents)))
          λ bytes.
            chain-IsCalming C _ _ (keep_contents-IsCalming id contents) λ _. return-IsCalming bytes

  read_cached-IsCalming : (id begin rsize : ℕ) → IsCalming C (read_cached C host id begin rsize)
  unfolding read_cached
  read_cached-IsCalming id begin rsize = record {
    calm = λ w. go (find_cached id w.0.object_cache) w;
  }
    where
      go :
          (o : Option (ℕ × List ℕ)) (w : Fuse × State C)
          → IsCalm w.0
              (elim o as (λ _. Result (List ℕ) × (Fuse × State C)) [
                | some hit ↦ read_hit C host begin rsize hit w
                | none ↦ read_miss C host id begin rsize w
              ]).1.0
      go none w = (read_miss-IsCalming id begin rsize).calm w
      go (some hit) w = (read_hit-IsCalming begin rsize hit).calm w

  -- What `Read` does for its bytes sends no reply, and leaves at most three objects in the cache.
  pub read_bytes-IsCalming : (id begin rsize : ℕ) → IsCalming C (read_bytes C host id begin rsize)
  unfolding read_bytes
  read_bytes-IsCalming id begin rsize = record {
    calm = λ w. go (rsize == 0) w.0.get_partial_object_supported w;
  }
    where
      go :
          (empty partial : Bool) (w : Fuse × State C)
          → IsCalm w.0
              (if empty
                then (ok [], w)
                else if partial
                then call (C.get_partial_object id begin (u32 rsize)) w
                else read_cached C host id begin rsize w).1.0
      go true partial w = record { replies = refl; bounded = λ b. b }
      go false true w = record { replies = refl; bounded = λ b. b }
      go false false w = (read_cached-IsCalming id begin rsize).calm w
