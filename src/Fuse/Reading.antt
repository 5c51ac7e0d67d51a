-- ===== src/Fuse/Reading.antt =====
-- What `Read` finds, with and without `GetPartialObject`, and after `Write`.
use zune_sync.Base.{
  IsU32, u32, ℕ, zero, suc, ◌+◌, ◌≤◌, ◌==◌, ==_iff, le→leb, ltb, ◌≡◌, refl, sym, ap, ◌∙◌, inl, inr,
  Bool-cases, Bool, true, false, if◌then◌else◌, List, [], ◌∷◌, length, take, drop, get_elem?,
  Option, none, some, Option-cases, All, Result, ok, err, arith,
}
use mathlib.Core.Path.{subst}
use zune_sync.Base.Stateful.{◌>>=◌, ◌>>◌, return, lift, call_ok}
use zune_sync.Fuse.State.{FuseSession, Fuse, Host, State, call, change}
use zune_sync.Fuse.Files.{
  cache_size, slice, find_cached, replace_at, swap_first, pop_back, purge, set_object_cache,
  take_hit, keep_contents, read_hit, read_miss, read_cached, read_bytes,
}

-- What the device answers when its object has these contents: a part of it, where it gives parts, and
-- else the whole, where the cache does not have the object.
pub record IsServedFrom (C : FuseSession) (contents : ℕ → List ℕ) (id begin rsize : ℕ)
    (w : Fuse × State C) : Type 0 where
  pub whole :
      w.0.get_partial_object_supported ≡ false
      → find_cached id w.0.object_cache ≡ none
      → (C.get_object id w.1).0 ≡ ok (contents id)
  pub part :
      w.0.get_partial_object_supported ≡ true
      → (C.get_partial_object id begin (u32 rsize) w.1).0
        ≡ ok (take (u32 rsize) (drop begin (contents id)))

-- The cached objects have the contents of the device.
abbrev pub IsFresh : (ℕ → List ℕ) → List (ℕ × List ℕ) → Type 0
IsFresh contents = All (λ (entry : ℕ × List ℕ). entry.1 ≡ contents entry.0)

slice-inside :
    (begin rsize : ℕ) (bytes : List ℕ)
    → begin + rsize ≤ length bytes
    → slice begin rsize bytes ≡ ok (take rsize (drop begin bytes))
unfolding slice
slice-inside begin rsize bytes h = rw (slice, le→leb (begin + rsize) (length bytes) h) refl

module _ (contents : ℕ → List ℕ) where
  find_cached-fresh :
      (id i : ℕ) (bytes : List ℕ) (entries : List (ℕ × List ℕ))
      → IsFresh contents entries
      → find_cached id entries ≡ some (i, bytes)
      → bytes ≡ contents id
  unfolding find_cached
  find_cached-fresh id i bytes [] fresh h = absurd (ground (arith, h))
  find_cached-fresh id i bytes (entry ∷ entries) fresh h = elim (Bool-cases (entry.0 == id)) [
    | inl e ↦
        let same : entry.0 ≡ id = (==_iff entry.0 id).0 e in
        let found : bytes ≡ entry.1 = grind (arith, h, e) in found ∙ fresh.0 ∙ ap contents same
    | inr e ↦ elim (Option-cases (find_cached id entries)) [
      | inl f ↦ absurd (grind (arith, h, e, f))
      | inr (hit, f) ↦
          let later : bytes ≡ hit.1 = grind (arith, h, e, f) in
          later ∙ find_cached-fresh id hit.0 hit.1 entries fresh.1 f
    ]
  ]

module _ {A : Type 0} (P : A → Type 0) where
  All-get_elem? : (i : ℕ) (y : A) (xs : List A) → All P xs → get_elem? xs i ≡ some y → P y
  All-get_elem? i y [] h e = absurd (ground (arith, e))
  All-get_elem? zero y (x ∷ xs) h e = let same : x ≡ y = grind (arith, e) in subst P same h.0
  All-get_elem? (suc i) y (x ∷ xs) h e = All-get_elem? i y xs h.1 e

  All-replace_at : (i : ℕ) (a : A) (xs : List A) → P a → All P xs → All P (replace_at i a xs)
  unfolding replace_at
  All-replace_at i a [] p h = h
  All-replace_at zero a (x ∷ xs) p h = (p, h.1)
  All-replace_at (suc i) a (x ∷ xs) p h = (h.0, All-replace_at i a xs p h.1)

  All-swap_first : (i : ℕ) (xs : List A) → All P xs → All P (swap_first i xs)
  unfolding swap_first
  All-swap_first i [] h = h
  All-swap_first zero (x ∷ xs) h = h
  All-swap_first (suc i) (x ∷ xs) h = go (get_elem? xs i) refl
    where
      go :
          (o : Option A)
          → get_elem? xs i ≡ o
          → All P (elim o as (λ _. List A) [ none ↦ x ∷ xs | some y ↦ y ∷ replace_at i x xs ])
      go none e = h
      go (some y) e = (All-get_elem? i y xs h.1 e, All-replace_at i x xs h.0 h.1)

  All-pop_back : (xs : List A) → All P xs → All P (pop_back xs)
  unfolding pop_back
  All-pop_back [] h = h
  All-pop_back (x ∷ []) h = tt
  All-pop_back (x ∷ y ∷ xs) h = (h.0, All-pop_back (y ∷ xs) h.1)

All-purge :
    (P : ℕ × List ℕ → Type 0) (size : ℕ) (entries : List (ℕ × List ℕ))
    → All P entries
    → All P (purge size entries)
unfolding purge
All-purge P zero entries h = h
All-purge P (suc size) entries h = elim (Bool-cases (ltb cache_size (suc size))) [
  | inl e ↦ rw (purge, e) (All-purge P size (pop_back entries) (All-pop_back P entries h))
  | inr e ↦ rw (purge, e) h
]

module _ (C : FuseSession) (host : Host (State C)) where
  -- The bytes, and the cache behind them.
  abbrev pub Reads : (ℕ → List ℕ) → List ℕ → Result (List ℕ) × (Fuse × State C) → Type 0
  Reads contents bytes r = (r.0 ≡ ok bytes) × IsFresh contents r.1.0.object_cache

  pub read_hit-found :
      (begin rsize i : ℕ) (bytes : List ℕ) (w : Fuse × State C)
      → begin + rsize ≤ length bytes
      → read_hit C host begin rsize (i, bytes) w
        ≡ (ok (take rsize (drop begin bytes)), (take_hit i w.0, w.1))
  unfolding read_hit
  read_hit-found begin rsize i bytes w h =
      ap (λ r. ◌>>=◌ {S = Fuse × State C} (lift r) (λ b. change (take_hit i) >> return b) w)
        (slice-inside begin rsize bytes h)

  read_miss-found :
      (id begin rsize : ℕ) (bytes : List ℕ) (w : Fuse × State C) (r : Result (List ℕ) × State C)
      → C.get_object id w.1 ≡ r
      → r.0 ≡ ok bytes
      → begin + rsize ≤ length bytes
      → read_miss C host id begin rsize w
        ≡ (ok (take rsize (drop begin bytes)), (keep_contents id bytes w.0, r.1))
  unfolding read_miss
  read_miss-found id begin rsize bytes w (err x, s) e f h = absurd (grind (arith, f))
  read_miss-found id begin rsize bytes w (ok got, s) e f h =
      let after = λ (all : List ℕ).
        ◌>>=◌ {S = Fuse × State C} (lift (slice begin rsize all))
          (λ b. change (keep_contents id all) >> return b) in
      let same : got ≡ bytes = grind (arith, f) in
      call_ok (call (C.get_object id)) after w (w.0, s) got (ap (λ r. (r.0, (w.0, r.1))) e)
      ∙ ap (λ all. after all (w.0, s)) same
      ∙ ap
          (λ r.
            ◌>>=◌ {S = Fuse × State C} (lift r) (λ b. change (keep_contents id bytes) >> return b)
              (w.0, s))
          (slice-inside begin rsize bytes h)

  module _ (contents : ℕ → List ℕ) where
    read_cached-Reads :
        (id begin rsize : ℕ) (w : Fuse × State C)
        → IsServedFrom C contents id begin rsize w
        → w.0.get_partial_object_supported ≡ false
        → IsFresh contents w.0.object_cache
        → begin + rsize ≤ length (contents id)
        → Reads contents
            (take rsize (drop begin (contents id)))
            (read_cached C host id begin rsize w)
    unfolding read_cached take_hit keep_contents set_object_cache
    read_cached-Reads id begin rsize w device old fresh h =
        go (find_cached id w.0.object_cache) refl
      where
        go :
            (o : Option (ℕ × List ℕ))
            → find_cached id w.0.object_cache ≡ o
            → Reads contents
                (take rsize (drop begin (contents id)))
                (elim o as (λ _. Result (List ℕ) × (Fuse × State C)) [
                  | some hit ↦ read_hit C host begin rsize hit w
                  | none ↦ read_miss C host id begin rsize w
                ])
        go none e =
            rw
              (read_miss-found id begin rsize (contents id) w (C.get_object id w.1) refl
                (device.whole old e) h)
              (
                refl,
                All-purge (λ (entry : ℕ × List ℕ). entry.1 ≡ contents entry.0) _ _ (refl, fresh),
              )
        go (some (i, bytes)) e =
            let same = find_cached-fresh contents id i bytes w.0.object_cache fresh e in
            let fits : begin + rsize ≤ length bytes =
              subst (λ b. begin + rsize ≤ length b) (sym same) h in
            rw (read_hit-found begin rsize i bytes w fits) (
              ap (λ b. ok (take rsize (drop begin b))) same,
              All-purge (λ (entry : ℕ × List ℕ). entry.1 ≡ contents entry.0) i _
                  (All-swap_first (λ (entry : ℕ × List ℕ). entry.1 ≡ contents entry.0) i _ fresh),
            )

    -- From a cache that holds nothing but contents of the device, `Read` of a range inside an object, of
    -- fewer than 2^32 bytes, finds the bytes of that range, if what the device answers to the request that
    -- is made are contents of the object: to `GetPartialObject` where it has this, and else, where the
    -- object is not cached, to `GetObject`. The cache still holds nothing but contents of the device.
    pub read_bytes-Reads :
        (id begin rsize : ℕ) (w : Fuse × State C)
        → IsServedFrom C contents id begin rsize w
        → IsU32 rsize
        → IsFresh contents w.0.object_cache
        → begin + rsize ≤ length (contents id)
        → Reads contents
            (take rsize (drop begin (contents id)))
            (read_bytes C host id begin rsize w)
    unfolding read_bytes
    read_bytes-Reads id begin rsize w device narrow fresh h =
        go (rsize == 0) w.0.get_partial_object_supported refl refl
      where
        go :
            (empty partial : Bool)
            → (rsize == 0) ≡ empty
            → w.0.get_partial_object_supported ≡ partial
            → Reads contents (take rsize (drop begin (contents id))) (
                if empty
                then (ok [], w)
                else if partial
                then call (C.get_partial_object id begin (u32 rsize)) w
                else read_cached C host id begin rsize w)
        go true partial e p =
            let zeroth : rsize ≡ 0 = (==_iff rsize 0).0 e in
            (ap (λ n. ok (take n (drop begin (contents id)))) (sym zeroth), fresh)
        go false true e p =
            let fits : u32 rsize ≡ rsize = omega arith in
            (device.part p ∙ ap (λ n. ok (take n (drop begin (contents id)))) fits, fresh)
        go false false e p = read_cached-Reads id begin rsize w device p fresh h
