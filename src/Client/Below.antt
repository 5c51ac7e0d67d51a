-- ===== src/Client/Below.antt =====
-- The paths that `Get` makes out of its destination.
use zune_sync.Base.{
  ◌⊎◌, inl, inr, ℕ, zero, suc, ◌%◌, ◌^◌, ◌==◌, ◌≡◌, refl, sym, ap, ◌∙◌, Bool, true, false,
  if◌then◌else◌, List, [], ◌∷◌, ◌++◌, append-nil, append_assoc, All, All-append, Result, ok, err,
}
use zune_sync.Base.Stateful.{◌>>=◌, return, catch, for_each, every_way}
use zune_sync.Codes.ObjectFormat
use zune_sync.Codes.ObjectProperty
use zune_sync.Client.Getting.{
  Effect, Downloads, Files, World, Method, ask, current_storage, perform, below, copy_time,
  ask_size, get_file, get,
}

abbrev pub path_of : Effect → List ℕ
path_of (Effect.made_directory path) = path
path_of (Effect.opened path) = path
path_of (Effect.wrote path bytes) = path
path_of (Effect.timed path time) = path

-- As a text, the path is the destination, or goes on from it by a slash.
abbrev pub IsBelow : List ℕ → List ℕ → Type 0
IsBelow dst path = (path ≡ dst) ⊎ ((rest : List ℕ) × (path ≡ dst ++ (b'/' ∷ rest)))

-- What was done between two states, all of it below the destination.
abbrev pub Adds : List ℕ → List Effect → List Effect → Type 0
Adds dst old new =
    (done : List Effect) × (new ≡ old ++ done) × All (λ (e : Effect). IsBelow dst (path_of e)) done

same-Adds : (dst : List ℕ) (old : List Effect) → Adds dst old old
same-Adds dst old = ([], sym (append-nil old), tt)

trans-Adds : (dst : List ℕ) (a b c : List Effect) → Adds dst a b → Adds dst b c → Adds dst a c
trans-Adds dst a b c (d, p, h) (e, q, k) = (
  d ++ e,
  q ∙ ap (λ l. l ++ e) p ∙ append_assoc a d e,
  All-append (λ (x : Effect). IsBelow dst (path_of x)) d e h k,
)

All-below :
    (dst name : List ℕ) (done : List Effect)
    → All (λ (e : Effect). IsBelow (below dst name) (path_of e)) done
    → All (λ (e : Effect). IsBelow dst (path_of e)) done
unfolding below
All-below dst name [] h = tt
All-below dst name (e ∷ es) (inl p, h) = (inr (name, p), All-below dst name es h)
All-below dst name (e ∷ es) (inr (rest, p), h) = (
  inr (name ++ (b'/' ∷ rest), p ∙ append_assoc dst (b'/' ∷ name) (b'/' ∷ rest)),
  All-below dst name es h,
)

record StaysBelow (D : Downloads) (dst : List ℕ) {A : Type 0} (m : Method D A) : Type 0 where
  stays : (w : World D) → Adds dst w.0 (m w).1.0

module _ (D : Downloads) (dst : List ℕ) where
  bind-StaysBelow :
      {A B : Type 0} (m : Method D A) (f : A → Method D B)
      → StaysBelow D dst m
      → ((a : A) → StaysBelow D dst (f a))
      → StaysBelow D dst (m >>= f)
  bind-StaysBelow m f hm hf = record {
    stays =
        every_way (λ s t. Adds dst s.0 t.0) (λ s t u. trans-Adds dst s.0 t.0 u.0) m f hm.stays
          (λ a. (hf a).stays);
  }

  return-StaysBelow : {A : Type 0} (a : A) → StaysBelow D dst (return a)
  return-StaysBelow a = record { stays = λ w. same-Adds dst w.0 }

  storage-StaysBelow : StaysBelow D dst current_storage
  storage-StaysBelow = record { stays = λ w. same-Adds dst w.0 }

  ask-StaysBelow :
      {A : Type 0} (f : D.client.base.State → Result A × D.client.base.State)
      → StaysBelow D dst (ask f)
  ask-StaysBelow f = record { stays = λ w. same-Adds dst w.0 }

  perform-StaysBelow :
      (r : Result (Unit {0})) (e : Effect) → path_of e ≡ dst → StaysBelow D dst (perform r e)
  perform-StaysBelow (ok u) e h = record { stays = λ w. (e ∷ [], refl, (inl h, tt)) }
  perform-StaysBelow (err x) e h = record { stays = λ w. same-Adds dst w.0 }

  catch-StaysBelow :
      {A : Type 0} (m handler : Method D A)
      → StaysBelow D dst m
      → StaysBelow D dst handler
      → StaysBelow D dst (catch m handler)
  catch-StaysBelow {A} m handler hm hh = record { stays = λ w. go (m w) w (hm.stays w) }
    where
      go :
          (r : Result A × World D) (w : World D)
          → Adds dst w.0 r.1.0
          → Adds dst w.0 (catch (λ _. r) handler w).1.0
      go (ok a, w1) w h = h
      go (err x, w1) w h = trans-Adds dst w.0 w1.0 _ h (hh.stays w1)

  if-StaysBelow :
      {A : Type 0} (b : Bool) (m k : Method D A)
      → StaysBelow D dst m
      → StaysBelow D dst k
      → StaysBelow D dst (if b then m else k)
  if-StaysBelow true m k hm hk = hm
  if-StaysBelow false m k hm hk = hk

  for_each-StaysBelow :
      {A : Type 0} (body : A → Method D (Unit {0})) (xs : List A)
      → ((a : A) → StaysBelow D dst (body a))
      → StaysBelow D dst (for_each body xs)
  for_each-StaysBelow body [] h = return-StaysBelow tt
  for_each-StaysBelow body (x ∷ xs) h =
      bind-StaysBelow (body x) (λ _. for_each body xs) (h x) (λ _. for_each-StaysBelow body xs h)

  -- What stays below a part of the directory stays below the directory.
  part-StaysBelow :
      {A : Type 0} (name : List ℕ) (m : Method D A)
      → StaysBelow D (below dst name) m
      → StaysBelow D dst m
  part-StaysBelow name m h = record {
    stays = λ w. let (done, p, k) = h.stays w in (done, p, All-below dst name done k);
  }

module _ (D : Downloads) (files : Files) (interactive : Bool) where
  copy_time-StaysBelow :
      (dst : List ℕ) (id : ℕ) → StaysBelow D dst (copy_time D files interactive dst id)
  unfolding copy_time
  copy_time-StaysBelow dst id =
      catch-StaysBelow D dst _ _
        (bind-StaysBelow D dst _ _ (ask-StaysBelow D dst (D.get_object_modification_time id))
          λ time. perform-StaysBelow D dst (files.set_time dst time) (Effect.timed dst time) refl)
        (return-StaysBelow D dst tt)

  ask_size-StaysBelow : (dst : List ℕ) (id : ℕ) → StaysBelow D dst (ask_size D files interactive id)
  unfolding ask_size
  ask_size-StaysBelow dst id =
      if-StaysBelow D dst interactive _ _
        (ask-StaysBelow D dst
          (D.client.base.get_object_integer_property id ObjectProperty.object_size))
        (return-StaysBelow D dst 0)

  get_file-StaysBelow :
      (thumb : Bool) (dst : List ℕ) (id : ℕ)
      → StaysBelow D dst (get_file D files interactive thumb dst id)
  unfolding get_file
  get_file-StaysBelow thumb dst id =
      bind-StaysBelow D dst _ _
        (perform-StaysBelow D dst (files.open_file dst) (Effect.opened dst) refl)
        λ _. bind-StaysBelow D dst _ _ (ask_size-StaysBelow dst id) λ _.
          bind-StaysBelow D dst _ _
            (if-StaysBelow D dst thumb _ _ (ask-StaysBelow D dst (D.get_thumb id))
              (ask-StaysBelow D dst (D.get_object id)))
            λ bytes.
              bind-StaysBelow D dst _ _
                (perform-StaysBelow D dst (ok tt) (Effect.wrote dst bytes) refl)
                λ _. copy_time-StaysBelow dst id

  get-StaysBelow :
      (depth : ℕ) (thumb : Bool) (dst : List ℕ) (id : ℕ)
      → StaysBelow D dst (get D files interactive depth thumb dst id)
  unfolding get
  get-StaysBelow zero thumb dst id = record { stays = λ w. same-Adds dst w.0 }
  get-StaysBelow (suc depth) thumb dst id =
      bind-StaysBelow D dst _ _
        (ask-StaysBelow D dst
          (D.client.base.get_object_integer_property id ObjectProperty.object_format))
        λ format.
          if-StaysBelow D dst (format % 2 ^ 16 == ObjectFormat.association) _ _
            (bind-StaysBelow D dst _ _
              (perform-StaysBelow D dst (ok tt) (Effect.made_directory dst) refl)
              λ _. bind-StaysBelow D dst _ _ (storage-StaysBelow D dst) λ cs.
                bind-StaysBelow D dst _ _
                  (ask-StaysBelow D dst (D.client.base.get_object_handles cs ObjectFormat.any id))
                  λ handles. for_each-StaysBelow D dst _ handles.object_handles λ child.
                    bind-StaysBelow D dst _ _
                      (ask-StaysBelow D dst (D.client.get_object_info child))
                      λ info.
                        part-StaysBelow D dst info.filename _
                          (get-StaysBelow depth false (below dst info.filename) child))
            (get_file-StaysBelow thumb dst id)

  -- Whatever the device answers, and also where it fails midway: every directory that `Get` makes and
  -- every file that it opens, writes or dates has as its path the destination, or the destination, a slash
  -- and more. This is about the texts: the names of the device are in them as they are, also `..`.
  pub get-Adds :
      (depth : ℕ) (thumb : Bool) (dst : List ℕ) (id : ℕ) (w : World D)
      → Adds dst w.0 (get D files interactive depth thumb dst id w).1.0
  get-Adds depth thumb dst id w = (get-StaysBelow depth thumb dst id).stays w
