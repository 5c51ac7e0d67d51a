-- ===== src/Client/Prompt.antt =====
-- A failed change of the storage leaves the client as it was.
use zune_sync.Base.{
  ℕ, ◌==◌, ◌&&◌, ◌≡◌, refl, sym, ap, ◌∙◌, not, Bool, true, false, if◌then◌else◌, List, [], ◌∷◌,
  Option, Error, Result, ok, err, arith,
}
use zune_sync.Base.Stateful.{Stateful, ◌>>=◌, return, catch, every_way}
use zune_sync.Session.Objects.{all_storages}
use zune_sync.Messages.Device.{StorageInfo}
use zune_sync.Client.State.{ClientSession, Client, Method, call, change}
use zune_sync.Client.Storage.{
  is_storage, means_all, get_name, set_storage, find_storage, get_storage_by_path,
  friendly_name_part, battery_part, ask_friendly_name, forget_friendly_name, ask_battery,
  forget_battery, set_prompt, build_prompt, update_prompt, change_storage,
}

-- A method that returns whatever the session does.
record IsSafe {ℓ} {S : Type 0} {A : Type ℓ} (m : Stateful S A) : Type ℓ where
  returns : (s : S) → (a : A) × ((m s).0 ≡ ok a)

bind-IsSafe {ℓ κ} :
    {S : Type 0} {A : Type ℓ} {B : Type κ} (m : Stateful S A) (f : A → Stateful S B)
    → IsSafe m
    → ((a : A) → IsSafe (f a))
    → IsSafe (m >>= f)
bind-IsSafe {S = S} {A = A} {B = B} m f hm hf = record { returns = λ s. go s (m s) (hm.returns s) }
  where
    go :
        (s : S) (r : Result A × S)
        → (a : A) × (r.0 ≡ ok a)
        → (b : B) × ((◌>>=◌ (λ _. r) f s).0 ≡ ok b)
    go s (ok a, s1) h = (hf a).returns s1
    go s (err x, s1) (a, h) = absurd (grind (arith, h))

catch-IsSafe {ℓ} :
    {S : Type 0} {A : Type ℓ} (m handler : Stateful S A) → IsSafe handler → IsSafe (catch m handler)
catch-IsSafe {S = S} {A = A} m handler h = record { returns = λ s. go s (m s) }
  where
    go : (s : S) (r : Result A × S) → (a : A) × ((catch (λ _. r) handler s).0 ≡ ok a)
    go s (ok a, s1) = (a, refl)
    go s (err x, s1) = h.returns s1

-- What throws in a chain whose second part is safe is the first part.
failed_first {ℓ κ} :
    {S : Type 0} {A : Type ℓ} {B : Type κ} (m : Stateful S A) (f : A → Stateful S B) (s s' : S)
    (x : Error)
    → ((a : A) → IsSafe (f a))
    → ◌>>=◌ m f s ≡ (err x, s')
    → m s ≡ (err x, s')
failed_first {S = S} {A = A} {B = B} m f s s' x hf e = go (m s) refl e
  where
    thrown : (r : Result B × S) → (b : B) × (r.0 ≡ ok b) → r ≡ (err x, s') → ⊥
    thrown r (b, h) q = let p : ok b ≡ err x = sym h ∙ ap (λ t. t.0) q in grind (arith, p)

    go : (r : Result A × S) → m s ≡ r → ◌>>=◌ (λ _. r) f s ≡ (err x, s') → m s ≡ (err x, s')
    go (ok a, s1) p q = absurd (thrown (f a s1) ((hf a).returns s1) q)
    go (err y, s1) p q =
        p
        ∙ ap
            (λ (t : Result B × S).
              (elim t.0 as (λ _. Result A) [ err z ↦ err z | ok b ↦ err y ], t.1))
            q

if_safe {ℓ} :
    {S : Type 0} {A : Type ℓ} (test : Bool) (m k : Stateful S A) (s : S)
    → IsSafe m
    → IsSafe k
    → (a : A) × ((if test then m s else k s).0 ≡ ok a)
if_safe true m k s h i = h.returns s
if_safe false m k s h i = i.returns s

module _ (C : ClientSession) where
  friendly_name_part-IsSafe : IsSafe (friendly_name_part C)
  unfolding friendly_name_part forget_friendly_name
  friendly_name_part-IsSafe = record {
    returns = λ w.
        if_safe w.0.device_friendly_name_supported
          (catch (ask_friendly_name C) (forget_friendly_name C)) (return []) w
          (catch-IsSafe (ask_friendly_name C) (forget_friendly_name C)
            (record { returns = λ s. ([], refl) }))
          (record { returns = λ s. ([], refl) });
  }

  battery_part-IsSafe : IsSafe (battery_part C)
  unfolding battery_part forget_battery
  battery_part-IsSafe = record {
    returns = λ w.
        if_safe w.0.battery_supported (catch (ask_battery C) (forget_battery C)) (return []) w
          (catch-IsSafe (ask_battery C) (forget_battery C) (record { returns = λ s. ([], refl) }))
          (record { returns = λ s. ([], refl) });
  }

  build_prompt-IsSafe : IsSafe (build_prompt C)
  unfolding build_prompt
  build_prompt-IsSafe =
      bind-IsSafe (friendly_name_part C)
        (λ friendly. battery_part C >>= λ battery. change (set_prompt friendly battery))
        friendly_name_part-IsSafe
        (λ friendly.
          bind-IsSafe (battery_part C) (λ battery. change (set_prompt friendly battery))
            battery_part-IsSafe (λ battery. record { returns = λ s. (tt, refl) }))

  update_prompt-IsSafe : IsSafe (update_prompt C)
  unfolding update_prompt
  update_prompt-IsSafe = record {
    returns = λ w.
        if_safe w.0.show_prompt (build_prompt C) (change (λ c. record c { prompt = [] })) w
          build_prompt-IsSafe (record { returns = λ s. (tt, refl) });
  }

  -- The client after a method is the one before it.
  record Leaves {ℓ} {A : Type ℓ} (m : Method C A) : Type 0 where
    same : (w : Client × C.base.State) → (m w).1.0 ≡ w.0

  Leaves-bind {ℓ κ} :
      {A : Type ℓ} {B : Type κ} (m : Method C A) (f : A → Method C B)
      → Leaves m
      → ((a : A) → Leaves (f a))
      → Leaves (m >>= f)
  Leaves-bind m f hm hf = record {
    same = λ w.
        every_way (λ (u v : Client × C.base.State). v.0 ≡ u.0) (λ s t u p q. q ∙ p) m f hm.same
          (λ a. (hf a).same) w;
  }

  Leaves-if {ℓ} :
      {A : Type ℓ} (test : Bool) (m k : Method C A)
      → Leaves m
      → Leaves k
      → Leaves (if test then m else k)
  Leaves-if true m k h i = h
  Leaves-if false m k h i = i

  find_storage-Leaves : (path ids : List ℕ) → Leaves (find_storage C path ids)
  unfolding find_storage
  find_storage-Leaves path [] = record { same = λ w. refl }
  find_storage-Leaves path (id ∷ ids) =
      Leaves-bind (call (C.get_storage_info id)) _ (record { same = λ v. refl })
        (λ si.
          Leaves-if (is_storage path id si) _ _ (record { same = λ v. refl })
            (find_storage-Leaves path ids))

  get_storage_by_path-Leaves :
      (path : List ℕ) (allow_all : Bool) → Leaves (get_storage_by_path C path allow_all)
  unfolding get_storage_by_path
  get_storage_by_path-Leaves path allow_all =
      Leaves-if (allow_all && means_all path) _ _ (record { same = λ v. refl })
        (Leaves-bind (call C.base.get_storage_ids) _ (record { same = λ v. refl })
          (λ list. find_storage-Leaves path list.storage_ids))

  -- When `ChangeStorage` throws, the client has not changed: neither the current storage nor its name, and
  -- not the prompt.
  change_storage-unchanged :
      (path : List ℕ) (x : Error) (c c' : Client) (s s' : C.base.State)
      → change_storage C path (c, s) ≡ (err x, (c', s'))
      → c' ≡ c
  unfolding change_storage
  change_storage-unchanged path x c c' s s' e =
      let failed =
        failed_first (get_storage_by_path C path true)
          (λ found.
            change
              (set_storage found.0 (if not (found.0 == all_storages) then get_name found.1 else []))
            >>= λ u. update_prompt C)
          (c, s) (c', s') x
          (λ found.
            bind-IsSafe
              (change (
                set_storage found.0
                  (if not (found.0 == all_storages) then get_name found.1 else [])))
              (λ u. update_prompt C) (record { returns = λ v. (_, refl) })
              (λ u. update_prompt-IsSafe))
          e in
      ap (λ (r : Result (ℕ × Option StorageInfo) × (Client × C.base.State)). r.1.0) (sym failed)
      ∙ (get_storage_by_path-Leaves path true).same (c, s)
