-- ===== src/Session/State.antt =====
-- The state of a `Session` (mtp/ptp/Session.h), with what its pipe has sent and is to deliver. A
-- method that throws keeps the changes that it made before.
use zune_sync.Base.{
  Error, take, ℕ, ◌+◌, ◌≡◌, ap, Bool, List, [], ◌∷◌, ◌++◌, Option, none, some, u32, Result, ok, err,
}
use zune_sync.Messages.Device.{DeviceInfo}
use zune_sync.Pipe.Packeter.{Transfer}

-- `sent` are the bulk writes, `control` the cancel requests, `incoming` what the device sends next.
-- `faults` is how the next bulk writes end: whole, or after this many bytes by this exception; those behind
-- the list are whole.
pub record Session : Type 0 where
  pub next_transaction_id : ℕ
  pub transaction : Option ℕ
  pub device_info : DeviceInfo
  pub get_partial_object64_supported : Bool
  pub edit_object_supported : Bool
  pub get_object_property_list_supported : Bool
  pub get_object_prop_value_supported : Bool
  pub separate_bulk_writes : Bool
  pub sent : List (List ℕ)
  pub control : List (List ℕ)
  pub incoming : List Transfer
  pub faults : List (Option (ℕ × Error))

-- A method of the session: what it returns or throws, and the session after it.
abbrev pub Method {ℓ} : Type ℓ → Type ℓ
Method A = Session → Result A × Session

infixl 5 ◌>>=◌ ◌>>◌
abbrev pub ◌>>=◌ {ℓ κ} : {A : Type ℓ} {B : Type κ} → Method A → (A → Method B) → Method B
◌>>=◌ m f s = let r = m s in elim r.0 [ ok a ↦ f a r.1 | err e ↦ (err e, r.1) ]

abbrev pub ◌>>◌ {ℓ κ} : {A : Type ℓ} {B : Type κ} → Method A → Method B → Method B
◌>>◌ m k = m >>= λ _. k

abbrev pub return {ℓ} : {A : Type ℓ} → A → Method A
return a s = (ok a, s)

-- What does not touch the session.
abbrev pub lift {ℓ} : {A : Type ℓ} → Result A → Method A
lift r s = (r, s)

-- `SetCurrentTransaction(transaction)`, with an object and with null.
unfoldable pub begin_transaction : Session → Session
begin_transaction s = record s {
  transaction = some s.next_transaction_id;
  next_transaction_id = u32 (s.next_transaction_id + 1);
}

unfoldable pub end_transaction : Session → Session
end_transaction s = record s { transaction = none }

-- The scope of a `Transaction` object: its destructor runs on every way out.
unfoldable pub with_transaction {ℓ} : {A : Type ℓ} → (ℕ → Method A) → Method A
with_transaction body s =
    let r = body s.next_transaction_id (begin_transaction s) in (r.0, end_transaction (r.1))

-- `_packeter.Write`: the pipe takes the whole stream, or throws midway.
unfoldable pub write_with : List (Option (ℕ × Error)) → List ℕ → Method (Unit {0})
write_with [] bytes s = (ok tt, record s { sent = s.sent ++ (bytes ∷ []) })
write_with (none ∷ faults) bytes s =
    (ok tt, record s { sent = s.sent ++ (bytes ∷ []); faults = faults })
write_with (some (n, e) ∷ faults) bytes s =
    (err e, record s { sent = s.sent ++ (take n bytes ∷ []); faults = faults })

unfoldable pub write : List ℕ → Method (Unit {0})
write bytes s = write_with s.faults bytes s

pub write-whole :
    (bytes : List ℕ) (s : Session)
    → s.faults ≡ []
    → write bytes s ≡ (ok tt, record s { sent = s.sent ++ (bytes ∷ []) })
unfolding write write_with
write-whole bytes s h = ap (λ f. write_with f bytes s) h

pub then_ok {ℓ κ} :
    {A : Type ℓ} {B : Type κ} (m : Method A) (f : A → Method B) (s : Session) (a : A) (s' : Session)
    → m s ≡ (ok a, s')
    → ◌>>=◌ m f s ≡ f a s'
then_ok m f s a s' e = ap (λ r. ◌>>=◌ (λ _. r) f s) e
