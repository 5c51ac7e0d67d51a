-- ===== src/Session/Scope.antt =====
-- The scope of a transaction in `Session`: its number, and what is left behind on every way out.
use zune_sync.Base.{
  [], ◌∷◌, ℕ, ◌+◌, ◌≡◌, refl, ◌∙◌, Bool, true, false, if◌then◌else◌, Bool-cases, inl, inr, List,
  length, Option, none, some, u32, Error, Result, ok, err,
}
use zune_sync.Messages.Device.{supports_operation}
use zune_sync.Request.{operation_request, data_request, container, stream_container}
use zune_sync.Request.ContainerType
use zune_sync.Session.State.{
  Session, Method, ◌>>=◌, lift, begin_transaction, end_transaction, with_transaction, write,
  write_with,
}
use zune_sync.Session.Transaction.{
  send, check_response, get, receive, send_data, joined_bytes, send_optional_data,
  run_transaction_with_data,
}

-- The method neither takes a transaction number nor changes which transaction is current.
pub record Keeps {ℓ} {A : Type ℓ} (m : Method A) : Type ℓ where
  pub next : (s : Session) → (m s).1.next_transaction_id ≡ s.next_transaction_id
  pub current : (s : Session) → (m s).1.transaction ≡ s.transaction

Keeps-lift {ℓ} : {A : Type ℓ} (r : Result A) → Keeps (lift r)
Keeps-lift r = record { next = λ s. refl; current = λ s. refl }

after_next {ℓ κ} :
    {A : Type ℓ} {B : Type κ} (f : A → Method B) (k : (a : A) → Keeps (f a))
    (r : Result A × Session)
    → (◌>>=◌ (λ _. r) f (r.1)).1.next_transaction_id ≡ r.1.next_transaction_id
after_next f k (ok a, s) = (k a).next s
after_next f k (err e, s) = refl

after_current {ℓ κ} :
    {A : Type ℓ} {B : Type κ} (f : A → Method B) (k : (a : A) → Keeps (f a))
    (r : Result A × Session)
    → (◌>>=◌ (λ _. r) f (r.1)).1.transaction ≡ r.1.transaction
after_current f k (ok a, s) = (k a).current s
after_current f k (err e, s) = refl

Keeps-bind {ℓ κ} :
    {A : Type ℓ} {B : Type κ} (m : Method A) (f : A → Method B)
    → Keeps m
    → ((a : A) → Keeps (f a))
    → Keeps (m >>= f)
Keeps-bind m f km kf = record {
  next = λ s. after_next f kf (m s) ∙ km.next s;
  current = λ s. after_current f kf (m s) ∙ km.current s;
}

write_with-next :
    (faults : List (Option (ℕ × Error))) (bytes : List ℕ) (s : Session)
    → (write_with faults bytes s).1.next_transaction_id ≡ s.next_transaction_id
unfolding write_with
write_with-next [] bytes s = refl
write_with-next (none ∷ faults) bytes s = refl
write_with-next (some f ∷ faults) bytes s = refl

write_with-current :
    (faults : List (Option (ℕ × Error))) (bytes : List ℕ) (s : Session)
    → (write_with faults bytes s).1.transaction ≡ s.transaction
unfolding write_with
write_with-current [] bytes s = refl
write_with-current (none ∷ faults) bytes s = refl
write_with-current (some f ∷ faults) bytes s = refl

Keeps-write : (bytes : List ℕ) → Keeps (write bytes)
unfolding write
Keeps-write bytes = record {
  next = λ s. write_with-next s.faults bytes s;
  current = λ s. write_with-current s.faults bytes s;
}

Keeps-send : (code transaction : ℕ) (args : List ℕ) → Keeps (send code transaction args)
unfolding send
Keeps-send code transaction args =
    Keeps-bind _ _ (Keeps-lift (operation_request code transaction args)) λ request.
      Keeps-bind _ _ (Keeps-lift (container ContainerType.command request))
        λ bytes. Keeps-write bytes

Keeps-receive : (transaction : ℕ) → Keeps (receive transaction)
unfolding receive
Keeps-receive transaction = record { next = λ s. refl; current = λ s. refl }

Keeps-get : (transaction : ℕ) → Keeps (get transaction)
unfolding get
Keeps-get transaction = Keeps-bind _ _ (Keeps-receive transaction) λ answer.
    Keeps-bind _ _ (Keeps-lift (check_response answer.code))
      λ _. Keeps-lift (ok (answer.sink.bytes, answer.response))

Keeps-if {ℓ} :
    {A : Type ℓ} (test : Session → Bool) (m k : Method A)
    → Keeps m
    → Keeps k
    → Keeps (λ s. if test s then m s else k s)
Keeps-if test m k km kk = record {
  next =
      λ s. elim (Bool-cases (test s)) [ inl e ↦ rw (e) (km.next s) | inr e ↦ rw (e) (kk.next s) ];
  current = λ s. elim (Bool-cases (test s)) [
    | inl e ↦ rw (e) (km.current s)
    | inr e ↦ rw (e) (kk.current s)
  ];
}

Keeps-send_data :
    (code transaction : ℕ) (stream : List ℕ) → Keeps (send_data code transaction stream)
unfolding send_data
Keeps-send_data code transaction stream =
    Keeps-bind _ _ (Keeps-lift (data_request code transaction)) λ request.
      Keeps-bind _ _
        (Keeps-lift (stream_container ContainerType.data_block request (length stream)))
        λ bytes.
          Keeps-if (λ s. s.separate_bulk_writes) _ _
            (Keeps-bind _ _ (Keeps-write bytes) (λ _. Keeps-write stream))
            (Keeps-bind _ _ (Keeps-lift (joined_bytes bytes stream)) (λ joined. Keeps-write joined))

Keeps-send_optional_data :
    (code transaction : ℕ) (stream : Option (List ℕ))
    → Keeps (send_optional_data code transaction stream)
unfolding send_optional_data
Keeps-send_optional_data code transaction none = Keeps-lift (ok tt)
Keeps-send_optional_data code transaction (some stream) = Keeps-send_data code transaction stream

-- Whatever the device answers, and whichever writes fail, an operation that it knows takes one number,
-- counted modulo 2^32, and no transaction is current behind it, neither on a result nor on an exception.
pub run_transaction_with_data-closes :
    (code : ℕ) (stream : Option (List ℕ)) (args : List ℕ) (s : Session)
    → supports_operation s.device_info code ≡ true
    → ((run_transaction_with_data code stream args s).1.transaction ≡ none)
      × ((run_transaction_with_data code stream args s).1.next_transaction_id
          ≡ u32 (s.next_transaction_id + 1))
unfolding run_transaction_with_data with_transaction begin_transaction end_transaction
run_transaction_with_data-closes code stream args s h = rw (h) (
  refl,
  (Keeps-bind _ _ (Keeps-send code s.next_transaction_id args) λ _.
        Keeps-bind _ _ (Keeps-send_optional_data code s.next_transaction_id stream)
          λ _. Keeps-get s.next_transaction_id).next
      (begin_transaction s),
)

-- An operation that the device does not know is refused with its code: no number is taken, and
-- nothing is sent or read.
run_transaction_with_data-unsupported :
    (code : ℕ) (stream : Option (List ℕ)) (args : List ℕ) (s : Session)
    → supports_operation s.device_info code ≡ false
    → run_transaction_with_data code stream args s ≡ (err (Error.not_supported code), s)
unfolding run_transaction_with_data
run_transaction_with_data-unsupported code stream args s h = rw (h)
