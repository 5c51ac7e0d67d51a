-- ===== src/Session/Confirmed.antt =====
-- A transaction that the device answers by a response alone: the operations that set something.
use zune_sync.Base.{
  ℕ, ◌+◌, ◌*◌, ◌≤◌, ◌≡◌, refl, ap, ◌∙◌, true, false, List, [], ◌∷◌, ◌++◌, length, length-append,
  append_assoc, Option, some, none, u32, ok, arith,
}
use zune_sync.Codes.OperationCode
use zune_sync.Codes.ResponseType
use zune_sync.Messages.Object.{max_object_size, write_object_handles}
use zune_sync.Messages.Device.{supports_operation}
use zune_sync.Stream.Output.{write32}
use zune_sync.Stream.Codec.{le32, write32-Encodes}
use zune_sync.Stream.Arrays.{array_bytes, elements_bytes, write_array-Encodes}
use zune_sync.Request.{length-le32}
use zune_sync.Request.ContainerType
use zune_sync.Pipe.ByteStreams.{ByteArrayOutput, output_write}
use zune_sync.Pipe.Header.{IsSink-output, output_push}
use zune_sync.Pipe.Packeter.{Transfer, Answer, read, read_bytes}
use zune_sync.Pipe.Exchange.{Frame}
use zune_sync.Pipe.Answers.{Accepts, AllStale, Carries, transfers, read-AllStale, read-response}
use zune_sync.Session.State.{
  Session, Method, ◌>>=◌, return, lift, begin_transaction, end_transaction, with_transaction,
  then_ok,
}
use zune_sync.Session.Transaction.{
  send, check_response, receive, get, send_optional_data, run_transaction_with_data,
}
use zune_sync.Session.Objects.{set_object_references}
use zune_sync.Session.Exchange.{
  command_bytes, data_writes, Fits, send-sent, send_optional_data-sent,
}

-- Stale frames, and then the response.
pub record IsConfirmed (transaction : ℕ) (incoming : List Transfer)
    (before : List (Transfer × Frame)) (u : Transfer) (g : Frame) (ts : List Transfer)
    : Type 0 where
  pub delivered : incoming ≡ transfers before (u ∷ ts)
  pub stale : AllStale transaction before
  pub carries : Carries u g
  pub accepts : Accepts transaction g
  pub is_response : g.header.container_type ≡ ContainerType.response
  pub is_ok : g.header.response_type ≡ ResponseType.ok

module _ (before : List (Transfer × Frame)) (u : Transfer) (g : Frame) (ts : List Transfer) where
  get-confirmed :
      (transaction : ℕ) (s : Session)
      → IsConfirmed transaction s.incoming before u g ts
      → get transaction s ≡ (ok ([], g.payload), record s { incoming = ts })
  unfolding get receive read_bytes check_response
  get-confirmed transaction s c =
      let empty : ByteArrayOutput = record { bytes = []; cancelled = false } in
      let answer : Answer ByteArrayOutput = record {
        code = some g.header.response_type;
        response = g.payload;
        sink = empty;
      } in
      let sink = IsSink-output [] in
      let answered : receive transaction s ≡ (ok answer, record s { incoming = ts }) =
        ap (λ r. (r.0, record s { incoming = r.1 }))
          (ap (read output_write transaction empty) c.delivered
            ∙ read-AllStale output_write output_push transaction empty sink before (u ∷ ts) c.stale
            ∙ read-response output_write output_push transaction empty sink u g ts c.carries
                c.accepts c.is_response) in
      let finish : Answer ByteArrayOutput → Method (List ℕ × List ℕ) =
        λ a. lift (check_response a.code) >>= λ _. return (a.sink.bytes, a.response) in
      let code_ok = c.is_ok in
      let checked : finish answer (record s { incoming = ts })
          ≡ (ok ([], g.payload), record s { incoming = ts }) =
        rw (code_ok) in
      then_ok (receive transaction) finish s answer (record s { incoming = ts }) answered ∙ checked

  -- The session behind an operation with data.
  abbrev pub behind : ℕ → List ℕ → Option (List ℕ) → Session → Session
  behind code args stream s = record s {
    transaction = none;
    next_transaction_id = u32 (s.next_transaction_id + 1);
    sent =
        s.sent
        ++ (command_bytes code s.next_transaction_id args
            ∷ data_writes s.separate_bulk_writes code s.next_transaction_id stream);
    incoming = ts;
  }

  run_transaction_with_data-confirmed :
      (code : ℕ) (stream : Option (List ℕ)) (args : List ℕ) (s : Session)
      → supports_operation s.device_info code ≡ true
      → length args ≤ 5
      → Fits stream
      → s.faults ≡ []
      → IsConfirmed s.next_transaction_id s.incoming before u g ts
      → run_transaction_with_data code stream args s
        ≡ (ok ([], g.payload), behind code args stream s)
  unfolding run_transaction_with_data with_transaction begin_transaction end_transaction
  run_transaction_with_data-confirmed code stream args s h n fits whole c =
      let id = s.next_transaction_id in
      let begun = begin_transaction s in
      let commanded = record begun { sent = s.sent ++ (command_bytes code id args ∷ []) } in
      let written = record commanded {
        sent = commanded.sent ++ data_writes s.separate_bulk_writes code id stream;
      } in
      rw (h) (
        ap (λ r. (r.0, end_transaction (r.1)))
          (then_ok (send code id args) (λ _. send_optional_data code id stream >>= λ _. get id)
              begun tt commanded (send-sent code id args begun n whole)
            ∙ then_ok (send_optional_data code id stream) (λ _. get id) commanded tt written
                (send_optional_data-sent code id stream commanded fits whole)
            ∙ get-confirmed id written c)
        ∙ rw (append_assoc s.sent (command_bytes code id args ∷ [])))

  length-elements : (xs : List ℕ) → length (elements_bytes le32 xs) ≡ 4 * length xs
  length-elements [] = refl
  length-elements (x ∷ xs) =
      omega
        (arith, length-append (le32 x) (elements_bytes le32 xs), length-le32 x, length-elements xs)

  pub set_object_references-confirmed :
      (id : ℕ) (handles : List ℕ) (s : Session)
      → supports_operation s.device_info OperationCode.set_object_references ≡ true
      → 4 * length handles + 16 ≤ max_object_size
      → s.faults ≡ []
      → IsConfirmed s.next_transaction_id s.incoming before u g ts
      → set_object_references id (record { object_handles = handles }) s ≡ (
        ok tt,
        behind OperationCode.set_object_references (id ∷ []) (some (array_bytes le32 handles)) s,
      )
  unfolding set_object_references write_object_handles
  set_object_references-confirmed id handles s h size whole c =
      let bytes = array_bytes le32 handles in
      let fits : length bytes + 12 ≤ max_object_size = omega (
        arith,
        size,
        length-append (le32 (length handles)) (elements_bytes le32 handles),
        length-le32 (length handles),
        length-elements handles,
      ) in
      rw (write_array-Encodes le32 write32 write32-Encodes handles []) (
        then_ok
          (run_transaction_with_data OperationCode.set_object_references (some bytes) (id ∷ []))
          (λ _. return tt) s ([], g.payload)
          (behind OperationCode.set_object_references (id ∷ []) (some bytes) s)
          (run_transaction_with_data-confirmed OperationCode.set_object_references (some bytes)
            (id ∷ []) s h (omega arith) fits whole c))
