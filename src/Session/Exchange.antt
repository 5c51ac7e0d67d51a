-- ===== src/Session/Exchange.antt =====
-- A whole transaction of `Session`: what goes out, and what comes back.
use zune_sync.Base.{
  refl, take-all, if◌then◌else◌, ℕ, ◌+◌, ◌≤◌, ◌≡◌, sym, ap, ◌∙◌, Bool, true, false, Bool-cases, inl,
  inr, List, [], ◌∷◌, ◌++◌, append_assoc, append-nil, length, length-append, flatten,
  flatten-append, arith, Option, none, some, u32, ok,
}
use zune_sync.Stream.Codec.{le16, le32}
use zune_sync.Messages.Object.{max_object_size}
use zune_sync.Messages.Device.{supports_operation}
use zune_sync.Codes.ResponseType
use zune_sync.Request.{
  parameters_bytes, operation_request-bytes, data_request-bytes, container-bytes,
  stream_container-bytes, length-le32, length-parameters_bytes,
}
use zune_sync.Request.ContainerType
use zune_sync.Pipe.ByteStreams.{ByteArrayOutput, output_write}
use zune_sync.Pipe.Header.{IsSink-output, output_push}
use zune_sync.Pipe.Packeter.{Transfer, Answer, read, read_bytes}
use zune_sync.Pipe.Exchange.{Frame}
use zune_sync.Pipe.Answers.{Accepts, AllStale, Carries, transfers, read-exchange}
use zune_sync.Base
use zune_sync.Pipe.ByteStreams.{input_new}
use zune_sync.Pipe.Joined.{JoinedInput, joined_size}
use zune_sync.Pipe.JoinedReading.{IsReading, joined_read-left}
use zune_sync.Session.State.{
  Session, Method, ◌>>=◌, ◌>>◌, return, lift, begin_transaction, end_transaction, with_transaction,
  write, write-whole, then_ok,
}
use zune_sync.Session.Transaction.{
  send, check_response, receive, get, send_data, joined_bytes, send_optional_data,
  run_transaction_with_data,
}

-- The message that begins an operation.
abbrev pub command_bytes : ℕ → ℕ → List ℕ → List ℕ
command_bytes code transaction args =
    let body = (le16 code ++ le32 transaction) ++ parameters_bytes args in
    le32 (length body + 6) ++ (le16 ContainerType.command ++ body)

-- The head of the message with the data of an operation.
abbrev pub data_head : ℕ → ℕ → ℕ → List ℕ
data_head code transaction size =
    let body = le16 code ++ le32 transaction in
    le32 (size + length body + 6) ++ (le16 ContainerType.data_block ++ body)

-- The writes of the data phase: the stream apart or joined to the head.
abbrev pub data_writes : Bool → ℕ → ℕ → Option (List ℕ) → List (List ℕ)
data_writes separate code transaction none = []
data_writes true code transaction (some stream) =
    data_head code transaction (length stream) ∷ stream ∷ []
data_writes false code transaction (some stream) =
    (data_head code transaction (length stream) ++ stream) ∷ []

-- The data of an operation fit the size field.
abbrev pub Fits : Option (List ℕ) → Type 0
Fits none = Unit
Fits (some stream) = length stream + 12 ≤ max_object_size

pub send-sent :
    (code transaction : ℕ) (args : List ℕ) (s : Session)
    → length args ≤ 5
    → s.faults ≡ []
    → send code transaction args s
      ≡ (ok tt, record s { sent = s.sent ++ (command_bytes code transaction args ∷ []) })
unfolding send
send-sent code transaction args s h whole =
    let body = (le16 code ++ le32 transaction) ++ parameters_bytes args in
    let size : length body + 6 ≤ max_object_size = omega (
      arith,
      length-append (le16 code ++ le32 transaction) (parameters_bytes args),
      length-append (le16 code) (le32 transaction),
      length-le32 transaction,
      length-parameters_bytes args,
    ) in
    rw
      (
        operation_request-bytes code transaction args,
        container-bytes ContainerType.command body size,
      )
      (write-whole (command_bytes code transaction args) s whole)

joined_bytes-append : (head stream : List ℕ) → joined_bytes head stream ≡ ok (head ++ stream)
unfolding joined_bytes joined_size input_new
joined_bytes-append head stream =
    let joined : JoinedInput = record {
      stream1 = input_new head;
      stream2 = input_new stream;
      exhausted = false;
      cancelled = false;
    } in
    let reading : IsReading joined = record {
      uncancelled = refl;
      uncancelled1 = refl;
      uncancelled2 = refl;
      emptied = λ e. absurd (grind (arith, e));
    } in
    let (rest, got, _, _) = joined_read-left joined (length head + length stream) reading in
    ap (λ r. Base.◌>>=◌ r (λ p. ok p.0)) got
    ∙ ap ok (
        take-all (length head + length stream) (head ++ stream)
          (omega (arith, length-append head stream)))

-- The writes of the data phase, apart or joined.
writes-sent :
    (separate : Bool) (code transaction : ℕ) (stream : List ℕ) (s : Session)
    → s.faults ≡ []
    → let head = data_head code transaction (length stream) in
      (if separate
        then (write head >> write stream) s
        else (lift (joined_bytes head stream) >>= λ joined. write joined) s)
      ≡ (ok tt, record s { sent = s.sent ++ data_writes separate code transaction (some stream) })
writes-sent true code transaction stream s whole =
    let head = data_head code transaction (length stream) in
    let after = record s { sent = s.sent ++ (head ∷ []) } in
    then_ok (write head) (λ _. write stream) s tt after (write-whole head s whole)
    ∙ write-whole stream after whole
    ∙ ap (λ t. (ok tt, record s { sent = t })) (append_assoc s.sent (head ∷ []) (stream ∷ []))
writes-sent false code transaction stream s whole =
    let head = data_head code transaction (length stream) in
    ap (λ r. (lift r >>= λ joined. write joined) s) (joined_bytes-append head stream)
    ∙ write-whole (head ++ stream) s whole

pub send_optional_data-sent :
    (code transaction : ℕ) (stream : Option (List ℕ)) (s : Session)
    → Fits stream
    → s.faults ≡ []
    → send_optional_data code transaction stream s ≡ (
      ok tt,
      record s { sent = s.sent ++ data_writes s.separate_bulk_writes code transaction stream },
    )
unfolding send_optional_data send_data
send_optional_data-sent code transaction none s h whole = rw (append-nil s.sent)
send_optional_data-sent code transaction (some stream) s h whole =
    let body = le16 code ++ le32 transaction in
    let size : length stream + length body + 6 ≤ max_object_size =
      omega (arith, h, length-append (le16 code) (le32 transaction), length-le32 transaction) in
    rw
      (
        data_request-bytes code transaction,
        stream_container-bytes ContainerType.data_block body (length stream) size,
      )
      (writes-sent s.separate_bulk_writes code transaction stream s whole)

-- Reading the answer into byte arrays: a data message and the response, with stale ones around.
get-answered :
    (transaction : ℕ) (s : Session) (before between : List (Transfer × Frame)) (t u : Transfer)
    (f g : Frame) (ts : List Transfer)
    → s.incoming ≡ transfers before (t ∷ transfers between (u ∷ ts))
    → AllStale transaction before
    → AllStale transaction between
    → Carries t f
    → Accepts transaction f
    → f.header.container_type ≡ ContainerType.data_block
    → Carries u g
    → Accepts transaction g
    → g.header.container_type ≡ ContainerType.response
    → g.header.response_type ≡ ResponseType.ok
    → get transaction s ≡ (ok (f.payload, g.payload), record s { incoming = ts })
unfolding get receive read_bytes check_response
get-answered transaction s before between t u f g ts e hb hm ct aq dt cu au du k =
    let empty : ByteArrayOutput = record { bytes = []; cancelled = false } in
    let answer : Answer ByteArrayOutput = record {
      code = some g.header.response_type;
      response = g.payload;
      sink = output_push empty f.payload;
    } in
    let answered : receive transaction s ≡ (ok answer, record s { incoming = ts }) =
      ap (λ r. (r.0, record s { incoming = r.1 }))
        (ap (read output_write transaction empty) e
          ∙ read-exchange output_write output_push transaction empty (IsSink-output []) before
              between t u f g ts hb hm ct aq dt cu au du) in
    let finish : Answer ByteArrayOutput → Method (List ℕ × List ℕ) =
      λ a. lift (check_response a.code) >>= λ _. return (a.sink.bytes, a.response) in
    let checked : finish answer (record s { incoming = ts })
        ≡ (ok (f.payload, g.payload), record s { incoming = ts }) =
      rw (k) in
    then_ok (receive transaction) finish s answer (record s { incoming = ts }) answered ∙ checked

-- A transaction over a pipe that takes every write, on an operation that the device knows, with at most five arguments and with data that
-- fit the size field, if any. The device answers by a data frame and an OK response, possibly with
-- stale frames before each. Then it gives the data and the response, the pipe got the command and the
-- data phase, no transaction is current, the next has the next number modulo 2^32, and the transfers
-- behind the response are left for it.
pub run_transaction_with_data-answered :
    (code : ℕ) (stream : Option (List ℕ)) (args : List ℕ) (s : Session)
    (before between : List (Transfer × Frame)) (t u : Transfer) (f g : Frame) (ts : List Transfer)
    → supports_operation s.device_info code ≡ true
    → length args ≤ 5
    → Fits stream
    → s.faults ≡ []
    → s.incoming ≡ transfers before (t ∷ transfers between (u ∷ ts))
    → AllStale s.next_transaction_id before
    → AllStale s.next_transaction_id between
    → Carries t f
    → Accepts s.next_transaction_id f
    → f.header.container_type ≡ ContainerType.data_block
    → Carries u g
    → Accepts s.next_transaction_id g
    → g.header.container_type ≡ ContainerType.response
    → g.header.response_type ≡ ResponseType.ok
    → run_transaction_with_data code stream args s ≡ (
      ok (f.payload, g.payload),
      record s {
        transaction = none;
        next_transaction_id = u32 (s.next_transaction_id + 1);
        sent =
            s.sent
            ++ (command_bytes code s.next_transaction_id args
                ∷ data_writes s.separate_bulk_writes code s.next_transaction_id stream);
        incoming = ts;
      },
    )
unfolding run_transaction_with_data with_transaction begin_transaction end_transaction
run_transaction_with_data-answered code stream args s before between t u f g ts h n fits whole e hb
      hm ct aq dt cu au du k =
    let id = s.next_transaction_id in
    let begun = begin_transaction s in
    let commanded = record begun { sent = s.sent ++ (command_bytes code id args ∷ []) } in
    let written = record commanded {
      sent = commanded.sent ++ data_writes s.separate_bulk_writes code id stream;
    } in
    rw (h) (
      ap (λ r. (r.0, end_transaction (r.1)))
        (then_ok (send code id args) (λ _. send_optional_data code id stream >>= λ _. get id) begun
            tt commanded (send-sent code id args begun n whole)
          ∙ then_ok (send_optional_data code id stream) (λ _. get id) commanded tt written
              (send_optional_data-sent code id stream commanded fits whole)
          ∙ get-answered id written before between t u f g ts e hb hm ct aq dt cu au du k)
      ∙ rw (append_assoc s.sent (command_bytes code id args ∷ [])))

-- Whether the head of the data goes apart or by a `JoinedObjectInputStream` with the stream, the pipe gets
-- the same bytes, for data that fit the size field and over a pipe that takes every write.
pub send_data-same_bytes :
    (code transaction : ℕ) (stream : List ℕ) (s : Session)
    → length stream + 12 ≤ max_object_size
    → s.faults ≡ []
    → flatten (
        (send_optional_data code transaction
          (some stream)
          (record s { separate_bulk_writes = true })).1.sent)
      ≡ flatten (
          (send_optional_data code transaction
            (some stream)
            (record s { separate_bulk_writes = false })).1.sent)
send_data-same_bytes code transaction stream s h whole =
    let head = data_head code transaction (length stream) in
    rw
      (
        send_optional_data-sent code transaction (some stream)
            (record s { separate_bulk_writes = true }) h whole,
        send_optional_data-sent code transaction (some stream)
            (record s { separate_bulk_writes = false }) h whole,
        flatten-append s.sent (data_writes true code transaction (some stream)),
        flatten-append s.sent (data_writes false code transaction (some stream)),
      )
      (ap (λ xs. flatten s.sent ++ xs) (sym (append_assoc head stream [])))
