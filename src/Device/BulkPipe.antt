-- ===== src/Device/BulkPipe.antt =====
-- mtp/usb/BulkPipe.cpp: the choice of the endpoints, and the stream that is being transferred.
use zune_sync.Base.{
  ℕ, ◌==◌, Bool, true, false, if◌then◌else◌, List, [], ◌∷◌, Option, none, some, Error, Result, ok,
  err,
}
use zune_sync.Base.Stateful.{Stateful}

-- `EndpointType` and `EndpointDirection` of mtp/usb/types.h.
pub data EndpointType : Type 0 where
  control isochronous bulk interrupt : EndpointType

pub data EndpointDirection : Type 0 where
  in_direction out_direction both : EndpointDirection

pub record Endpoint : Type 0 where
  pub address : ℕ
  pub direction : EndpointDirection
  pub type : EndpointType

-- The variables of `Create`.
pub record Choice : Type 0 where
  pub out_endpoint : Option Endpoint
  pub in_endpoint : Option Endpoint
  pub interrupt_endpoint : Option Endpoint

abbrev pub is_bulk : EndpointType → Bool
is_bulk EndpointType.bulk = true
is_bulk EndpointType.control = false
is_bulk EndpointType.isochronous = false
is_bulk EndpointType.interrupt = false

abbrev pub is_out : EndpointDirection → Bool
is_out EndpointDirection.out_direction = true
is_out EndpointDirection.in_direction = false
is_out EndpointDirection.both = false

-- One round of the loop.
unfoldable pub choose : Endpoint → Choice → Choice
choose ep c =
    if is_out ep.direction
    then (if is_bulk ep.type then record c { out_endpoint = some ep } else c)
    else if is_bulk ep.type
    then record c { in_endpoint = some ep }
    else record c { interrupt_endpoint = some ep }

unfoldable pub choose_all : List Endpoint → Choice → Choice
choose_all [] c = c
choose_all (ep ∷ eps) c = choose_all eps (choose ep c)

pub record Endpoints : Type 0 where
  pub input : Endpoint
  pub output : Endpoint
  pub event : Endpoint

-- The test behind the loop.
unfoldable pub endpoints_of : Option Endpoint → Option Endpoint → Option Endpoint → Result Endpoints
endpoints_of (some input) (some output) (some event) =
    ok (record { input = input; output = output; event = event })
endpoints_of none output event = err Error.invalid_endpoint
endpoints_of (some input) none event = err Error.invalid_endpoint
endpoints_of (some input) (some output) none = err Error.invalid_endpoint

-- `BulkPipe::Create`
unfoldable pub create : List Endpoint → Result Endpoints
create eps =
    let c =
      choose_all eps
        (record { out_endpoint = none; in_endpoint = none; interrupt_endpoint = none }) in
    endpoints_of c.in_endpoint c.out_endpoint c.interrupt_endpoint

-- A pipe in use: `_currentStream`, a number of a stream or null; the streams that were cancelled; and
-- the device.
pub record Pipe (D : Type 0) : Type 0 where
  pub current_stream : Option ℕ
  pub cancelled : ℕ → Bool
  pub device : D

module _ {D : Type 0} where
  unfoldable pub set_current_stream : Option ℕ → Pipe D → Pipe D
  set_current_stream stream p = record p { current_stream = stream }

  -- `CurrentStreamSetter` around a transfer: the destructor runs on every way out. During the transfer
  -- other threads may call `Cancel`, so that it runs on the whole pipe.
  unfoldable pub with_stream : {A : Type 0} → Option ℕ → Stateful (Pipe D) A → Stateful (Pipe D) A
  with_stream stream transfer p =
      let r = transfer (set_current_stream stream p) in (r.0, set_current_stream none r.1)

  -- `Cancel`: `stream->Cancel()`, if there is one.
  unfoldable pub cancel : Pipe D → Pipe D
  cancel p = elim p.current_stream [
    | none ↦ p
    | some stream ↦ record p { cancelled = λ s. if s == stream then true else p.cancelled s }
  ]

-- `Read` and `Write` on the device's `ReadBulk` and `WriteBulk`.
module _ {D : Type 0} (transfer_bulk : Endpoint → ℕ → ℕ → Stateful (Pipe D) (Unit {0})) where
  unfoldable pub read : Endpoints → ℕ → ℕ → Stateful (Pipe D) (Unit {0})
  read e stream timeout = with_stream (some stream) (transfer_bulk e.input stream timeout)

  unfoldable pub write : Endpoints → ℕ → ℕ → Stateful (Pipe D) (Unit {0})
  write e stream timeout = with_stream (some stream) (transfer_bulk e.output stream timeout)

-- `ReadInterrupt`: a timeout is an empty array, and any other exception goes on.
module _ {D : Type 0} (read_bulk : Endpoint → ℕ → Stateful (Pipe D) (List ℕ)) where
  unfoldable pub or_empty : Result (List ℕ) → Result (List ℕ)
  or_empty (ok bytes) = ok bytes
  or_empty (err Error.timeout) = ok []
  or_empty (err e) = err e

  unfoldable pub read_interrupt : Endpoints → ℕ → Stateful (Pipe D) (List ℕ)
  read_interrupt e timeout p = let r = read_bulk e.event timeout p in (or_empty r.0, r.1)
