-- ===== src/Pipe/Packeter.antt =====
-- `PipePacketer` of mtp/ptp/PipePacketer.cpp.
use zune_sync.Base.{
  ℕ, true, false, not, List, [], ◌∷◌, Option, none, some, Error, Result, ok, err, if◌then◌else◌,
  ◌>>=◌, ◌==◌,
}
use zune_sync.Stream.Input.{run, read16, read32}
use zune_sync.Stream.Input
use zune_sync.Request.ContainerType
use zune_sync.Pipe.ByteStreams.{ByteArrayOutput, output_write}
use zune_sync.Pipe.Parser.{
  MessageParser, header_parser_new, message_parser_new, message_parser_write, message_finished,
}

-- One `_pipe->Read(...)`: the device hands over some chunks, each to the stream's `Write`.
abbrev pub Transfer : Type 0
Transfer = List (List ℕ)

-- What `Read` gives back: the code, the response and the caller's stream.
pub record Answer (Sink : Type 0) : Type 0 where
  pub code : Option ℕ
  pub response : List ℕ
  pub sink : Sink

-- The parsers that `Read` makes when it has none.
unfoldable pub fresh : {Sink : Type 0} → ℕ → Sink → MessageParser Sink
fresh transaction sink = message_parser_new (header_parser_new transaction sink)

module _ {Sink : Type 0} (sink_write : Sink → List ℕ → Result (ℕ × Sink)) where
  -- `ReadMessage`
  unfoldable pub read_message : MessageParser Sink → Transfer → Result (MessageParser Sink)
  read_message m [] = ok m
  read_message m (chunk ∷ chunks) =
      message_parser_write sink_write m chunk >>= λ r. read_message (r.1) chunks

  -- The loop of `Read`, with the transfers that the pipe has not read yet. Where no transfer is
  -- left, the pipe's read ends by a time-out.
  unfoldable pub read_loop :
      ℕ → MessageParser Sink → List Transfer → Result (Answer Sink) × List Transfer
  read_loop transaction m [] = (err Error.timeout, [])
  read_loop transaction m (t ∷ ts) = elim (read_message m t) [
    | err e ↦ (err e, ts)
    | ok m' ↦ elim m'.stream.finished [
      | true ↦ (
        ok (record {
          code = m'.stream.response_code;
          response = m'.stream.response.bytes;
          sink = m'.stream.data_output;
        }),
        ts,
      )
      | false ↦
          read_loop transaction
            (if message_finished m' then fresh transaction m'.stream.data_output else m') ts
    ]
  ]

  -- `Read(transaction, object, code, response, timeout)`
  unfoldable pub read : ℕ → Sink → List Transfer → Result (Answer Sink) × List Transfer
  read transaction sink ts = read_loop transaction (fresh transaction sink) ts

-- `Read(transaction, data, code, response, timeout)`: the data go to a new byte array.
unfoldable pub read_bytes : ℕ → List Transfer → Result (Answer ByteArrayOutput) × List Transfer
read_bytes transaction ts =
    read output_write transaction (record { bytes = []; cancelled = false }) ts

-- `PollEvent` on what the interrupt pipe gave: nothing, an event code, or an error.
unfoldable pub poll_event : List ℕ → Result (Option ℕ)
poll_event [] = ok none
poll_event (b ∷ bytes) = run event (b ∷ bytes)
  where
    event : Input.Reader (Option ℕ)
    event = Input.◌>>=◌ read32 λ size. Input.◌>>=◌ read16 λ container_type.
        Input.◌>>=◌ read16 λ event_code. Input.◌>>=◌ read32 λ session_id.
          Input.◌>>=◌ read32 λ transaction_id.
            if not (container_type == ContainerType.event)
            then Input.throw Error.not_an_event
            else Input.return (some event_code)
