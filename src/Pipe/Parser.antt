-- ===== src/Pipe/Parser.antt =====
-- The two stream classes of mtp/ptp/PipePacketer.cpp that take a message apart as it arrives.
use zune_sync.Base.{
  ℕ, ◌+◌, Bool, true, false, not, ◌&&◌, List, [], length, ltb, leb, ◌==◌, Option, none, some, Error,
  Result, ok, err, if◌then◌else◌, ◌>>=◌,
}
use zune_sync.Stream.Input.{run, read32}
use zune_sync.Request.{Response, read_response, response_size}
use zune_sync.Request.ContainerType
use zune_sync.Pipe.ByteStreams.{
  ByteArrayOutput, output_write, FixedSizeOutput, fixed_new, fixed_write,
}
use zune_sync.Pipe.Joined.{JoinedOutput, joined_write}

-- What `_output` points to.
pub data Target : Type 0 where
  to_data to_response to_nothing : Target

-- `Sink` is the object that the caller passes for the data, with its `Write`.
pub record HeaderParser (Sink : Type 0) : Type 0 where
  pub cancelled : Bool
  pub exhausted : Bool
  pub offset : ℕ
  pub transaction : ℕ
  pub header : FixedSizeOutput
  pub response : ByteArrayOutput
  pub data_output : Sink
  pub output : Option Target
  pub valid : Bool
  pub finished : Bool
  pub response_code : Option ℕ

pub record MessageParser (Sink : Type 0) : Type 0 where
  pub cancelled : Bool
  pub exhausted : Bool
  pub header : FixedSizeOutput
  pub stream : HeaderParser Sink
  pub offset : ℕ
  pub size : ℕ

module _ {Sink : Type 0} where
  -- The constructor of `HeaderParserObjectOutputStream`.
  unfoldable pub header_parser_new : ℕ → Sink → HeaderParser Sink
  header_parser_new transaction sink = record {
    cancelled = false;
    exhausted = false;
    offset = 0;
    transaction = transaction;
    header = fixed_new response_size;
    response = record { bytes = []; cancelled = false };
    data_output = sink;
    output = none;
    valid = true;
    finished = false;
    response_code = none;
  }

  -- The `switch` on the container type.
  unfoldable pub select_output : HeaderParser Sink → Response → HeaderParser Sink
  select_output p header =
      if header.container_type == ContainerType.data_block
      then record p { output = some to_data }
      else if header.container_type == ContainerType.response
      then record p {
        output = some to_response;
        response_code = some header.response_type;
        finished = true;
      }
      else record p { valid = false; output = some to_nothing }

  -- `HeaderParserObjectOutputStream::OnStream1Exhausted`
  unfoldable pub on_header : HeaderParser Sink → Result (HeaderParser Sink)
  on_header p = run read_response p.header.bytes >>= λ header. ok (
      if not (p.transaction == 0) && not (p.transaction == header.transaction)
      then record p { valid = false; output = some to_nothing }
      else select_output p header)

  -- The constructor of `MessageParsingStream`.
  unfoldable pub message_parser_new : HeaderParser Sink → MessageParser Sink
  message_parser_new stream = record {
    cancelled = false;
    exhausted = false;
    header = fixed_new 4;
    stream = stream;
    offset = 0;
    size = 4;
  }

  -- `Finished`
  unfoldable pub message_finished : MessageParser Sink → Bool
  message_finished m = leb m.size m.offset

  -- `MessageParsingStream::OnStream1Exhausted`
  unfoldable pub on_size : MessageParser Sink → Result (MessageParser Sink)
  on_size m = run read32 m.header.bytes >>= λ size.
      if ltb size 4 then err Error.malformed_message else ok (record m { size = size })

module _ {Sink : Type 0} (sink_write : Sink → List ℕ → Result (ℕ × Sink)) where
  -- `GetStream2()->Write`; the `DummyOutputStream` takes everything.
  unfoldable pub write_target : HeaderParser Sink → List ℕ → Result (ℕ × HeaderParser Sink)
  write_target p chunk = elim p.output [
    | none ↦ err Error.no_data_stream
    | some to_data ↦
        sink_write p.data_output chunk >>= λ r. ok (r.0, record p { data_output = r.1 })
    | some to_response ↦
        output_write p.response chunk >>= λ r. ok (r.0, record p { response = r.1 })
    | some to_nothing ↦ ok (length chunk, p)
  ]

  -- The class as a joined stream.
  unfoldable pub header_parser_joined : JoinedOutput (HeaderParser Sink)
  header_parser_joined = record {
    is_cancelled = λ p. p.cancelled;
    is_exhausted = λ p. p.exhausted;
    set_exhausted = λ p. record p { exhausted = true };
    write_stream1 =
        λ p chunk. fixed_write p.header chunk >>= λ r. ok (r.0, record p { header = r.1 });
    write_stream2 = write_target;
    on_stream1_exhausted = on_header;
  }

  -- `HeaderParserObjectOutputStream::Write`
  unfoldable pub header_parser_write : HeaderParser Sink → List ℕ → Result (ℕ × HeaderParser Sink)
  header_parser_write p chunk = joined_write header_parser_joined p chunk >>= λ r.
      let q = record (r.1) { offset = r.1.offset + r.0 } in
      if not q.exhausted && leb (length q.header.bytes) q.offset
      then (on_header (record q { exhausted = true }) >>= λ done. ok (r.0, done))
      else ok (r.0, q)

  unfoldable pub message_parser_joined : JoinedOutput (MessageParser Sink)
  message_parser_joined = record {
    is_cancelled = λ m. m.cancelled;
    is_exhausted = λ m. m.exhausted;
    set_exhausted = λ m. record m { exhausted = true };
    write_stream1 =
        λ m chunk. fixed_write m.header chunk >>= λ r. ok (r.0, record m { header = r.1 });
    write_stream2 =
        λ m chunk. header_parser_write m.stream chunk >>= λ r. ok (r.0, record m { stream = r.1 });
    on_stream1_exhausted = on_size;
  }

  -- `MessageParsingStream::Write`
  unfoldable pub message_parser_write :
      MessageParser Sink → List ℕ → Result (ℕ × MessageParser Sink)
  message_parser_write m chunk = joined_write message_parser_joined m chunk >>= λ r.
      let q = record (r.1) { offset = r.1.offset + r.0 } in
      if not q.exhausted && leb (length q.header.bytes) q.offset
      then (on_size (record q { exhausted = true }) >>= λ done. ok (r.0, done))
      else ok (r.0, q)
