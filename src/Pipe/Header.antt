-- ===== src/Pipe/Header.antt =====
-- What `HeaderParserObjectOutputStream` is after the bytes that it was given, however they were cut.
use zune_sync.Base.{
  ℕ, ◌≡◌, Bool, true, false, not, ◌&&◌, List, [], ◌++◌, length, append_assoc, append-nil, Result,
  ok, ◌==◌, if◌then◌else◌, Option, none, some,
}
use zune_sync.Request.{Response, response_bytes}
use zune_sync.Request.ContainerType
use zune_sync.Pipe.ByteStreams.{ByteArrayOutput, output_write, check_cancelled}
use zune_sync.Pipe.Parser.{
  Target, to_data, to_response, to_nothing, HeaderParser, header_parser_new,
}
use zune_sync.Pipe.Filling.{holding, fixed_new-holding}

-- What a header says of the message: where its payload goes, and what is remembered.
pub record Verdict : Type 0 where
  pub target : Target
  pub valid : Bool
  pub finished : Bool
  pub response_code : Option ℕ

-- A message of another transaction is dropped, unless the reader's own number is 0. Of the rest,
-- data go to the caller and a response ends the exchange.
unfoldable pub verdict : ℕ → Response → Verdict
verdict transaction r =
    if not (transaction == 0) && not (transaction == r.transaction)
    then record { target = to_nothing; valid = false; finished = false; response_code = none }
    else if r.container_type == ContainerType.data_block
    then record { target = to_data; valid = true; finished = false; response_code = none }
    else if r.container_type == ContainerType.response
    then record {
      target = to_response;
      valid = true;
      finished = true;
      response_code = some r.response_type;
    }
    else record { target = to_nothing; valid = false; finished = false; response_code = none }

-- The payload that reached the response.
abbrev pub response_part : Target → List ℕ → List ℕ
response_part to_data payload = []
response_part to_response payload = payload
response_part to_nothing payload = []

-- From `d` on the sink takes whole chunks, and two in a row as one.
pub record IsSink {Sink : Type 0} (sink_write : Sink → List ℕ → Result (ℕ × Sink))
    (push : Sink → List ℕ → Sink) (d : Sink) : Type 0 where
  pub writes : (xs ys : List ℕ) → sink_write (push d xs) ys ≡ ok (length ys, push d (xs ++ ys))
  pub push_nothing : push d [] ≡ d
  pub push_twice : (xs ys : List ℕ) → push (push d xs) ys ≡ push d (xs ++ ys)

pub IsSink-push :
    {Sink : Type 0} {sink_write : Sink → List ℕ → Result (ℕ × Sink)} {push : Sink → List ℕ → Sink}
    {d : Sink} (payload : List ℕ)
    → IsSink sink_write push d
    → IsSink sink_write push (push d payload)
IsSink-push {push = push} payload sink = record {
  writes = λ xs ys. rw (
    sink.push_twice payload xs,
    sink.writes (payload ++ xs) ys,
    append_assoc payload xs ys,
    sink.push_twice payload (xs ++ ys),
  );
  push_nothing = rw (sink.push_twice payload [], append-nil payload);
  push_twice = λ xs ys. rw (
    sink.push_twice payload xs,
    sink.push_twice (payload ++ xs) ys,
    append_assoc payload xs ys,
    sink.push_twice payload (xs ++ ys),
  );
}

-- What a byte array stream holds after more bytes.
abbrev pub output_push : ByteArrayOutput → List ℕ → ByteArrayOutput
output_push s xs = record s { bytes = s.bytes ++ xs }

-- Nobody but `Read` sees the stream of its second form, so nobody cancels it.
pub IsSink-output :
    (xs : List ℕ) → IsSink output_write output_push (record { bytes = xs; cancelled = false })
unfolding output_write check_cancelled
IsSink-output zs = record {
  writes = λ xs ys. rw (append_assoc zs xs ys);
  push_nothing = rw (append-nil zs);
  push_twice = λ xs ys. rw (append_assoc zs xs ys);
}

module _ {Sink : Type 0} (push : Sink → List ℕ → Sink) where
  abbrev pub data_part : Target → Sink → List ℕ → Sink
  data_part to_data d payload = push d payload
  data_part to_response d payload = d
  data_part to_nothing d payload = d

  -- Behind the header, with what it said written out.
  abbrev pub settled_as :
      Target → Bool → Bool → Option ℕ → ℕ → Sink → List ℕ → List ℕ → ℕ → HeaderParser Sink
  settled_as target valid finished code transaction d head payload offset = record {
    cancelled = false;
    exhausted = true;
    offset = offset;
    transaction = transaction;
    header = holding 8 head;
    response = record { bytes = response_part target payload; cancelled = false };
    data_output = data_part target d payload;
    output = some target;
    valid = valid;
    finished = finished;
    response_code = code;
  }

  abbrev pub settled : ℕ → Sink → Response → List ℕ → ℕ → HeaderParser Sink
  settled transaction d r payload offset =
      let v = verdict transaction r in
      settled_as v.target v.valid v.finished v.response_code transaction d (response_bytes r)
        payload offset

-- Before the header is complete.
abbrev pub waiting : {Sink : Type 0} → ℕ → Sink → List ℕ → ℕ → HeaderParser Sink
waiting transaction d taken offset = record {
  cancelled = false;
  exhausted = false;
  offset = offset;
  transaction = transaction;
  header = holding 8 taken;
  response = record { bytes = []; cancelled = false };
  data_output = d;
  output = none;
  valid = true;
  finished = false;
  response_code = none;
}

pub header_parser_new-waiting :
    {Sink : Type 0} (transaction : ℕ) (d : Sink)
    → header_parser_new transaction d ≡ waiting transaction d [] 0
unfolding header_parser_new
header_parser_new-waiting transaction d = rw (fixed_new-holding 8)
