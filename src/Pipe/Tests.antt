-- ===== src/Pipe/Tests.antt =====
-- The theorems about `PipePacketer::Read` at concrete inputs.
use zune_sync.Base.{◌≡◌, false, [], ◌∷◌, refl, inr, ok, some, arith}
use zune_sync.Pipe.ByteStreams.{ByteArrayOutput, output_write}
use zune_sync.Pipe.Header.{IsSink-output, output_push}
use zune_sync.Pipe.Packeter.{read}
use zune_sync.Pipe.Answers.{transfers, read-exchange}
use zune_sync.Pipe.Joined.{JoinedInput, joined_read}
use zune_sync.Pipe.JoinedReading.{IsReading, joined_left, joined_read-left}
use zune_sync.Pipe.Samples.{
  data_frame, ok_frame, data_frame-IsFrame, ok_frame-IsFrame, stale, stale-AllStale, cut_transfer,
  cut_transfer-Carries,
}

-- A stream that holds one byte.
abbrev started : ByteArrayOutput
started = record { bytes = 42 ∷ []; cancelled = false }

read-exchange_example :
    read output_write 7 started (
      transfers stale (cut_transfer 13 data_frame ∷ transfers stale (cut_transfer 5 ok_frame ∷ [])))
    ≡ (
      ok (record {
        code = some 0x2001;
        response = [];
        sink = record { bytes = 42 ∷ 1 ∷ 0 ∷ 0 ∷ 0 ∷ 5 ∷ 0 ∷ 0 ∷ 0 ∷ []; cancelled = false };
      }),
      [],
    )
read-exchange_example =
    read-exchange output_write output_push 7 started (IsSink-output (42 ∷ [])) stale stale
      (cut_transfer 13 data_frame) (cut_transfer 5 ok_frame) data_frame ok_frame [] stale-AllStale
      stale-AllStale (cut_transfer-Carries 13 data_frame data_frame-IsFrame) (inr refl) refl
      (cut_transfer-Carries 5 ok_frame ok_frame-IsFrame) (inr refl) refl

-- Two bytes and then three.
abbrev two_streams : JoinedInput
two_streams = record {
  stream1 = record { bytes = 1 ∷ 2 ∷ []; offset = 0; cancelled = false };
  stream2 = record { bytes = 3 ∷ 4 ∷ 5 ∷ []; offset = 0; cancelled = false };
  exhausted = false;
  cancelled = false;
}

two_streams-IsReading : IsReading two_streams
two_streams-IsReading = record {
  uncancelled = refl;
  uncancelled1 = refl;
  uncancelled2 = refl;
  emptied = λ t. absurd (ground (arith, t));
}

joined_read-left_example :
    (s' : JoinedInput) × (joined_read two_streams 3 ≡ ok (1 ∷ 2 ∷ 3 ∷ [], s'))
    × (joined_left s' ≡ 4 ∷ 5 ∷ [])
    × IsReading s'
joined_read-left_example = joined_read-left two_streams 3 two_streams-IsReading
