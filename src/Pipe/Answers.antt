-- ===== src/Pipe/Answers.antt =====
-- What `PipePacketer::Read` answers to the frames that the device sends.
use zune_sync.Base.{
  ℕ, ◌≡◌, ◌≢◌, ◌⊎◌, refl, ap, ◌∙◌, true, false, List, [], ◌∷◌, flatten, arith, Result, ok, none,
  some, ◌>>=◌, All, le→leb,
}
use zune_sync.Request.ContainerType
use zune_sync.Pipe.Parser.{to_data, to_response, to_nothing, message_finished}
use zune_sync.Pipe.Header.{IsSink, IsSink-push, Verdict, verdict, data_part}
use zune_sync.Pipe.Packeter.{Transfer, fresh, read_loop, read}
use zune_sync.Pipe.Exchange.{Frame, IsFrame, frame_bytes, frame_size, read_message-frame}
use native.Mathlib.Nat.{le_refl}

-- The transaction of a frame is the reader's, or the reader takes any.
abbrev pub Accepts : ℕ → Frame → Type 0
Accepts transaction f = (transaction ≡ 0) ⊎ (transaction ≡ f.header.transaction)

-- A frame that `Read` throws away: of another transaction, or neither data nor a response.
abbrev pub IsStale : ℕ → Frame → Type 0
IsStale transaction f =
    ((transaction ≢ 0) × (transaction ≢ f.header.transaction))
    ⊎ ((f.header.container_type ≢ ContainerType.data_block)
        × (f.header.container_type ≢ ContainerType.response))

-- The transfer carries the frame, in any chunks.
pub record Carries (t : Transfer) (f : Frame) : Type 0 where
  pub frame : IsFrame f
  pub bytes : flatten t ≡ frame_bytes f

-- Transfers that carry stale frames only.
abbrev pub AllStale : ℕ → List (Transfer × Frame) → Type 0
AllStale transaction = All (λ (p : Transfer × Frame). Carries p.0 p.1 × IsStale transaction p.1)

-- The transfers of these frames, before others.
abbrev pub transfers : List (Transfer × Frame) → List Transfer → List Transfer
transfers [] ts = ts
transfers (p ∷ ps) ts = p.0 ∷ transfers ps ts

verdict_data :
    (transaction : ℕ) (f : Frame)
    → Accepts transaction f
    → f.header.container_type ≡ ContainerType.data_block
    → verdict transaction f.header
      ≡ record { target = to_data; valid = true; finished = false; response_code = none }
unfolding verdict
verdict_data transaction f a e = ground arith

verdict_response :
    (transaction : ℕ) (f : Frame)
    → Accepts transaction f
    → f.header.container_type ≡ ContainerType.response
    → verdict transaction f.header ≡ record {
      target = to_response;
      valid = true;
      finished = true;
      response_code = some f.header.response_type;
    }
unfolding verdict
verdict_response transaction f a e = ground arith

verdict_stale :
    (transaction : ℕ) (f : Frame)
    → IsStale transaction f
    → verdict transaction f.header
      ≡ record { target = to_nothing; valid = false; finished = false; response_code = none }
unfolding verdict
verdict_stale transaction f s = ground arith

module _ {Sink : Type 0} (sink_write : Sink → List ℕ → Result (ℕ × Sink))
    (push : Sink → List ℕ → Sink) (transaction : ℕ) (d : Sink)
    (sink : IsSink sink_write push d) where
  -- One round of the loop on a whole frame.
  unfinished :
      (t : Transfer) (f : Frame) (ts : List Transfer) (v : Verdict)
      → Carries t f
      → verdict transaction f.header ≡ v
      → v.finished ≡ false
      → read sink_write transaction d (t ∷ ts)
        ≡ read sink_write transaction (data_part push v.target d f.payload) ts
  unfolding read read_loop message_finished
  unfinished t f ts v c e more =
      rw
        (
          read,
          read_loop,
          read_message-frame sink_write push transaction d sink f c.frame t c.bytes,
          e,
          more,
          le→leb (frame_size f) (frame_size f) (le_refl _),
          ◌>>=◌,
        )
        (ap
          (λ (w : Verdict).
            read_loop sink_write transaction
              (fresh transaction (data_part push w.target d f.payload)) ts)
          e)

  -- A response ends `Read` with its code and its payload; what the pipe has not read stays.
  pub read-response :
      (t : Transfer) (f : Frame) (ts : List Transfer)
      → Carries t f
      → Accepts transaction f
      → f.header.container_type ≡ ContainerType.response
      → read sink_write transaction d (t ∷ ts)
        ≡ (ok (record { code = some f.header.response_type; response = f.payload; sink = d }), ts)
  unfolding read read_loop
  read-response t f ts c a e =
      rw
        (
          read,
          read_loop,
          read_message-frame sink_write push transaction d sink f c.frame t c.bytes,
          verdict_response transaction f a e,
          ◌>>=◌,
        )
        (rw (verdict_response transaction f a e))

  -- Data go to the caller's stream, and the reading goes on.
  read-data :
      (t : Transfer) (f : Frame) (ts : List Transfer)
      → Carries t f
      → Accepts transaction f
      → f.header.container_type ≡ ContainerType.data_block
      → read sink_write transaction d (t ∷ ts) ≡ read sink_write transaction (push d f.payload) ts
  read-data t f ts c a e = unfinished t f ts _ c (verdict_data transaction f a e) refl

  -- A stale frame leaves no trace: neither in the answer nor in the caller's stream.
  read-stale :
      (t : Transfer) (f : Frame) (ts : List Transfer)
      → Carries t f
      → IsStale transaction f
      → read sink_write transaction d (t ∷ ts) ≡ read sink_write transaction d ts
  read-stale t f ts c s = unfinished t f ts _ c (verdict_stale transaction f s) refl

  -- Transfers that carry stale frames only, before others, change nothing of the answer, over a sink
  -- that takes every chunk whole.
  pub read-AllStale :
      (stale : List (Transfer × Frame)) (ts : List Transfer)
      → AllStale transaction stale
      → read sink_write transaction d (transfers stale ts) ≡ read sink_write transaction d ts
  read-AllStale [] ts h = refl
  read-AllStale (p ∷ ps) ts h =
      read-stale p.0 p.1 (transfers ps ts) h.0.0 h.0.1 ∙ read-AllStale ps ts h.1

-- An exchange with a data phase, over a sink that takes every chunk whole: transfers that carry stale
-- frames before and between do not count, the data frame's payload reaches the sink whole, the
-- response frame gives the code and the response, and the transfers behind it stay in the pipe, in
-- whatever chunks the frames come.
pub read-exchange :
    {Sink : Type 0} (sink_write : Sink → List ℕ → Result (ℕ × Sink)) (push : Sink → List ℕ → Sink)
    (transaction : ℕ) (d : Sink) (sink : IsSink sink_write push d)
    (before between : List (Transfer × Frame)) (t u : Transfer) (f g : Frame) (ts : List Transfer)
    → AllStale transaction before
    → AllStale transaction between
    → Carries t f
    → Accepts transaction f
    → f.header.container_type ≡ ContainerType.data_block
    → Carries u g
    → Accepts transaction g
    → g.header.container_type ≡ ContainerType.response
    → read sink_write transaction d (transfers before (t ∷ transfers between (u ∷ ts))) ≡ (
      ok (record {
        code = some g.header.response_type;
        response = g.payload;
        sink = push d f.payload;
      }),
      ts,
    )
read-exchange sink_write push transaction d sink before between t u f g ts hb hm ct aq dt cu au du =
    let sink' = IsSink-push f.payload sink in
    read-AllStale sink_write push transaction d sink before _ hb
    ∙ read-data sink_write push transaction d sink t f _ ct aq dt
    ∙ read-AllStale sink_write push transaction (push d f.payload) sink' between (u ∷ ts) hm
    ∙ read-response sink_write push transaction (push d f.payload) sink' u g ts cu au du
