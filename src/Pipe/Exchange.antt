-- ===== src/Pipe/Exchange.antt =====
-- `PipePacketer::Read` over whole messages, however the transfers cut them into chunks.
use zune_sync.Base.{
  ℕ, ◌+◌, ◌-◌, ◌≤◌, ◌<◌, ◌≡◌, sym, ap, ◌∙◌, List, [], ◌∷◌, ◌++◌, length, take, drop, append_assoc,
  append-nil, length-append, take-append-drop, take-prefix, drop-append, drop-append_le, flatten,
  arith, IsU32, Result, ok, ◌>>=◌,
}
use zune_sync.Stream.Codec.{le32}
use zune_sync.Request.{Response, IsResponse, response_bytes, length-response_bytes, length-le32}
use zune_sync.Pipe.Parser.{MessageParser, message_parser_write, message_parser_new}
use zune_sync.Pipe.Header.{IsSink, settled, waiting, header_parser_new-waiting}
use zune_sync.Pipe.HeaderProgress.{
  cut_front, header_after, header_after-short, header_after-long, header_progress,
}
use zune_sync.Pipe.MessageWrite.{
  sizing, sized, message_parser_new-sizing, message_parser_write-sizing, message_parser_write-sized,
  message_parser_write-crosses,
}
use zune_sync.Pipe.Packeter.{Transfer, fresh, read_message}
use mathlib.Core.Logic.{ite, if_pos, if_neg}
use native.Mathlib.Decide.{dec_lt}

-- A message from the device: its header and its payload.
pub record Frame : Type 0 where
  pub header : Response
  pub payload : List ℕ

abbrev pub frame_size : Frame → ℕ
frame_size f = 12 + length f.payload

-- The message on the wire: size, header, payload.
abbrev pub frame_bytes : Frame → List ℕ
frame_bytes f = le32 (frame_size f) ++ (response_bytes f.header ++ f.payload)

pub record IsFrame (f : Frame) : Type 0 where
  pub header_range : IsResponse f.header
  pub size_range : IsU32 (frame_size f)

length-frame_bytes : (f : Frame) → length (frame_bytes f) ≡ frame_size f
length-frame_bytes f = omega (
  arith,
  length-append (le32 (frame_size f)) (response_bytes f.header ++ f.payload),
  length-append (response_bytes f.header) f.payload,
  length-le32 (frame_size f),
  length-response_bytes f.header,
)

module _ {Sink : Type 0} (sink_write : Sink → List ℕ → Result (ℕ × Sink))
    (push : Sink → List ℕ → Sink) (transaction : ℕ) (d : Sink) (sink : IsSink sink_write push d)
    (f : Frame) (frame : IsFrame f) where
  -- The message parser after the bytes `bs` of the frame.
  message_after : List ℕ → MessageParser Sink
  message_after bs =
      ite (dec_lt (length bs) 4) (sizing (waiting transaction d [] 0) bs (length bs))
        (sized (frame_size f) (header_after push transaction d f.header (drop 4 bs)) (length bs))

  message_after-short :
      (bs : List ℕ)
      → length bs < 4
      → message_after bs ≡ sizing (waiting transaction d [] 0) bs (length bs)
  unfolding message_after
  message_after-short bs h =
      if_pos (dec_lt (length bs) 4) h _
        (sized (frame_size f) (header_after push transaction d f.header (drop 4 bs)) (length bs))

  message_after-long :
      (bs : List ℕ)
      → ¬ (length bs < 4)
      → message_after bs
        ≡ sized (frame_size f) (header_after push transaction d f.header (drop 4 bs)) (length bs)
  unfolding message_after
  message_after-long bs h =
      if_neg (dec_lt (length bs) 4) h (sizing (waiting transaction d [] 0) bs (length bs)) _

  -- Behind the size field the frame goes on with header and payload.
  behind_size :
      (bs rest : List ℕ)
      → 4 ≤ length bs
      → bs ++ rest ≡ frame_bytes f
      → drop 4 bs ++ rest ≡ response_bytes f.header ++ f.payload
  behind_size bs rest h e =
      sym (drop-append_le 4 bs rest h)
      ∙ ap (drop 4) e
      ∙ rw (length-le32 (frame_size f)) at
          (drop-append (le32 (frame_size f)) (response_bytes f.header ++ f.payload))

  message_progress :
      (bs chunk rest : List ℕ)
      → (bs ++ chunk) ++ rest ≡ frame_bytes f
      → message_parser_write sink_write (message_after bs) chunk
        ≡ ok (length chunk, message_after (bs ++ chunk))
  message_progress bs chunk rest e = elim (dec_lt (length bs) 4) [
    | no behind ↦
        rw
          (
            message_after-long bs behind,
            message_after-long (bs ++ chunk) (omega (arith, all)),
            drop-append_le 4 bs chunk (omega arith),
            all,
          )
          (message_parser_write-sized sink_write (frame_size f) (length bs) _ _ chunk (
            header_progress sink_write push transaction d sink f.header frame.header_range
              (drop 4 bs) chunk rest f.payload
              (append_assoc (drop 4 bs) chunk rest
                ∙ behind_size bs (chunk ++ rest) (omega arith)
                    (sym (append_assoc bs chunk rest) ∙ e))))
    | yes before ↦ elim (dec_lt (length bs + length chunk) 4) [
      | yes short ↦
          rw
            (
              message_after-short bs before,
              message_after-short (bs ++ chunk) (omega (arith, all)),
              all,
            )
            (message_parser_write-sizing sink_write _ bs chunk short)
      | no reaches ↦
          let front : take 4 (bs ++ chunk) ≡ le32 (frame_size f) =
            rw (length-le32 (frame_size f)) at (
              take-prefix (le32 (frame_size f)) (bs ++ chunk) (response_bytes f.header ++ f.payload)
                rest e (omega (arith, all, length-le32 (frame_size f)))) in
          let (head, tail) = cut_front 4 bs chunk (le32 (frame_size f)) (omega arith) front in
          let more : List ℕ = drop (4 - length bs) chunk in
          let start : header_after push transaction d f.header [] ≡ waiting transaction d [] 0 =
            header_after-short push transaction d f.header [] (omega arith) in
          rw
            (
              message_after-short bs before,
              message_after-long (bs ++ chunk) (omega (arith, all)),
              tail,
              all,
            )
            (rw (take-append-drop (4 - length bs) chunk) at (
              message_parser_write-crosses sink_write (frame_size f) frame.size_range (omega arith)
                (waiting transaction d [] 0) (header_after push transaction d f.header more) bs
                (take (4 - length bs) chunk) more head before
                (rw start at (
                  header_progress sink_write push transaction d sink f.header frame.header_range []
                    more rest f.payload
                    (rw tail at (behind_size (bs ++ chunk) rest (omega (arith, all)) e))))
                (λ none_left. ap (header_after push transaction d f.header) none_left ∙ start)))
    ]
  ]
    where
      all : length (bs ++ chunk) ≡ length bs + length chunk
      all = length-append bs chunk

  read_message-after :
      (chunks : List (List ℕ)) (bs : List ℕ)
      → bs ++ flatten chunks ≡ frame_bytes f
      → read_message sink_write (message_after bs) chunks ≡ ok (message_after (frame_bytes f))
  unfolding read_message
  read_message-after [] bs e = rw (← e, append-nil)
  read_message-after (chunk ∷ chunks) bs e =
      let e' : (bs ++ chunk) ++ flatten chunks ≡ frame_bytes f =
        append_assoc bs chunk (flatten chunks) ∙ e in
      rw (message_progress bs chunk (flatten chunks) e', ◌>>=◌)
        (read_message-after chunks (bs ++ chunk) e')

  fresh-after : fresh transaction d ≡ message_after []
  unfolding fresh
  fresh-after =
      ap message_parser_new (header_parser_new-waiting transaction d)
      ∙ message_parser_new-sizing (waiting transaction d [] 0)
      ∙ sym (message_after-short [] (omega arith))

  after_all :
      message_after (frame_bytes f)
      ≡ sized
          (frame_size f)
          (settled push transaction d f.header f.payload (8 + length f.payload))
          (frame_size f)
  after_all =
      let body : List ℕ = response_bytes f.header ++ f.payload in
      let four : drop 4 (frame_bytes f) ≡ body =
        rw (length-le32 (frame_size f)) at (drop-append (le32 (frame_size f)) body) in
      let eight : drop 8 body ≡ f.payload =
        rw (length-response_bytes f.header) at (drop-append (response_bytes f.header) f.payload) in
      let size : length body ≡ 8 + length f.payload = omega (
        arith,
        length-append (response_bytes f.header) f.payload,
        length-response_bytes f.header,
      ) in
      message_after-long (frame_bytes f) (omega (arith, length-frame_bytes f))
      ∙ rw (
        four,
        header_after-long push transaction d f.header body (omega arith),
        eight,
        size,
        length-frame_bytes f,
      )

  -- A frame, in whatever chunks it comes, leaves both parsers at its end.
  pub read_message-frame :
      (t : Transfer)
      → flatten t ≡ frame_bytes f
      → read_message sink_write (fresh transaction d) t
        ≡ ok (
            sized
              (frame_size f)
              (settled push transaction d f.header f.payload (8 + length f.payload))
              (frame_size f))
  read_message-frame t e = rw (fresh-after) (read_message-after t [] e ∙ ap ok after_all)
