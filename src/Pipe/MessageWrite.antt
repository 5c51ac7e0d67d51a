-- ===== src/Pipe/MessageWrite.antt =====
-- `MessageParsingStream::Write`: before, across and behind the size field.
use zune_sync.Base.{
  ℕ, ◌+◌, ◌≤◌, ◌<◌, ◌≡◌, refl, sym, ap, ◌∙◌, false, true, List, [], ◌∷◌, ◌++◌, length, append-nil,
  length-append, drop-append, arith, IsU32, Result, ok, le→ltb, ◌>>=◌,
}
use zune_sync.Stream.Codec.{le32, read32-Decodes, run-Decodes}
use zune_sync.Stream.Input.{read32}
use zune_sync.Request.{length-le32}
use zune_sync.Pipe.Joined.{joined_write}
use zune_sync.Pipe.JoinedLaws.{joined_write-behind, joined_write-fits, joined_write-over}
use zune_sync.Pipe.Parser.{
  HeaderParser, MessageParser, header_parser_write, message_parser_new, on_size,
  message_parser_joined, message_parser_write,
}
use zune_sync.Pipe.Filling.{
  holding, fixed_new-holding, length-holding, holding_full, fixed_write-fits, fixed_write-cut,
}

module _ {Sink : Type 0} where
  -- Before the size is complete, and behind it.
  abbrev pub sizing : HeaderParser Sink → List ℕ → ℕ → MessageParser Sink
  sizing p taken offset = record {
    cancelled = false;
    exhausted = false;
    header = holding 4 taken;
    stream = p;
    offset = offset;
    size = 4;
  }

  abbrev pub sized : ℕ → HeaderParser Sink → ℕ → MessageParser Sink
  sized n p offset = record {
    cancelled = false;
    exhausted = true;
    header = holding 4 (le32 n);
    stream = p;
    offset = offset;
    size = n;
  }

  pub message_parser_new-sizing : (p : HeaderParser Sink) → message_parser_new p ≡ sizing p [] 0
  unfolding message_parser_new
  message_parser_new-sizing p = rw (fixed_new-holding 4)

  on_size-sized :
      (n offset : ℕ) (p : HeaderParser Sink)
      → IsU32 n
      → 4 ≤ n
      → on_size (record (sizing p (le32 n) offset) { exhausted = true }) ≡ ok (sized n p offset)
  unfolding on_size
  on_size-sized n offset p range h =
      rw
        (
          holding_full (le32 n) 4 (length-le32 n),
          run-Decodes read32 n (le32 n) (read32-Decodes n range),
        )
        (rw (le→ltb n 4 h))

module _ {Sink : Type 0} (sink_write : Sink → List ℕ → Result (ℕ × Sink)) where
  joined_write-sizing :
      (p : HeaderParser Sink) (taken chunk : List ℕ) (offset : ℕ)
      → length taken + length chunk ≤ 4
      → joined_write (message_parser_joined sink_write) (sizing p taken offset) chunk
        ≡ ok (length chunk, sizing p (taken ++ chunk) offset)
  unfolding message_parser_joined
  joined_write-sizing p taken chunk offset h =
      joined_write-fits (message_parser_joined sink_write) (sizing p taken offset) chunk refl refl
        (sizing p (taken ++ chunk) offset) (rw (fixed_write-fits 4 taken chunk h, ◌>>=◌))

  -- A chunk that leaves the size field incomplete.
  pub message_parser_write-sizing :
      (p : HeaderParser Sink) (taken chunk : List ℕ)
      → length taken + length chunk < 4
      → message_parser_write sink_write (sizing p taken (length taken)) chunk
        ≡ ok (length chunk, sizing p (taken ++ chunk) (length taken + length chunk))
  unfolding message_parser_write
  message_parser_write-sizing p taken chunk h = ground (
    arith,
    joined_write-sizing p taken chunk (length taken) (omega arith),
    length-append taken chunk,
    length-holding 4 (taken ++ chunk) (omega (arith, length-append taken chunk)),
  )

  -- Behind the size field the header parser gets every chunk.
  pub message_parser_write-sized :
      (n offset : ℕ) (p p' : HeaderParser Sink) (chunk : List ℕ)
      → header_parser_write sink_write p chunk ≡ ok (length chunk, p')
      → message_parser_write sink_write (sized n p offset) chunk
        ≡ ok (length chunk, sized n p' (offset + length chunk))
  message_parser_write-sized n offset p p' chunk e =
      let written : joined_write (message_parser_joined sink_write) (sized n p offset) chunk
          ≡ ok (length chunk, sized n p' offset) =
        unfold message_parser_joined in
        (joined_write-behind (message_parser_joined sink_write) (sized n p offset) chunk refl refl
          ∙ rw (e, ◌>>=◌)) in
      unfold message_parser_write in rw (written, ◌>>=◌)

  module _ (n : ℕ) (range : IsU32 n) (fits : 4 ≤ n) where
    message_parser_write_complete :
        (p : HeaderParser Sink) (taken chunk : List ℕ)
        → taken ++ chunk ≡ le32 n
        → length taken < 4
        → message_parser_write sink_write (sizing p taken (length taken)) chunk
          ≡ ok (length chunk, sized n p (length taken + length chunk))
    unfolding message_parser_write
    message_parser_write_complete p taken chunk e h =
        let total : length taken + length chunk ≡ 4 =
          sym (length-append taken chunk) ∙ ap length e ∙ length-le32 n in
        rw (
          joined_write-sizing p taken chunk (length taken) (omega arith),
          e,
          length-holding 4 (le32 n) (omega (arith, length-le32 n)),
          total,
          on_size-sized n 4 p range fits,
          ◌>>=◌,
        )

    -- A chunk that completes the size field and goes on.
    pub message_parser_write-crosses :
        (p p' : HeaderParser Sink) (taken chunk more : List ℕ)
        → taken ++ chunk ≡ le32 n
        → length taken < 4
        → header_parser_write sink_write p more ≡ ok (length more, p')
        → (more ≡ [] → p' ≡ p)
        → message_parser_write sink_write (sizing p taken (length taken)) (chunk ++ more)
          ≡ ok (length (chunk ++ more), sized n p' (length taken + length (chunk ++ more)))
    message_parser_write-crosses p p' taken chunk [] e h w same =
        rw (append-nil chunk, same refl) (message_parser_write_complete p taken chunk e h)
    message_parser_write-crosses p p' taken chunk (y ∷ ys) e h w same =
        let total : length taken + length chunk ≡ 4 =
          sym (length-append taken chunk) ∙ ap length e ∙ length-le32 n in
        let all : length (chunk ++ (y ∷ ys)) ≡ length chunk + length (y ∷ ys) =
          length-append chunk (y ∷ ys) in
        let written : joined_write (message_parser_joined sink_write)
              (sizing p taken (length taken)) (chunk ++ (y ∷ ys))
            ≡ ok (length chunk + length (y ∷ ys), sized n p' (length taken)) =
          unfold message_parser_joined in
          joined_write-over (message_parser_joined sink_write) (sizing p taken (length taken))
            (chunk ++ (y ∷ ys)) refl refl (length chunk) (length (y ∷ ys))
            (sizing p (le32 n) (length taken)) (sized n p (length taken))
            (sized n p' (length taken))
            (rw (fixed_write-cut 4 taken chunk (y ∷ ys) total, e, ◌>>=◌)) (omega arith)
            (on_size-sized n (length taken) p range fits)
            (rw (drop-append chunk (y ∷ ys)) (rw (w, ◌>>=◌))) in
        unfold message_parser_write in rw (written, all, ◌>>=◌)
