-- ===== src/Pipe/HeaderWrite.antt =====
-- `HeaderParserObjectOutputStream::Write` before, across and behind the end of the header.
use zune_sync.Base.{
  ℕ, ◌+◌, ◌≤◌, ◌<◌, ◌≡◌, refl, sym, ap, ◌∙◌, Bool, true, List, [], ◌∷◌, ◌++◌, length, append-nil,
  length-append, drop-append, arith, Result, ok, Option, ◌>>=◌,
}
use zune_sync.Stream.Codec.{run-Decodes}
use zune_sync.Request.{
  Response, IsResponse, response_bytes, length-response_bytes, read_response, read_response-Decodes,
}
use zune_sync.Pipe.ByteStreams.{output_write, check_cancelled}
use zune_sync.Pipe.Joined.{joined_write}
use zune_sync.Pipe.JoinedLaws.{joined_write-fits, joined_write-over}
use zune_sync.Pipe.Parser.{
  Target, to_data, to_response, to_nothing, select_output, on_header, write_target,
  header_parser_joined, header_parser_write,
}
use zune_sync.Pipe.Filling.{length-holding, holding_full, fixed_write-fits, fixed_write-cut}
use zune_sync.Pipe.Header.{verdict, IsSink, settled_as, settled, waiting}

module _ {Sink : Type 0} (sink_write : Sink → List ℕ → Result (ℕ × Sink))
    (push : Sink → List ℕ → Sink) (transaction : ℕ) (d : Sink) (sink : IsSink sink_write push d)
    (r : Response) (range : IsResponse r) where
  -- The complete header, whatever the offset says.
  on_header-settled :
      (offset : ℕ)
      → on_header (record (waiting transaction d (response_bytes r) offset) { exhausted = true })
        ≡ ok (settled push transaction d r [] offset)
  unfolding on_header select_output verdict
  on_header-settled offset =
      rw
        (
          holding_full (response_bytes r) 8 (length-response_bytes r),
          run-Decodes read_response r (response_bytes r) (read_response-Decodes r range),
        )
        (ground (arith, sink.push_nothing))

  -- Behind the header every chunk is taken whole.
  write_target-settled_as :
      (t : Target) (v f : Bool) (c : Option ℕ) (payload chunk : List ℕ) (offset : ℕ)
      → write_target sink_write
          (settled_as push t v f c transaction d (response_bytes r) payload offset)
          chunk
        ≡ ok (
          length chunk,
          settled_as push t v f c transaction d (response_bytes r) (payload ++ chunk) offset,
        )
  unfolding write_target output_write check_cancelled
  write_target-settled_as to_data v f c payload chunk offset = rw (sink.writes payload chunk)
  write_target-settled_as to_response v f c payload chunk offset = refl
  write_target-settled_as to_nothing v f c payload chunk offset = refl

  pub header_parser_write-settled :
      (payload chunk : List ℕ) (offset : ℕ)
      → header_parser_write sink_write (settled push transaction d r payload offset) chunk
        ≡ ok (length chunk, settled push transaction d r (payload ++ chunk) (offset + length chunk))
  unfolding header_parser_write joined_write header_parser_joined check_cancelled
  header_parser_write-settled payload chunk offset =
      let v = verdict transaction r in
      rw (
        write_target-settled_as v.target v.valid v.finished v.response_code payload chunk offset,
        ◌>>=◌,
      )

  -- A chunk that fits the header.
  joined_write-waiting :
      (taken chunk : List ℕ) (offset : ℕ)
      → length taken + length chunk ≤ 8
      → joined_write (header_parser_joined sink_write) (waiting transaction d taken offset) chunk
        ≡ ok (length chunk, waiting transaction d (taken ++ chunk) offset)
  unfolding header_parser_joined
  joined_write-waiting taken chunk offset h =
      joined_write-fits (header_parser_joined sink_write) (waiting transaction d taken offset) chunk
        refl refl (waiting transaction d (taken ++ chunk) offset)
        (rw (fixed_write-fits 8 taken chunk h, ◌>>=◌))

  pub header_parser_write-waiting :
      (taken chunk : List ℕ)
      → length taken + length chunk < 8
      → header_parser_write sink_write (waiting transaction d taken (length taken)) chunk
        ≡ ok (length chunk, waiting transaction d (taken ++ chunk) (length taken + length chunk))
  unfolding header_parser_write
  header_parser_write-waiting taken chunk h = ground (
    arith,
    joined_write-waiting taken chunk (length taken) (omega arith),
    length-append taken chunk,
    length-holding 8 (taken ++ chunk) (omega (arith, length-append taken chunk)),
  )

  -- A chunk that ends with the header.
  pub header_parser_write_complete :
      (taken chunk : List ℕ)
      → taken ++ chunk ≡ response_bytes r
      → length taken < 8
      → header_parser_write sink_write (waiting transaction d taken (length taken)) chunk
        ≡ ok (length chunk, settled push transaction d r [] (length taken + length chunk))
  unfolding header_parser_write
  header_parser_write_complete taken chunk e h =
      let total : length taken + length chunk ≡ 8 =
        sym (length-append taken chunk) ∙ ap length e ∙ length-response_bytes r in
      rw (
        joined_write-waiting taken chunk (length taken) (omega arith),
        e,
        length-holding 8 (response_bytes r) (omega (arith, length-response_bytes r)),
        total,
        on_header-settled 8,
        ◌>>=◌,
      )

  -- A chunk that completes the header and goes on.
  pub header_parser_write-crosses :
      (taken chunk more : List ℕ)
      → taken ++ chunk ≡ response_bytes r
      → length taken < 8
      → header_parser_write sink_write (waiting transaction d taken (length taken)) (chunk ++ more)
        ≡ ok (
          length (chunk ++ more),
          settled push transaction d r more (length taken + length (chunk ++ more)),
        )
  header_parser_write-crosses taken chunk [] e h =
      rw (append-nil chunk) (header_parser_write_complete taken chunk e h)
  header_parser_write-crosses taken chunk (y ∷ ys) e h =
      let total : length taken + length chunk ≡ 8 =
        sym (length-append taken chunk) ∙ ap length e ∙ length-response_bytes r in
      let all : length (chunk ++ (y ∷ ys)) ≡ length chunk + length (y ∷ ys) =
        length-append chunk (y ∷ ys) in
      let v = verdict transaction r in
      let written : joined_write (header_parser_joined sink_write)
            (waiting transaction d taken (length taken)) (chunk ++ (y ∷ ys))
          ≡ ok (
            length chunk + length (y ∷ ys),
            settled push transaction d r (y ∷ ys) (length taken),
          ) =
        unfold header_parser_joined in
        joined_write-over (header_parser_joined sink_write)
          (waiting transaction d taken (length taken)) (chunk ++ (y ∷ ys)) refl refl (length chunk)
          (length (y ∷ ys)) (waiting transaction d (response_bytes r) (length taken))
          (settled push transaction d r [] (length taken))
          (settled push transaction d r (y ∷ ys) (length taken))
          (rw (fixed_write-cut 8 taken chunk (y ∷ ys) total, e, ◌>>=◌)) (omega arith)
          (on_header-settled (length taken))
          (rw (drop-append chunk (y ∷ ys)) (
            write_target-settled_as v.target v.valid v.finished v.response_code [] (y ∷ ys)
              (length taken))) in
      unfold header_parser_write in rw (written, all, ◌>>=◌)
