-- ===== src/Pipe/HeaderProgress.antt =====
-- The header parser over a message that arrives in pieces.
use zune_sync.Base.{
  ℕ, ◌+◌, ◌-◌, ◌≤◌, ◌<◌, ◌≡◌, sym, ◌∙◌, List, ◌++◌, length, take, drop, length-append,
  take-append-drop, take-append_ge, take-prefix, drop-append_ge, drop-append_le, arith, Result, ok,
}
use zune_sync.Request.{Response, IsResponse, response_bytes, length-response_bytes}
use zune_sync.Pipe.Parser.{HeaderParser, header_parser_write}
use zune_sync.Pipe.Header.{IsSink, settled, waiting}
use zune_sync.Pipe.HeaderWrite.{
  header_parser_write-settled, header_parser_write-waiting, header_parser_write-crosses,
}
use mathlib.Core.Logic.{ite, if_pos, if_neg}
use native.Mathlib.Decide.{dec_lt}

-- `xs ++ chunk` reaches behind the first `k` elements, which are `front`: the chunk in two.
pub cut_front :
    {A : Type 0} (k : ℕ) (xs chunk front : List A)
    → length xs ≤ k
    → take k (xs ++ chunk) ≡ front
    → (xs ++ take (k - length xs) chunk ≡ front)
      × (drop k (xs ++ chunk) ≡ drop (k - length xs) chunk)
cut_front k xs chunk front h e =
    (sym (take-append_ge k xs chunk h) ∙ e, drop-append_ge k xs chunk h)

module _ {Sink : Type 0} (push : Sink → List ℕ → Sink) (transaction : ℕ) (d : Sink)
    (r : Response) where
  -- The parser after the bytes `xs`.
  pub header_after : List ℕ → HeaderParser Sink
  header_after xs =
      ite (dec_lt (length xs) 8) (waiting transaction d xs (length xs))
        (settled push transaction d r (drop 8 xs) (length xs))

  pub header_after-short :
      (xs : List ℕ) → length xs < 8 → header_after xs ≡ waiting transaction d xs (length xs)
  unfolding header_after
  header_after-short xs h =
      if_pos (dec_lt (length xs) 8) h _ (settled push transaction d r (drop 8 xs) (length xs))

  pub header_after-long :
      (xs : List ℕ)
      → ¬ (length xs < 8)
      → header_after xs ≡ settled push transaction d r (drop 8 xs) (length xs)
  unfolding header_after
  header_after-long xs h = if_neg (dec_lt (length xs) 8) h (waiting transaction d xs (length xs)) _

module _ {Sink : Type 0} (sink_write : Sink → List ℕ → Result (ℕ × Sink))
    (push : Sink → List ℕ → Sink) (transaction : ℕ) (d : Sink) (sink : IsSink sink_write push d)
    (r : Response) (range : IsResponse r) where
  -- A chunk of the message takes the parser from one state to the next.
  pub header_progress :
      (xs chunk rest payload : List ℕ)
      → (xs ++ chunk) ++ rest ≡ response_bytes r ++ payload
      → header_parser_write sink_write (header_after push transaction d r xs) chunk
        ≡ ok (length chunk, header_after push transaction d r (xs ++ chunk))
  header_progress xs chunk rest payload e = elim (dec_lt (length xs) 8) [
    | no behind ↦
        rw
          (
            header_after-long push transaction d r xs behind,
            header_after-long push transaction d r (xs ++ chunk) (omega (arith, all)),
            drop-append_le 8 xs chunk (omega arith),
            all,
          )
          (header_parser_write-settled sink_write push transaction d sink r range (drop 8 xs) chunk
            (length xs))
    | yes before ↦ elim (dec_lt (length xs + length chunk) 8) [
      | yes short ↦
          rw
            (
              header_after-short push transaction d r xs before,
              header_after-short push transaction d r (xs ++ chunk) (omega (arith, all)),
              all,
            )
            (header_parser_write-waiting sink_write push transaction d sink r range xs chunk short)
      | no reaches ↦
          let front : take 8 (xs ++ chunk) ≡ response_bytes r = rw (length-response_bytes r) at (
            take-prefix (response_bytes r) (xs ++ chunk) payload rest e
              (omega (arith, all, length-response_bytes r))) in
          let (head, tail) = cut_front 8 xs chunk (response_bytes r) (omega arith) front in
          rw
            (
              header_after-short push transaction d r xs before,
              header_after-long push transaction d r (xs ++ chunk) (omega (arith, all)),
              tail,
              all,
            )
            (rw (take-append-drop (8 - length xs) chunk) at (
              header_parser_write-crosses sink_write push transaction d sink r range xs
                (take (8 - length xs) chunk) (drop (8 - length xs) chunk) head before))
    ]
  ]
    where
      all : length (xs ++ chunk) ≡ length xs + length chunk
      all = length-append xs chunk
