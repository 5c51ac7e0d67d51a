-- ===== src/Pipe/JoinedReading.antt =====
-- A joined input stream reads as the bytes of its two streams in a row.
use zune_sync.Base.{
  ℕ, ◌+◌, ◌-◌, ◌≤◌, ◌≡◌, sym, ap, ◌∙◌, true, false, Bool-cases, inl, inr, List, [], ◌++◌, length,
  take, drop, min, ok, ◌>>=◌, lt→ltb, le→ltb, arith, take-append_ge, drop-append_ge, drop-append_le,
  take-append_le, take-all, drop-all, length-take, length-drop, drop-drop,
}
use zune_sync.Pipe.ByteStreams.{ByteArrayInput, input_read, check_cancelled}
use zune_sync.Pipe.Joined.{JoinedInput, joined_read}
use native.Mathlib.Decide.{dec_lt}

-- What the stream has still to give.
abbrev pub left : ByteArrayInput → List ℕ
left s = drop s.offset s.bytes

abbrev pub joined_left : JoinedInput → List ℕ
joined_left s = left s.stream1 ++ left s.stream2

-- Nobody has cancelled it, and an exhausted first stream has nothing left.
pub record IsReading (s : JoinedInput) : Type 0 where
  pub uncancelled : s.cancelled ≡ false
  pub uncancelled1 : s.stream1.cancelled ≡ false
  pub uncancelled2 : s.stream2.cancelled ≡ false
  pub emptied : s.exhausted ≡ true → left s.stream1 ≡ []

module _ {A : Type 0} where
  take-min : (n : ℕ) (xs : List A) → take (min n (length xs)) xs ≡ take n xs
  take-min n xs = elim (dec_lt n (length xs)) [
    | yes h ↦ let e : min n (length xs) ≡ n = omega arith in rw (e)
    | no h ↦
        let e : min n (length xs) ≡ length xs = omega arith in
        rw (e, take-all (length xs) xs (omega arith), take-all n xs (omega arith))
  ]

  drop-min : (n : ℕ) (xs : List A) → drop (min n (length xs)) xs ≡ drop n xs
  drop-min n xs = elim (dec_lt n (length xs)) [
    | yes h ↦ let e : min n (length xs) ≡ n = omega arith in rw (e)
    | no h ↦
        let e : min n (length xs) ≡ length xs = omega arith in
        rw (e, drop-all (length xs) xs (omega arith), drop-all n xs (omega arith))
  ]

-- The stream behind a read of `size` bytes.
advanced : ByteArrayInput → ℕ → ByteArrayInput
advanced s size = record s { offset = s.offset + min size (length s.bytes - s.offset) }

input_read-left :
    (s : ByteArrayInput) (size : ℕ)
    → s.cancelled ≡ false
    → input_read s size ≡ ok (take size (left s), advanced s size)
unfolding input_read check_cancelled advanced
input_read-left s size live =
    let e : length s.bytes - s.offset ≡ length (left s) = sym (length-drop s.offset s.bytes) in
    rw (live, e, take-min size (left s))

left-advanced : (s : ByteArrayInput) (size : ℕ) → left (advanced s size) ≡ drop size (left s)
unfolding advanced
left-advanced s size =
    let e : length s.bytes - s.offset ≡ length (left s) = sym (length-drop s.offset s.bytes) in
    rw (e, drop-drop s.offset (min size (length (left s))) s.bytes) (drop-min size (left s))

-- `Read` on a joined stream that nobody has cancelled, with any buffer: it gives the next bytes of the
-- two streams in a row, as many as the buffer takes and as there are, and the rest is left.
pub joined_read-left :
    (s : JoinedInput) (size : ℕ)
    → IsReading s
    → (s' : JoinedInput) × (joined_read s size ≡ ok (take size (joined_left s), s'))
      × (joined_left s' ≡ drop size (joined_left s))
      × IsReading s'
unfolding joined_read check_cancelled
joined_read-left s size r = elim (Bool-cases s.exhausted) [
  | inl e ↦ (
    record s { stream2 = advanced s.stream2 size },
    simp (r.uncancelled, e, input_read-left s.stream2 size r.uncancelled2, ◌>>=◌)
        (ap
          (λ xs. ok (
            take size (xs ++ left s.stream2),
            record {
              stream1 = s.stream1;
              stream2 = advanced s.stream2 size;
              exhausted = true;
              cancelled = false;
            },
          ))
          (sym (r.emptied e))),
    rw (r.emptied e) (left-advanced s.stream2 size),
    record {
      uncancelled = r.uncancelled;
      uncancelled1 = r.uncancelled1;
      uncancelled2 = unfold advanced in r.uncancelled2;
      emptied = r.emptied;
    },
  )
  | inr e ↦ elim (dec_lt (length (take size (left s.stream1))) size) [
    | yes short ↦
        let part = length-take size (left s.stream1) in
        let all : length (left s.stream1) ≤ size = omega arith in
        let whole : take size (left s.stream1) ≡ left s.stream1 =
          take-all size (left s.stream1) all in
        let more = size - length (left s.stream1) in
        (
          record s {
            stream1 = advanced s.stream1 size;
            stream2 = advanced s.stream2 more;
            exhausted = true;
          },
          simp (
            r.uncancelled,
            e,
            input_read-left s.stream1 size r.uncancelled1,
            ◌>>=◌,
            lt→ltb (length (left s.stream1)) size (omega arith),
            whole,
            input_read-left s.stream2 more r.uncancelled2,
            take-append_ge size (left s.stream1) (left s.stream2) all,
          ),
          rw (
            left-advanced s.stream1 size,
            left-advanced s.stream2 more,
            drop-all size (left s.stream1) all,
            drop-append_ge size (left s.stream1) (left s.stream2) all,
          ),
          record {
            uncancelled = r.uncancelled;
            uncancelled1 = unfold advanced in r.uncancelled1;
            uncancelled2 = unfold advanced in r.uncancelled2;
            emptied = λ _. left-advanced s.stream1 size ∙ drop-all size (left s.stream1) all;
          },
        )
    | no full ↦
        let part = length-take size (left s.stream1) in
        let fits : size ≤ length (left s.stream1) = omega arith in
        (
          record s { stream1 = advanced s.stream1 size },
          simp (
            r.uncancelled,
            e,
            input_read-left s.stream1 size r.uncancelled1,
            ◌>>=◌,
            le→ltb (length (take size (left s.stream1))) size (omega arith),
            take-append_le size (left s.stream1) (left s.stream2) fits,
          ),
          rw (
            left-advanced s.stream1 size,
            drop-append_le size (left s.stream1) (left s.stream2) fits,
          ),
          record {
            uncancelled = r.uncancelled;
            uncancelled1 = unfold advanced in r.uncancelled1;
            uncancelled2 = r.uncancelled2;
            emptied = λ t. absurd (ground (arith, e, t));
          },
        )
  ]
]
