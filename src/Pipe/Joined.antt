-- ===== src/Pipe/Joined.antt =====
-- mtp/ptp/JoinedObjectStream.h: a stream that goes on with a second one when the first is used up.
use zune_sync.Base.{
  ℕ, ◌+◌, ◌-◌, Bool, true, false, List, ◌++◌, length, drop, ltb, Result, ok, ◌>>=◌,
}
use zune_sync.Pipe.ByteStreams.{check_cancelled, ByteArrayInput, input_read}

-- The object of a class derived from `JoinedObjectOutputStreamBase`: its flags, and its virtual
-- methods on both streams.
pub record JoinedOutput (S : Type 0) : Type 0 where
  pub is_cancelled : S → Bool
  pub is_exhausted : S → Bool
  pub set_exhausted : S → S
  pub write_stream1 : S → List ℕ → Result (ℕ × S)
  pub write_stream2 : S → List ℕ → Result (ℕ × S)
  pub on_stream1_exhausted : S → Result S

-- `JoinedObjectOutputStreamBase::Write`
unfoldable pub joined_write : {S : Type 0} → JoinedOutput S → S → List ℕ → Result (ℕ × S)
unfolding check_cancelled
joined_write j s chunk = check_cancelled (j.is_cancelled s) >>= λ _. elim (j.is_exhausted s) [
  | true ↦ j.write_stream2 s chunk
  | false ↦ j.write_stream1 s chunk >>= λ first. elim (ltb first.0 (length chunk)) [
    | true ↦ j.on_stream1_exhausted (j.set_exhausted first.1) >>= λ s'.
        j.write_stream2 s' (drop first.0 chunk) >>= λ second. ok (first.0 + second.0, second.1)
    | false ↦ ok first
  ]
]

-- `JoinedObjectInputStream` over two byte arrays: `std::make_shared<JoinedObjectInputStream>(...)`.
pub record JoinedInput : Type 0 where
  pub stream1 : ByteArrayInput
  pub stream2 : ByteArrayInput
  pub exhausted : Bool
  pub cancelled : Bool

-- `JoinedObjectInputStream::GetSize`
unfoldable pub joined_size : JoinedInput → ℕ
joined_size s = length s.stream1.bytes + length s.stream2.bytes

-- `JoinedObjectInputStreamBase::Read`
unfoldable pub joined_read : JoinedInput → ℕ → Result (List ℕ × JoinedInput)
unfolding check_cancelled
joined_read s size = check_cancelled s.cancelled >>= λ _. elim s.exhausted [
  | true ↦ input_read s.stream2 size >>= λ second. ok (second.0, record s { stream2 = second.1 })
  | false ↦ input_read s.stream1 size >>= λ first. elim (ltb (length first.0) size) [
    | true ↦ input_read s.stream2 (size - length first.0) >>= λ second.
        ok (
          first.0 ++ second.0,
          record s { stream1 = first.1; stream2 = second.1; exhausted = true },
        )
    | false ↦ ok (first.0, record s { stream1 = first.1 })
  ]
]
