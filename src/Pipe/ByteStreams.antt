-- ===== src/Pipe/ByteStreams.antt =====
-- mtp/ptp/IObjectStream.h and mtp/ptp/ByteArrayObjectStream.h. A method returns the number of bytes
-- it took or gave with the changed object, or throws.
use zune_sync.Base.{
  ℕ, ◌+◌, ◌-◌, Bool, true, false, List, ◌++◌, length, take, drop, replicate, min, Error, Result, ok,
  err, if◌then◌else◌,
}

-- `CheckCancelled`
unfoldable pub check_cancelled : Bool → Result (Unit {0})
check_cancelled cancelled = if cancelled then err Error.operation_cancelled else ok tt

pub record ByteArrayInput : Type 0 where
  pub bytes : List ℕ
  pub offset : ℕ
  pub cancelled : Bool

unfoldable pub input_new : List ℕ → ByteArrayInput
input_new bytes = record { bytes = bytes; offset = 0; cancelled = false }

unfoldable pub input_cancel : ByteArrayInput → ByteArrayInput
input_cancel s = record s { cancelled = true }

-- `Read(data, size)`: what is copied to `data`, and the stream behind it.
unfoldable pub input_read : ByteArrayInput → ℕ → Result (List ℕ × ByteArrayInput)
unfolding check_cancelled
input_read s size =
    let n = min size (length s.bytes - s.offset) in
    elim (check_cancelled s.cancelled) [
      | ok _ ↦ ok (take n (drop s.offset s.bytes), record s { offset = s.offset + n })
      | err e ↦ err e
    ]

pub record ByteArrayOutput : Type 0 where
  pub bytes : List ℕ
  pub cancelled : Bool

unfoldable pub output_write : ByteArrayOutput → List ℕ → Result (ℕ × ByteArrayOutput)
unfolding check_cancelled
output_write s chunk = elim (check_cancelled s.cancelled) [
  | ok _ ↦ ok (length chunk, record s { bytes = s.bytes ++ chunk })
  | err e ↦ err e
]

pub record FixedSizeOutput : Type 0 where
  pub bytes : List ℕ
  pub offset : ℕ
  pub cancelled : Bool

unfoldable pub fixed_new : ℕ → FixedSizeOutput
fixed_new size = record { bytes = replicate size 0; offset = 0; cancelled = false }

-- What does not fit is not taken.
unfoldable pub fixed_write : FixedSizeOutput → List ℕ → Result (ℕ × FixedSizeOutput)
unfolding check_cancelled
fixed_write s chunk =
    let n = min (length chunk) (length s.bytes - s.offset) in
    let copied = take s.offset s.bytes ++ (take n chunk ++ drop (s.offset + n) s.bytes) in
    elim (check_cancelled s.cancelled) [
      | ok _ ↦ ok (n, record s { bytes = copied; offset = s.offset + n })
      | err e ↦ err e
    ]
