-- ===== src/Session/Partial.antt =====
-- The guard of `Session::GetPartialObject` on devices with the 32-bit operation only.
use zune_sync.Base.{
  ℕ, ◌+◌, ◌%◌, ◌^◌, ◌≤◌, ◌<◌, ◌≡◌, false, [], ◌∷◌, Error, err, lt→ltb, le→ltb, arith, IsU32, IsU64,
}
use zune_sync.Codes.OperationCode
use zune_sync.Session.State.{Session}
use zune_sync.Session.Transaction.{run_transaction}
use zune_sync.Session.Objects.{get_partial_object}

-- Without the 64-bit operation, a range that ends at 2^32 or behind, while its end fits 64 bits, is
-- refused with nothing sent.
get_partial_object-refuses :
    (object_id offset size : ℕ) (s : Session)
    → s.get_partial_object64_supported ≡ false
    → offset + size < 2 ^ 64
    → 2 ^ 32 ≤ offset + size
    → get_partial_object object_id offset size s ≡ (err Error.overflow32, s)
unfolding get_partial_object
get_partial_object-refuses object_id offset size s f h big =
    let sum : (offset + size) % 2 ^ 64 ≡ offset + size = omega arith in
    rw (f, sum, lt→ltb 0xffff_ffff (offset + size) (omega arith))

-- Without the 64-bit operation, a u64 offset and a u32 size whose sum does not fit 64 bits pass the
-- guard: the sum is wrapped, and the low half of the offset is asked for.
pub get_partial_object-wraps :
    (object_id offset size : ℕ) (s : Session)
    → s.get_partial_object64_supported ≡ false
    → IsU64 offset
    → IsU32 size
    → 2 ^ 64 ≤ offset + size
    → get_partial_object object_id offset size s
      ≡ run_transaction OperationCode.get_partial_object (object_id ∷ offset % 2 ^ 32 ∷ size ∷ []) s
unfolding get_partial_object
get_partial_object-wraps object_id offset size s f o z h =
    rw (f, le→ltb 0xffff_ffff ((offset + size) % 2 ^ 64) (omega arith))
