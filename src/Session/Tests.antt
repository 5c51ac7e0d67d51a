-- ===== src/Session/Tests.antt =====
-- The theorems about the session at concrete inputs.
use zune_sync.Base.{
  length, ltb, if◌then◌else◌, ◌^◌, ℕ, ◌+◌, ◌%◌, ◌^◌, ◌≡◌, true, false, List, [], ◌∷◌, flatten, refl,
  inr, Option, none, some, u32, ok, arith,
}
use zune_sync.Codes.OperationCode
use zune_sync.Stream.Input.{read_single_integer}
use zune_sync.Messages.Device.{supports_operation}
use zune_sync.Messages.Object.{find_code}
use zune_sync.Pipe.Answers.{transfers}
use zune_sync.Pipe.Samples.{
  data_frame, ok_frame, data_frame-IsFrame, ok_frame-IsFrame, stale, stale-AllStale, cut_transfer,
  cut_transfer-Carries,
}
use zune_sync.Session.State.{Session}
use zune_sync.Session.Transaction.{
  blank, blank_info, run_transaction, run_transaction_with_data, send_optional_data,
}
use zune_sync.Session.Objects.{get_partial_object}
use zune_sync.Session.Properties.{integer_bytes}
use zune_sync.Session.Scope.{run_transaction_with_data-closes}
use zune_sync.Session.Exchange.{
  command_bytes, data_writes, run_transaction_with_data-answered, send_data-same_bytes,
}
use zune_sync.Session.Integers.{read_single_integer-integer_bytes}
use zune_sync.Session.Partial.{get_partial_object-wraps}

-- A session in which transaction 7 is next, on a device that can list objects.
abbrev listing : Session
listing =
    record (blank (
      transfers stale (cut_transfer 13 data_frame ∷ transfers [] (cut_transfer 5 ok_frame ∷ [])))) {
        next_transaction_id = 7;
        device_info = record blank_info {
          operations_supported = OperationCode.get_object_handles ∷ [];
        };
      }

listing_supports : supports_operation listing.device_info OperationCode.get_object_handles ≡ true
unfolding supports_operation find_code
listing_supports = refl

abbrev arguments : List ℕ
arguments = 0x10001 ∷ 0 ∷ 0xffff_ffff ∷ []

abbrev upload : Option (List ℕ)
upload = some (1 ∷ 2 ∷ 3 ∷ [])

run_transaction_with_data-answered_example :
    run_transaction_with_data OperationCode.get_object_handles upload arguments listing ≡ (
      ok (1 ∷ 0 ∷ 0 ∷ 0 ∷ 5 ∷ 0 ∷ 0 ∷ 0 ∷ [], []),
      record listing {
        transaction = none;
        next_transaction_id = 8;
        sent =
            command_bytes OperationCode.get_object_handles 7 arguments
            ∷ data_writes false OperationCode.get_object_handles 7 upload;
        incoming = [];
      },
    )
run_transaction_with_data-answered_example =
    run_transaction_with_data-answered OperationCode.get_object_handles upload arguments listing
      stale [] (cut_transfer 13 data_frame) (cut_transfer 5 ok_frame) data_frame ok_frame []
      listing_supports (omega arith) (omega arith) refl refl stale-AllStale tt
      (cut_transfer-Carries 13 data_frame data_frame-IsFrame) (inr refl) refl
      (cut_transfer-Carries 5 ok_frame ok_frame-IsFrame) (inr refl) refl refl

-- The device stays silent: the transaction throws, and is over.
abbrev silent : Session
silent = record listing { incoming = []; next_transaction_id = 0xffff_ffff }

run_transaction_with_data-closes_example :
    ((run_transaction_with_data OperationCode.get_object_handles none arguments
        silent).1.transaction
      ≡ none)
    × ((run_transaction_with_data OperationCode.get_object_handles none arguments
          silent).1.next_transaction_id
        ≡ u32 (0xffff_ffff + 1))
run_transaction_with_data-closes_example =
    run_transaction_with_data-closes OperationCode.get_object_handles none arguments silent
      listing_supports

send_data-same_bytes_example :
    flatten (
      (send_optional_data OperationCode.send_object 3 upload
        (record listing { separate_bulk_writes = true })).1.sent)
    ≡ flatten (
        (send_optional_data OperationCode.send_object 3 upload
          (record listing { separate_bulk_writes = false })).1.sent)
send_data-same_bytes_example =
    send_data-same_bytes OperationCode.send_object 3 (1 ∷ 2 ∷ 3 ∷ []) listing (omega arith) refl

read_single_integer-integer_bytes_example :
    (length (integer_bytes 0x1_0000_0203) ≡ (if ltb 0x1_0000_0203 (2 ^ 32) then 4 else 8))
    × (read_single_integer (integer_bytes 0x1_0000_0203) ≡ ok 0x1_0000_0203)
read_single_integer-integer_bytes_example =
    read_single_integer-integer_bytes 0x1_0000_0203 (omega arith)

get_partial_object-wraps_example :
    get_partial_object 5 0xffff_ffff_ffff_ff00 0x100 listing
    ≡ run_transaction OperationCode.get_partial_object
        (5 ∷ 0xffff_ffff_ffff_ff00 % 2 ^ 32 ∷ 0x100 ∷ [])
        listing
get_partial_object-wraps_example =
    get_partial_object-wraps 5 0xffff_ffff_ffff_ff00 0x100 listing refl (omega arith) (omega arith)
      (omega arith)
