-- ===== src/Fuse/DeviceTests.antt =====
-- `Read` through the session at a concrete exchange.
use zune_sync.Base.{ℕ, ap, List, take, drop, Result, ◌≡◌, refl, true, [], ◌∷◌, inr, arith}
use zune_sync.Codes.OperationCode
use zune_sync.Messages.Object.{find_code}
use zune_sync.Messages.Device.{supports_operation}
use zune_sync.Pipe.Answers.{transfers}
use zune_sync.Pipe.Samples.{
  data_frame, ok_frame, data_frame-IsFrame, ok_frame-IsFrame, stale, stale-AllStale, cut_transfer,
  cut_transfer-Carries,
}
use zune_sync.Session.State.{Session}
use zune_sync.Session.Transaction.{blank, blank_info}
use zune_sync.Fuse.State.{Fuse, Stat, fuse_session, blank_stat, file_mode}
use zune_sync.Fuse.Files.{read_bytes}
use zune_sync.Fuse.Samples.{door_to, mounted}
use zune_sync.Fuse.Device.{partial-answered}
use zune_sync.Fuse.Reading.{IsServedFrom, Reads, read_bytes-Reads}

-- A session in which transaction 7 is next, on a device that gives parts of objects.
abbrev giving : Session
giving =
    record (blank (
      transfers stale (cut_transfer 13 data_frame ∷ transfers [] (cut_transfer 5 ok_frame ∷ [])))) {
        next_transaction_id = 7;
        get_partial_object64_supported = true;
        device_info = record blank_info {
          operations_supported = OperationCode.get_partial_object64 ∷ [];
        };
      }

giving_supports : supports_operation giving.device_info OperationCode.get_partial_object64 ≡ true
unfolding supports_operation find_code
giving_supports = refl

abbrev twenty : Stat
twenty = record blank_stat { mode = file_mode; size = 20 }

abbrev wrapper : Fuse
wrapper = record mounted { get_partial_object_supported = true; object_attrs = (7, twenty) ∷ [] }

abbrev uncached : Fuse
uncached = record wrapper { object_cache = [] }

-- What the object 7 is, of which the device sends the bytes from the third on.
abbrev on_device : ℕ → List ℕ
on_device id = 9 ∷ 8 ∷ 1 ∷ 0 ∷ 0 ∷ 0 ∷ 5 ∷ 0 ∷ 0 ∷ 0 ∷ 6 ∷ []

giving-IsServedFrom : IsServedFrom fuse_session on_device 7 2 8 (uncached, giving)
giving-IsServedFrom = record {
  whole = λ p e. absurd (grind (arith, p));
  part = λ p.
      ap (λ (r : Result (List ℕ) × Session). r.0)
        (partial-answered 7 2 8 giving stale [] (cut_transfer 13 data_frame)
          (cut_transfer 5 ok_frame) data_frame ok_frame [] refl giving_supports refl refl
          stale-AllStale tt (cut_transfer-Carries 13 data_frame data_frame-IsFrame) (inr refl) refl
          (cut_transfer-Carries 5 ok_frame ok_frame-IsFrame) (inr refl) refl refl);
}

read_bytes-Reads_example :
    Reads fuse_session
      (door_to Session)
      on_device
      (take 8 (drop 2 (on_device 7)))
      (read_bytes fuse_session (door_to Session) 7 2 8 (uncached, giving))
read_bytes-Reads_example =
    read_bytes-Reads fuse_session (door_to Session) on_device 7 2 8 (uncached, giving)
      giving-IsServedFrom (omega arith) tt (omega arith)
