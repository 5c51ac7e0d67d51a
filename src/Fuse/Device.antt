-- ===== src/Fuse/Device.antt =====
-- `Read` of the file system over the session of mtp/ptp/Session.cpp, down to the transfers of the pipe.
use zune_sync.Base.{
  ℕ, ◌+◌, ◌/◌, ◌%◌, ◌^◌, ◌≡◌, ap, ◌∙◌, true, if◌then◌else◌, List, [], ◌∷◌, ◌++◌, none, ltb, Error,
  Result, ok, err, u32, arith,
}
use zune_sync.Base.Stateful.{◌>>=◌}
use zune_sync.Codes.OperationCode
use zune_sync.Codes.ResponseType
use zune_sync.Request.ContainerType
use zune_sync.Messages.Device.{supports_operation}
use zune_sync.Pipe.Packeter.{Transfer}
use zune_sync.Pipe.Exchange.{Frame}
use zune_sync.Pipe.Answers.{Carries, Accepts, AllStale, transfers}
use zune_sync.Session.State
use zune_sync.Session.State.{Session}
use zune_sync.Session.Transaction.{run_transaction}
use zune_sync.Session.Objects.{get_partial_object}
use zune_sync.Session.Exchange.{command_bytes, run_transaction_with_data-answered}
use zune_sync.Fuse.State.{Fuse}

-- The arguments of `GetPartialObject64`.
abbrev pub range_arguments : ℕ → ℕ → ℕ → List ℕ
range_arguments id begin rsize = id ∷ u32 begin ∷ u32 (begin / 2 ^ 32) ∷ rsize ∷ []

-- The session when the device has answered a command for a part of an object.
abbrev pub answered : ℕ → ℕ → ℕ → List Transfer → Session → Session
answered id begin rsize ts s = record s {
  transaction = none;
  next_transaction_id = u32 (s.next_transaction_id + 1);
  sent =
      s.sent
      ++ (command_bytes OperationCode.get_partial_object64 s.next_transaction_id
            (range_arguments id begin rsize)
          ∷ []);
  incoming = ts;
}

pub partial-answered :
    (id begin rsize : ℕ) (s : Session) (before between : List (Transfer × Frame)) (t u : Transfer)
    (f g : Frame) (ts : List Transfer)
    → s.get_partial_object64_supported ≡ true
    → supports_operation s.device_info OperationCode.get_partial_object64 ≡ true
    → s.faults ≡ []
    → s.incoming ≡ transfers before (t ∷ transfers between (u ∷ ts))
    → AllStale s.next_transaction_id before
    → AllStale s.next_transaction_id between
    → Carries t f
    → Accepts s.next_transaction_id f
    → f.header.container_type ≡ ContainerType.data_block
    → Carries u g
    → Accepts s.next_transaction_id g
    → g.header.container_type ≡ ContainerType.response
    → g.header.response_type ≡ ResponseType.ok
    → get_partial_object id begin rsize s ≡ (ok f.payload, answered id begin rsize ts s)
unfolding get_partial_object run_transaction
partial-answered id begin rsize s before between t u f g ts wide h whole e hb hm ct aq dt cu au du
      k =
    let done =
      run_transaction_with_data-answered OperationCode.get_partial_object64 none
        (range_arguments id begin rsize) s before between t u f g ts h (omega arith) tt whole e hb
        hm ct aq dt cu au du k in
    ap
      (λ b.
        if b
        then run_transaction OperationCode.get_partial_object64 (range_arguments id begin rsize) s
        else if ltb 0xffff_ffff ((begin + rsize) % 2 ^ 64)
        then (err Error.overflow32, s)
        else run_transaction OperationCode.get_partial_object (id ∷ u32 begin ∷ rsize ∷ []) s)
      wide
    ∙ ap
        (λ (r : Result (List ℕ × List ℕ) × Session).
          State.◌>>=◌ (λ _. r) (λ answer. State.return (answer.0)) s)
        done
