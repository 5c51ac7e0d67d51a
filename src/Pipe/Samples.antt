-- ===== src/Pipe/Samples.antt =====
-- Messages from a device, cut into chunks, for the tests of the pipe and of the session.
use zune_sync.Base.{ℕ, List, [], ◌∷◌, append-nil, take, drop, take-append-drop, inl, arith}
use zune_sync.Pipe.Packeter.{Transfer}
use zune_sync.Pipe.Exchange.{Frame, IsFrame, frame_bytes}
use zune_sync.Pipe.Answers.{Carries, AllStale}

-- The frame in two chunks.
abbrev pub cut_transfer : ℕ → Frame → Transfer
cut_transfer n f = take n (frame_bytes f) ∷ drop n (frame_bytes f) ∷ []

pub cut_transfer-Carries : (n : ℕ) (f : Frame) → IsFrame f → Carries (cut_transfer n f) f
cut_transfer-Carries n f h = record {
  frame = h;
  bytes = rw (append-nil (drop n (frame_bytes f)), take-append-drop n (frame_bytes f));
}

-- A late answer to transaction 6, then data and an OK response for transaction 7.
abbrev pub late : Frame
late = record {
  header = record { container_type = 3; response_type = 0x2002; transaction = 6 };
  payload = 9 ∷ [];
}

abbrev pub data_frame : Frame
data_frame = record {
  header = record { container_type = 2; response_type = 0x1007; transaction = 7 };
  payload = 1 ∷ 0 ∷ 0 ∷ 0 ∷ 5 ∷ 0 ∷ 0 ∷ 0 ∷ [];
}

abbrev pub ok_frame : Frame
ok_frame = record {
  header = record { container_type = 3; response_type = 0x2001; transaction = 7 };
  payload = [];
}

late-IsFrame : IsFrame late
late-IsFrame = record {
  header_range = record {
    container_type_range = omega arith;
    response_type_range = omega arith;
    transaction_range = omega arith;
  };
  size_range = omega arith;
}

pub data_frame-IsFrame : IsFrame data_frame
data_frame-IsFrame = record {
  header_range = record {
    container_type_range = omega arith;
    response_type_range = omega arith;
    transaction_range = omega arith;
  };
  size_range = omega arith;
}

pub ok_frame-IsFrame : IsFrame ok_frame
ok_frame-IsFrame = record {
  header_range = record {
    container_type_range = omega arith;
    response_type_range = omega arith;
    transaction_range = omega arith;
  };
  size_range = omega arith;
}

-- The late answer alone, its size field cut in two.
abbrev pub stale : List (Transfer × Frame)
stale = (cut_transfer 2 late, late) ∷ []

pub stale-AllStale : AllStale 7 stale
stale-AllStale = ((cut_transfer-Carries 2 late late-IsFrame, inl (omega arith, omega arith)), tt)
