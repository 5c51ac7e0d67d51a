-- ===== src/Pipe/JoinedLaws.antt =====
-- `JoinedObjectOutputStreamBase::Write`, branch by branch.
use zune_sync.Base.{ℕ, ◌+◌, ◌<◌, ◌≡◌, true, false, List, length, drop, arith, ok, err, Error}
use zune_sync.Pipe.ByteStreams.{check_cancelled}
use zune_sync.Pipe.Joined.{JoinedOutput, joined_write}

module _ {S : Type 0} (j : JoinedOutput S) (s : S) (chunk : List ℕ)
    (live : j.is_cancelled s ≡ false) where
  pub joined_write-behind :
      j.is_exhausted s ≡ true → joined_write j s chunk ≡ j.write_stream2 s chunk
  unfolding joined_write check_cancelled
  joined_write-behind e = rw (live, e)

  module _ (first : j.is_exhausted s ≡ false) where
    pub joined_write-fits :
        (s' : S)
        → j.write_stream1 s chunk ≡ ok (length chunk, s')
        → joined_write j s chunk ≡ ok (length chunk, s')
    unfolding joined_write check_cancelled
    joined_write-fits s' e = ground (arith, live, first, e)

    pub joined_write-over :
        (n m : ℕ) (s1 s2 s3 : S)
        → j.write_stream1 s chunk ≡ ok (n, s1)
        → n < length chunk
        → j.on_stream1_exhausted (j.set_exhausted s1) ≡ ok s2
        → j.write_stream2 s2 (drop n chunk) ≡ ok (m, s3)
        → joined_write j s chunk ≡ ok (n + m, s3)
    unfolding joined_write check_cancelled
    joined_write-over n m s1 s2 s3 e more x w = ground (arith, live, first, e, x, w)

    -- An error of the first method behind the header is the error of the whole write.
    joined_write-fails :
        (n : ℕ) (s1 : S) (error : Error)
        → j.write_stream1 s chunk ≡ ok (n, s1)
        → n < length chunk
        → j.on_stream1_exhausted (j.set_exhausted s1) ≡ err error
        → joined_write j s chunk ≡ err error
    unfolding joined_write check_cancelled
    joined_write-fails n s1 error e more x = ground (arith, live, first, e, x)
