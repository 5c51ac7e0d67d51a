-- ===== src/Pipe/Filling.antt =====
-- How the fixed-size buffers fill up.
use zune_sync.Base.{
  ℕ, ◌+◌, ◌-◌, ◌≤◌, ◌≡◌, sym, ap, ◌∙◌, false, List, [], ◌++◌, length, take, replicate, min,
  append_assoc, append-nil, length-append, length-take, length-replicate, take-append,
  drop-append_add, drop-replicate, take-all, arith, ok,
}
use zune_sync.Pipe.ByteStreams.{FixedSizeOutput, fixed_new, fixed_write}
use native.Mathlib.Nat.{le_refl}

-- A buffer of `size` bytes that has taken `taken`.
unfoldable pub holding : ℕ → List ℕ → FixedSizeOutput
holding size taken = record {
  bytes = taken ++ replicate (size - length taken) 0;
  offset = length taken;
  cancelled = false;
}

pub fixed_new-holding : (size : ℕ) → fixed_new size ≡ holding size []
unfolding fixed_new holding
fixed_new-holding size = let e : size ≡ size - 0 = omega arith in rw (← e)

pub length-holding :
    (size : ℕ) (taken : List ℕ) → length taken ≤ size → length (holding size taken).bytes ≡ size
unfolding holding
length-holding size taken h = omega (
  arith,
  length-append taken (replicate (size - length taken) 0),
  length-replicate {A = ℕ} (size - length taken) 0,
)

-- A full buffer is what it took.
pub holding_full :
    (taken : List ℕ) (size : ℕ) → length taken ≡ size → (holding size taken).bytes ≡ taken
unfolding holding
holding_full taken size h = let e : size - length taken ≡ 0 = omega arith in rw e (append-nil taken)

-- `Write` takes as many bytes as there is room for.
fixed_write-holding :
    (size k : ℕ) (taken chunk : List ℕ)
    → length taken ≤ size
    → min (length chunk) (size - length taken) ≡ k
    → fixed_write (holding size taken) chunk ≡ ok (k, holding size (taken ++ take k chunk))
unfolding fixed_write holding
fixed_write-holding size k taken chunk h room =
    let len : length (taken ++ replicate (size - length taken) 0) ≡ size =
      length-holding size taken h in
    let kept : length (take k chunk) ≡ k = omega (arith, length-take k chunk) in
    let more : length (taken ++ take k chunk) ≡ length taken + k =
      omega (arith, length-append taken (take k chunk)) in
    let left : size - length taken - k ≡ size - (length taken + k) = omega arith in
    rw (len, room, more, take-append taken (replicate (size - length taken) 0))
      (ap (λ t. ok (k, record { bytes = t; offset = length taken + k; cancelled = false }))
        (ap (λ t. taken ++ (take k chunk ++ t))
            (drop-append_add taken (replicate (size - length taken) 0) k
              ∙ drop-replicate k (size - length taken) 0
              ∙ ap (λ n. replicate n 0) left)
          ∙ sym (append_assoc taken (take k chunk) (replicate (size - (length taken + k)) 0))))

pub fixed_write-fits :
    (size : ℕ) (taken chunk : List ℕ)
    → length taken + length chunk ≤ size
    → fixed_write (holding size taken) chunk ≡ ok (length chunk, holding size (taken ++ chunk))
fixed_write-fits size taken chunk h =
    fixed_write-holding size (length chunk) taken chunk (omega arith) (omega arith)
    ∙ ap (λ t. ok (length chunk, holding size (taken ++ t)))
        (take-all (length chunk) chunk (le_refl _))

-- A chunk that fills the buffer up, and has more.
pub fixed_write-cut :
    (size : ℕ) (taken chunk more : List ℕ)
    → length taken + length chunk ≡ size
    → fixed_write (holding size taken) (chunk ++ more)
      ≡ ok (length chunk, holding size (taken ++ chunk))
fixed_write-cut size taken chunk more h =
    fixed_write-holding size (length chunk) taken (chunk ++ more) (omega arith)
      (omega (arith, length-append chunk more))
    ∙ ap (λ t. ok (length chunk, holding size (taken ++ t))) (take-append chunk more)
