-- ===== src/Stream/Bounds.antt =====
-- How far the integer readers of mtp/ptp/InputStream.h go: never behind the end of the data.
use zune_sync.Base.{
  ℕ, zero, suc, ◌+◌, ◌*◌, ◌^◌, ◌≤◌, ◌<◌, ◌≡◌, refl, ◌∙◌, List, [], ◌∷◌, length, get_elem?, some,
  none, arith, ok, err, Error, bit_or,
}
use zune_sync.Stream.Input
use zune_sync.Stream.Input.{InputStream, Reader, return, read8, read16, read32, read64}
use zune_sync.Stream.Codec.{bind_ok}
use native.Mathlib.Decide.{dec_le}

-- With `width` bytes left, `m` returns a value and advances by exactly these; with fewer it throws.
abbrev pub Takes {ℓ} : {A : Type ℓ} → Reader A → ℕ → Type ℓ
Takes {A = A} m width =
    (s : InputStream)
    → (s.offset + width ≤ length s.source
        → (a : A) × (m s ≡ ok (a, record s { offset = s.offset + width })))
      × (length s.source < s.offset + width → m s ≡ err Error.out_of_range)

get_elem?-some : (xs : List ℕ) (i : ℕ) → i < length xs → (b : ℕ) × (get_elem? xs i ≡ some b)
get_elem?-some [] i h = absurd (omega arith)
get_elem?-some (x ∷ xs) zero h = (x, refl)
get_elem?-some (x ∷ xs) (suc i) h = get_elem?-some xs i (omega arith)

get_elem?-none : (xs : List ℕ) (i : ℕ) → length xs ≤ i → get_elem? xs i ≡ none
get_elem?-none [] i h = refl
get_elem?-none (x ∷ xs) zero h = absurd (omega arith)
get_elem?-none (x ∷ xs) (suc i) h = get_elem?-none xs i (omega arith)

read8-Takes : Takes read8 1
unfolding read8
read8-Takes s = (
  λ h. let (b, e) = get_elem?-some s.source s.offset (omega arith) in (b, rw (e, read8)),
  λ h. rw (get_elem?-none s.source s.offset (omega arith), read8),
)

bind_err {ℓ κ} :
    {A : Type ℓ} {B : Type κ} (m : Reader A) (f : A → Reader B) (s : InputStream) {e : Error}
    → m s ≡ err e
    → Input.◌>>=◌ m f s ≡ err e
bind_err m f s e = rw (e, Input.◌>>=◌)

-- Two reads of `width` bytes that are put together.
module _ (read : Reader ℕ) (width k : ℕ) (takes : Takes read width) where
  abbrev halves : Reader ℕ
  halves = Input.◌>>=◌ read (λ l. Input.◌>>=◌ read (λ h. return (bit_or l (h * 2 ^ k))))

  halves-ok :
      (s : InputStream)
      → s.offset + (width + width) ≤ length s.source
      → (a : ℕ) × (halves s ≡ ok (a, record s { offset = s.offset + (width + width) }))
  halves-ok s h =
      let (l, first) = (takes s).0 (omega arith) in
      let (b, second) = (takes (record s { offset = s.offset + width })).0 (omega arith) in
      let e : s.offset + (width + width) ≡ s.offset + width + width = omega arith in
      (
        bit_or l (b * 2 ^ k),
        rw e (bind_ok read _ s first ∙ bind_ok read (λ h. return (bit_or l (h * 2 ^ k))) _ second),
      )

  halves_err :
      (s : InputStream)
      → length s.source < s.offset + (width + width)
      → halves s ≡ err Error.out_of_range
  halves_err s h = elim (dec_le (s.offset + width) (length s.source)) [
    | yes p ↦
        let (l, first) = (takes s).0 p in
        bind_ok read _ s first
        ∙ bind_err read (λ h. return (bit_or l (h * 2 ^ k))) _
            ((takes (record s { offset = s.offset + width })).1 (omega arith))
    | no q ↦ bind_err read _ s ((takes s).1 (omega arith))
  ]

  halves-Takes : Takes halves (width + width)
  halves-Takes s = (halves-ok s, halves_err s)

read16-Takes : Takes read16 2
unfolding read16
read16-Takes = halves-Takes read8 1 8 read8-Takes

read32-Takes : Takes read32 4
unfolding read32
read32-Takes = halves-Takes read16 2 16 read16-Takes

read64-Takes : Takes read64 8
unfolding read64
read64-Takes = halves-Takes read32 4 32 read32-Takes

-- With fewer than 8 bytes left, however many of them it reads first, `Read64` throws `out_of_range`.
read64-short :
    (s : InputStream) → length s.source < s.offset + 8 → read64 s ≡ err Error.out_of_range
read64-short s h = (read64-Takes s).1 h
