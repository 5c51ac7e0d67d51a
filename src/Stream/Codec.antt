-- ===== src/Stream/Codec.antt =====
-- What a writer appends and what a reader takes, and the round trips of the integers and arrays.
use zune_sync.Base.{
  ℕ, ◌+◌, ◌*◌, ◌/◌, ◌%◌, ◌^◌, ◌<◌, ◌≡◌, refl, sym, ap, ◌∙◌, bit_or, List, [], ◌∷◌, ◌++◌, append-nil,
  append_assoc, length, length-append, get_elem?, some, arith, IsU8, IsU16, IsU32, IsU64, ok,
}
use mathlib.Core.Path.{subst}
use zune_sync.Base.Bits.{bit_or_low_high}
use zune_sync.Stream.Input
use zune_sync.Stream.Input.{
  InputStream, Reader, return, open_stream, run, at_end, read8, read16, read32, read64,
  read_elements, read_array,
}
use zune_sync.Stream.Output
use zune_sync.Stream.Output.{
  Writer, write8, write16, write32, write_bytes, write_elements, write_array,
}

-- The stream over `pre ++ rest` that has read `pre`.
abbrev pub cursor : List ℕ → List ℕ → InputStream
cursor pre rest = record { source = pre ++ rest; offset = length pre }

-- `m` takes exactly `bytes` wherever they stand, and returns `a`.
abbrev pub Decodes {ℓ} : {A : Type ℓ} → Reader A → A → List ℕ → Type ℓ
Decodes m a bytes =
    (pre rest : List ℕ) → m (cursor pre (bytes ++ rest)) ≡ ok (a, cursor (pre ++ bytes) rest)

-- `w` appends exactly `bytes`.
abbrev pub Encodes : Writer → List ℕ → Type 0
Encodes w bytes = (out : List ℕ) → w out ≡ ok (out ++ bytes)

pub Decodes-return {ℓ} : {A : Type ℓ} (a : A) → Decodes (return a) a []
Decodes-return a pre rest = rw append-nil

pub bind_ok {ℓ κ} :
    {A : Type ℓ} {B : Type κ} (m : Reader A) (f : A → Reader B) (s : InputStream) {a : A}
    {s' : InputStream}
    → m s ≡ ok (a, s')
    → Input.◌>>=◌ m f s ≡ f a s'
bind_ok m f s e = rw (e, Input.◌>>=◌)

pub Decodes-bind {ℓ κ} :
    {A : Type ℓ} {B : Type κ} (m : Reader A) (f : A → Reader B) (a : A) {b : B} (xs ys : List ℕ)
    → Decodes m a xs
    → Decodes (f a) b ys
    → Decodes (Input.◌>>=◌ m f) b (xs ++ ys)
Decodes-bind m f a xs ys dm df pre rest =
    rw (append_assoc xs ys rest, ← append_assoc pre xs ys)
      (bind_ok m f _ (dm pre (ys ++ rest)) ∙ df (pre ++ xs) rest)

-- The last step of a `Read`: the value is built from what was read.
pub Decodes-map {ℓ κ} :
    {A : Type ℓ} {B : Type κ} (m : Reader A) (g : A → B) (a : A) (xs : List ℕ)
    → Decodes m a xs
    → Decodes (Input.◌>>=◌ m (λ x. return (g x))) (g a) xs
Decodes-map m g a xs dm pre rest = bind_ok m (λ x. return (g x)) _ (dm pre rest)

-- A reader that takes all of an array returns its value from `run`.
pub run-Decodes {ℓ} :
    {A : Type ℓ} (m : Reader A) (a : A) (xs : List ℕ) → Decodes m a xs → run m xs ≡ ok a
run-Decodes m a xs d = rw (rw (append-nil) at (d [] []), run)

pub then_ok :
    (w v : Writer) (out : List ℕ) {out' : List ℕ} → w out ≡ ok out' → Output.◌>>◌ w v out ≡ v out'
then_ok w v out e = rw (e, Output.◌>>◌)

pub Encodes-then :
    (w v : Writer) (xs ys : List ℕ)
    → Encodes w xs
    → Encodes v ys
    → Encodes (Output.◌>>◌ w v) (xs ++ ys)
Encodes-then w v xs ys ew ev out =
    then_ok w v out (ew out) ∙ ev (out ++ xs) ∙ ap ok (append_assoc out xs ys)

-- Little-endian bytes.
abbrev pub le8 : ℕ → List ℕ
le8 v = (v % 256) ∷ []

abbrev pub le16 : ℕ → List ℕ
le16 v = (v % 256) ∷ (v / 256 % 256) ∷ []

unfoldable pub le32 : ℕ → List ℕ
le32 v = le16 (v % 65536) ++ le16 (v / 65536 % 65536)

unfoldable pub le64 : ℕ → List ℕ
le64 v = le32 (v % 2 ^ 32) ++ le32 (v / 2 ^ 32)

pub write8-Encodes : (v : ℕ) → Encodes (write8 v) (le8 v)
unfolding write8
write8-Encodes v out = refl

pub write16-Encodes : (v : ℕ) → Encodes (write16 v) (le16 v)
unfolding write16
write16-Encodes v =
    Encodes-then (write8 v) (write8 (v / 256)) (le8 v) (le8 (v / 256)) (write8-Encodes v)
      (write8-Encodes (v / 256))

pub write32-Encodes : (v : ℕ) → Encodes (write32 v) (le32 v)
unfolding write32 le32
write32-Encodes v =
    Encodes-then (write16 (v % 65536)) (write16 (v / 65536 % 65536)) (le16 (v % 65536)) _
      (write16-Encodes (v % 65536)) (write16-Encodes (v / 65536 % 65536))

get_elem?-length : (pre rest : List ℕ) (b : ℕ) → get_elem? (pre ++ (b ∷ rest)) (length pre) ≡ some b
get_elem?-length [] rest b = refl
get_elem?-length (x ∷ pre) rest b = get_elem?-length pre rest b

pub read8-Decodes_byte : (b : ℕ) → Decodes read8 b (b ∷ [])
unfolding read8
read8-Decodes_byte b pre rest =
    rw (get_elem?-length pre rest b, read8)
      (rw (append_assoc pre (b ∷ []) rest, length-append pre (b ∷ [])))

read8-Decodes : (v : ℕ) → IsU8 v → Decodes read8 v (le8 v)
read8-Decodes v h = let e : v % 256 ≡ v = omega arith in rw e (read8-Decodes_byte v)

-- Two halves, the low one first.
module _ (read : Reader ℕ) (k a b : ℕ) (xs ys : List ℕ) where
  halves-Decodes :
      a < 2 ^ k
      → Decodes read a xs
      → Decodes read b ys
      → Decodes
          (Input.◌>>=◌ read (λ l. Input.◌>>=◌ read (λ h. return (bit_or l (h * 2 ^ k)))))
          (a + b * 2 ^ k)
          (xs ++ ys)
  halves-Decodes fits da db =
      Decodes-bind read (λ l. Input.◌>>=◌ read (λ h. return (bit_or l (h * 2 ^ k)))) a xs ys da
        (rw (← bit_or_low_high k a b fits) (Decodes-map read (λ h. bit_or a (h * 2 ^ k)) b ys db))

pub read16-Decodes : (v : ℕ) → IsU16 v → Decodes read16 v (le16 v)
unfolding read16
read16-Decodes v h =
    let e : v ≡ v % 256 + v / 256 * 2 ^ 8 = omega arith in
    let high : v / 256 % 256 ≡ v / 256 = omega arith in
    let d =
      halves-Decodes read8 8 (v % 256) (v / 256) _ _ (omega arith) (read8-Decodes_byte (v % 256))
        (read8-Decodes_byte (v / 256)) in
    rw (high) (subst (λ t. Decodes read16 t ((v % 256) ∷ (v / 256) ∷ [])) (sym e) d)

pub read32-Decodes : (v : ℕ) → IsU32 v → Decodes read32 v (le32 v)
unfolding read32 le32
read32-Decodes v h =
    let e : v ≡ v % 65536 + v / 65536 % 65536 * 2 ^ 16 = omega arith in
    let d =
      halves-Decodes read16 16 (v % 65536) (v / 65536 % 65536) _ _ (omega arith)
        (read16-Decodes (v % 65536) (omega arith))
        (read16-Decodes (v / 65536 % 65536) (omega arith)) in
    subst (λ t. Decodes read32 t (le16 (v % 65536) ++ le16 (v / 65536 % 65536))) (sym e) d

pub read64-halves :
    (low high : ℕ)
    → IsU32 low
    → IsU32 high
    → Decodes read64 (low + high * 2 ^ 32) (le32 low ++ le32 high)
unfolding read64
read64-halves low high p q =
    halves-Decodes read32 32 low high (le32 low) (le32 high) p (read32-Decodes low p)
      (read32-Decodes high q)

pub read64-Decodes : (v : ℕ) → IsU64 v → Decodes read64 v (le64 v)
unfolding le64
read64-Decodes v h =
    let e : v ≡ v % 2 ^ 32 + v / 2 ^ 32 * 2 ^ 32 = omega arith in
    subst (λ t. Decodes read64 t (le32 (v % 2 ^ 32) ++ le32 (v / 2 ^ 32))) (sym e)
      (read64-halves (v % 2 ^ 32) (v / 2 ^ 32) (omega arith) (omega arith))
