-- ===== src/Stream/Fields.antt =====
-- A field of a message: a writer and a reader that agree on its bytes.
use zune_sync.Base.{ℕ, ◌≡◌, List, [], ◌∷◌, ◌++◌, length, All, IsU16, IsU32, ok}
use zune_sync.Stream.Input
use zune_sync.Stream.Input.{Reader, return, run, read8, read16, read32, read_string, read_array}
use zune_sync.Stream.Output
use zune_sync.Stream.Output.{Writer, write8, write16, write32, write_string, write_array}
use zune_sync.Stream.Codec.{
  Decodes, Encodes, Decodes-bind, Decodes-map, Encodes-then, run-Decodes, le16, le32,
  write16-Encodes, write32-Encodes, read16-Decodes, read32-Decodes,
}
use zune_sync.Stream.Arrays.{array_bytes, write_array-Encodes, read_array-Decodes}
use zune_sync.Stream.Text.{IsText, utf8, text_bytes, write_string-Encodes, read_string-Decodes}

-- `w` appends some bytes from which `m` reads `a`.
pub record Codes {ℓ} {A : Type ℓ} (w : Writer) (m : Reader A) (a : A) : Type ℓ where
  pub bytes : List ℕ
  pub encodes : Encodes w bytes
  pub decodes : Decodes m a bytes

pub Codes-then {ℓ κ} :
    {A : Type ℓ} {B : Type κ} (w v : Writer) (m : Reader A) (f : A → Reader B) (a : A) {b : B}
    → Codes w m a
    → Codes v (f a) b
    → Codes (Output.◌>>◌ w v) (Input.◌>>=◌ m f) b
Codes-then w v m f a first rest = record {
  bytes = first.bytes ++ rest.bytes;
  encodes = Encodes-then w v first.bytes rest.bytes first.encodes rest.encodes;
  decodes = Decodes-bind m f a first.bytes rest.bytes first.decodes rest.decodes;
}

-- The last field, and the message that is built from all.
pub Codes-last {ℓ κ} :
    {A : Type ℓ} {B : Type κ} (w : Writer) (m : Reader A) (g : A → B) (a : A)
    → Codes w m a
    → Codes w (Input.◌>>=◌ m (λ x. return (g x))) (g a)
Codes-last w m g a field = record {
  bytes = field.bytes;
  encodes = field.encodes;
  decodes = Decodes-map m g a field.bytes field.decodes;
}

pub u16_Codes : (v : ℕ) → IsU16 v → Codes (write16 v) read16 v
u16_Codes v h = record { bytes = le16 v; encodes = write16-Encodes v; decodes = read16-Decodes v h }

pub u32_Codes : (v : ℕ) → IsU32 v → Codes (write32 v) read32 v
u32_Codes v h = record { bytes = le32 v; encodes = write32-Encodes v; decodes = read32-Decodes v h }

-- A string of the program that a message can hold.
abbrev pub IsMessageText : List ℕ → Type 0
IsMessageText s = (us : List ℕ) × IsText us × (s ≡ utf8 us)

pub text_Codes : (s : List ℕ) → IsMessageText s → Codes (write_string s) read_string s
text_Codes s (us, t, e) = rw e (record {
  bytes = text_bytes us;
  encodes = write_string-Encodes us t;
  decodes = read_string-Decodes us t;
})

pub u32_array_Codes :
    (xs : List ℕ)
    → IsU32 (length xs)
    → All IsU32 xs
    → Codes (write_array write32 xs) (read_array read32) xs
u32_array_Codes xs fits h = record {
  bytes = array_bytes le32 xs;
  encodes = write_array-Encodes le32 write32 write32-Encodes xs;
  decodes = read_array-Decodes le32 read32 xs fits (each xs h);
}
  where
    each : (ys : List ℕ) → All IsU32 ys → All (λ y. Decodes read32 y (le32 y)) ys
    each [] k = tt
    each (y ∷ ys) k = (read32-Decodes y k.0, each ys k.1)

-- What a message writes, its `Read` gets back.
pub run-Codes :
    {A : Type 0} (w : Writer) (m : Reader A) (a : A)
    → Codes w m a
    → (bytes : List ℕ) × (w [] ≡ ok bytes) × (run m bytes ≡ ok a)
run-Codes w m a c = (c.bytes, c.encodes [], run-Decodes m a c.bytes c.decodes)
