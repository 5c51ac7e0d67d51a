-- ===== src/Stream/Arrays.antt =====
-- The round trip of `WriteArray` and `ReadArray`.
use zune_sync.Base.{
  ℕ, ◌<◌, ◌≡◌, sym, ap, List, [], ◌∷◌, ◌++◌, length, length-append, All, arith, IsU32, ok, lt→leb,
}
use zune_sync.Stream.Input.{Reader, run, at_end, read32, read_elements, read_array}
use zune_sync.Stream.Output.{Writer, write32, write_elements, write_array}
use zune_sync.Stream.Codec.{
  Decodes, Encodes, Decodes-return, Decodes-bind, Decodes-map, Encodes-then, run-Decodes, le32,
  write32-Encodes, read32-Decodes,
}
use mathlib.Core.List.{append-nil}

module _ {A : Type 0} (bytes : A → List ℕ) where
  -- The elements' bytes, one after the other.
  abbrev pub elements_bytes : List A → List ℕ
  elements_bytes [] = []
  elements_bytes (x ∷ xs) = bytes x ++ elements_bytes xs

  abbrev pub array_bytes : List A → List ℕ
  array_bytes xs = le32 (length xs) ++ elements_bytes xs

  module _ (write : A → Writer) (encodes : (x : A) → Encodes (write x) (bytes x)) where
    write_elements-Encodes : (xs : List A) → Encodes (write_elements write xs) (elements_bytes xs)
    unfolding write_elements
    write_elements-Encodes [] out = ap ok (sym (append-nil out))
    write_elements-Encodes (x ∷ xs) out =
        Encodes-then (write x) (write_elements write xs) (bytes x) (elements_bytes xs) (encodes x)
          (write_elements-Encodes xs) out

    pub write_array-Encodes : (xs : List A) → Encodes (write_array write xs) (array_bytes xs)
    unfolding write_array
    write_array-Encodes xs =
        Encodes-then (write32 (length xs)) (write_elements write xs) (le32 (length xs))
          (elements_bytes xs) (write32-Encodes (length xs)) (write_elements-Encodes xs)

  module _ (read : Reader A) where
    read_elements-Decodes :
        (xs : List A)
        → All (λ x. Decodes read x (bytes x)) xs
        → Decodes (read_elements read (length xs)) xs (elements_bytes xs)
    unfolding read_elements
    read_elements-Decodes [] h = Decodes-return []
    read_elements-Decodes (x ∷ xs) h = Decodes-bind read _ x (bytes x) (elements_bytes xs) h.0 (
        Decodes-map (read_elements read (length xs)) (λ array. x ∷ array) xs (elements_bytes xs)
          (read_elements-Decodes xs h.1))

    -- The size comes first, so an array is never taken for the end of the data.
    pub read_array-Decodes :
        (xs : List A)
        → IsU32 (length xs)
        → All (λ x. Decodes read x (bytes x)) xs
        → Decodes (read_array read) xs (array_bytes xs)
    unfolding read_array at_end le32
    read_array-Decodes xs fits h pre rest =
        rw (lt→leb (length (pre ++ (array_bytes xs ++ rest))) (length pre) more) (
          Decodes-bind read32 (read_elements read) (length xs) (le32 (length xs))
            (elements_bytes xs) (read32-Decodes (length xs) fits) (read_elements-Decodes xs h) pre
            rest)
      where
        more : length pre < length (pre ++ (array_bytes xs ++ rest))
        more = rw (length-append pre (array_bytes xs ++ rest)) (omega arith)

-- Every list of u32 values whose length is a u32 is written by `WriteArray` and read back by
-- `ReadArray`.
read_array-write_array :
    (xs : List ℕ)
    → IsU32 (length xs)
    → All IsU32 xs
    → (bytes : List ℕ) × (write_array write32 xs [] ≡ ok bytes)
      × (run (read_array read32) bytes ≡ ok xs)
read_array-write_array xs fits h = (
  array_bytes le32 xs,
  write_array-Encodes le32 write32 write32-Encodes xs [],
  run-Decodes (read_array read32) xs (array_bytes le32 xs)
      (read_array-Decodes le32 read32 xs fits (each xs h)),
)
  where
    each : (ys : List ℕ) → All IsU32 ys → All (λ y. Decodes read32 y (le32 y)) ys
    each [] k = tt
    each (y ∷ ys) k = (read32-Decodes y k.0, each ys k.1)
