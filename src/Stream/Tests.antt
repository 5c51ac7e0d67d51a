-- ===== src/Stream/Tests.antt =====
-- The theorems about streams at concrete inputs.
use zune_sync.Base.{ℕ, ◌/◌, ◌%◌, ◌^◌, ◌≡◌, ◌↔◌, List, [], ◌∷◌, ◌++◌, Error, ok, err, arith}
use zune_sync.Stream.Input.{run, read64, read_string}
use zune_sync.Stream.Output.{write64, write_string}
use zune_sync.Stream.Text.{IsText}
use zune_sync.Stream.Characters.{characters_bytes, read_string-write_string}
use zune_sync.Stream.Faults.{read64-write64, write_string-four_bytes}

-- One unit of one, of two and of three bytes.
abbrev units : List ℕ
units = 0x41 ∷ 0x416 ∷ 0x20ac ∷ []

units-IsText : IsText units
units-IsText = record {
  units =
      ((omega arith, omega arith), ((omega arith, omega arith), ((omega arith, omega arith), tt)));
  short = omega arith;
}

read_string-write_string_example :
    (bytes : List ℕ) × (write_string (characters_bytes units) [] ≡ ok bytes)
    × (run read_string bytes ≡ ok (characters_bytes units))
read_string-write_string_example = read_string-write_string units units-IsText

read64-write64_example :
    (bytes : List ℕ) × (write64 0x1_0000_0000 [] ≡ ok bytes)
    × ((run read64 bytes ≡ ok 0x1_0000_0000)
        ↔ (0x1_0000_0000 / 2 ^ 32 ≡ 0x1_0000_0000 % 2 ^ 32 / 2 ^ 16))
read64-write64_example = read64-write64 0x1_0000_0000 (omega arith)

-- U+1F600 behind the letter A.
write_string-four_bytes_example :
    write_string (characters_bytes (0x41 ∷ []) ++ (0xf0 ∷ 0x9f ∷ 0x98 ∷ 0x80 ∷ [])) []
    ≡ err Error.past_terminator
write_string-four_bytes_example =
    write_string-four_bytes (0x41 ∷ []) 0xf0 0x9f 0x98 0x80 [] ((omega arith, omega arith), tt)
      (omega arith)
      (record {
        lead_low = omega arith;
        lead_high = omega arith;
        second = (omega arith, omega arith);
        third = (omega arith, omega arith);
        fourth = (omega arith, omega arith);
      })
