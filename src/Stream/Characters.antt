-- ===== src/Stream/Characters.antt =====
-- The strings of mtp/ptp/OutputStream.h and InputStream.h over the UTF-8 of their characters.
use zune_sync.Base.{
  ℕ, ◌+◌, ◌/◌, ◌%◌, ◌≡◌, refl, ap, ltb, if◌then◌else◌, inl, inr, Bool-cases, List, [], ◌∷◌, ◌++◌,
  All, arith, ok,
}
use zune_sync.Stream.Input.{run, read_string, unit_bytes}
use zune_sync.Stream.Output.{write_string}
use zune_sync.Stream.Codec.{run-Decodes}
use zune_sync.Stream.Text.{
  IsUnit, IsText, utf8, text_bytes, unit_bytes_one, unit_bytes_two, unit_bytes_three,
  write_string-Encodes, read_string-Decodes,
}

-- The bytes of a character of the basic plane.
unfoldable pub character_bytes : ℕ → List ℕ
character_bytes c =
    if ltb c 128
    then c ∷ []
    else if ltb c 2048
    then (c / 64 + 192) ∷ (c % 64 + 128) ∷ []
    else (c / 4096 + 224) ∷ (c / 64 % 64 + 128) ∷ (c % 64 + 128) ∷ []

unfoldable pub characters_bytes : List ℕ → List ℕ
characters_bytes [] = []
characters_bytes (c ∷ cs) = character_bytes c ++ characters_bytes cs

character_bytes-unit_bytes : (c : ℕ) → IsUnit c → unit_bytes c ≡ character_bytes c
unfolding character_bytes
character_bytes-unit_bytes c h = elim (Bool-cases (ltb c 128)) [
  | inl e ↦ rw e (unit_bytes_one c h.0 (ground (arith, e)))
  | inr e ↦ rw e (elim (Bool-cases (ltb c 2048)) [
    | inl f ↦ rw f (unit_bytes_two c (ground (arith, e)) (ground (arith, f)))
    | inr f ↦ rw f (unit_bytes_three c (ground (arith, f)) h.1)
  ])
]

pub utf8-characters : (cs : List ℕ) → All IsUnit cs → utf8 cs ≡ characters_bytes cs
unfolding utf8 characters_bytes
utf8-characters [] h = refl
utf8-characters (c ∷ cs) h =
    rw (character_bytes-unit_bytes c h.0)
      (ap (λ t. character_bytes c ++ t) (utf8-characters cs h.1))

-- The UTF-8 of at most 254 characters of the basic plane, each of one to three bytes and none of them 0,
-- is written by `WriteString` and read back by `ReadString` as it was.
pub read_string-write_string :
    (cs : List ℕ)
    → IsText cs
    → (bytes : List ℕ) × (write_string (characters_bytes cs) [] ≡ ok bytes)
      × (run read_string bytes ≡ ok (characters_bytes cs))
read_string-write_string cs t = rw (← utf8-characters cs t.units) (
  text_bytes cs,
  write_string-Encodes cs t [],
  run-Decodes read_string (utf8 cs) (text_bytes cs) (read_string-Decodes cs t),
)
