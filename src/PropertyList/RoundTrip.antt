-- ===== src/PropertyList/RoundTrip.antt =====
-- The property lists that are written are the ones that the parser reads.
use zune_sync.Base.{ℕ, suc, ◌≡◌, List, [], ◌∷◌, ◌++◌, ok, arith, IsU16}
use zune_sync.Codes.ObjectProperty
use zune_sync.Codes.DataTypeCode
use zune_sync.Stream.Output.{Writer, ◌>>◌}
use zune_sync.Stream.Fields.{
  Codes, Codes-then, Codes-last, u16_Codes, u32_Codes, text_Codes, IsMessageText, run-Codes,
}
use zune_sync.PropertyList.Entries.{string_property, filename_property, artist_properties}
use zune_sync.PropertyList.Parser.{Property, parse_string, parse_property, parse_properties, parse}

-- An entry with a text.
abbrev pub text_property : ℕ → List ℕ → Property (List ℕ)
text_property property value = record { object_id = 0; property = property; value = value }

string_property-Codes :
    (property : ℕ) (value : List ℕ)
    → IsU16 property
    → IsMessageText value
    → Codes
        (string_property property value)
        (parse_property parse_string)
        (text_property property value)
unfolding string_property parse_property parse_string
string_property-Codes property value p t = Codes-then _ _ _ _ _ (u32_Codes 0 (omega arith)) (
    Codes-then _ _ _ _ _ (u16_Codes property p) (
      Codes-then _ _ _ _ _ (u16_Codes DataTypeCode.string (omega arith))
        (Codes-last _ _ _ _ (text_Codes value t))))

properties-Codes :
    (n : ℕ) (w v : Writer) (p : Property (List ℕ)) {ps : List (Property (List ℕ))}
    → Codes w (parse_property parse_string) p
    → Codes v (parse_properties parse_string n) ps
    → Codes (w >> v) (parse_properties parse_string (suc n)) (p ∷ ps)
unfolding parse_properties
properties-Codes n w v p {ps} c d =
    Codes-then w v _ _ p c (Codes-last v (parse_properties parse_string n) (λ rest. p ∷ rest) ps d)

-- The list that `CreateDirectory` and `SendObjectInfo` send for a name that a message can hold is one
-- entry that the parser gives back: the handle 0, the file name property and the name.
parse-filename_property :
    (name : List ℕ)
    → IsMessageText name
    → (bytes : List ℕ) × (filename_property name [] ≡ ok bytes)
      × (parse parse_string bytes ≡ ok (text_property ObjectProperty.object_filename name ∷ []))
unfolding filename_property parse parse_properties
parse-filename_property name t = run-Codes (filename_property name) _ _ (
    Codes-then _ _ _ _ _ (u32_Codes 1 (omega arith)) (
      Codes-last _ _ _ _
        (string_property-Codes ObjectProperty.object_filename name (omega arith) t)))

-- The list that `CreateArtist` sends announces two entries and the parser gives both back: the name,
-- and the name with ".art" as the file name. Both must be texts that a message can hold.
parse-artist_properties :
    (name : List ℕ)
    → IsMessageText name
    → IsMessageText (name ++ (b'.' ∷ b'a' ∷ b'r' ∷ b't' ∷ []))
    → (bytes : List ℕ) × (artist_properties name [] ≡ ok bytes)
      × (parse parse_string bytes
          ≡ ok (
              text_property ObjectProperty.name name
              ∷ text_property ObjectProperty.object_filename
                  (name ++ (b'.' ∷ b'a' ∷ b'r' ∷ b't' ∷ []))
              ∷ []))
unfolding artist_properties parse parse_properties
parse-artist_properties name t u = run-Codes (artist_properties name) _ _ (
    Codes-then _ _ _ _ _ (u32_Codes 2 (omega arith)) (
      properties-Codes 1 _ _ _ (string_property-Codes ObjectProperty.name name (omega arith) t) (
        Codes-last _ _ _ _
          (string_property-Codes ObjectProperty.object_filename _ (omega arith) u))))
