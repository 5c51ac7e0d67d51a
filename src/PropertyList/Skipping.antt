-- ===== src/PropertyList/Skipping.antt =====
-- The lists of mtp/metadata/Library.cpp under the parser of cli/Session.cpp that passes over values.
use zune_sync.Base.{
  ℕ, ◌≡◌, refl, sym, if◌then◌else◌, Bool, true, false, List, [], ◌∷◌, ◌++◌, append-nil,
  append_assoc, length, length-append, map, ok, arith, IsU16, IsU32,
}
use mathlib.Core.Path.{subst}
use zune_sync.Codes.DataTypeCode
use zune_sync.Stream.Input
use zune_sync.Stream.Input.{Reader, skip, return}
use zune_sync.Stream.Output.{Writer, ◌>>◌, nothing, write16, write32}
use zune_sync.Stream.Codec.{Decodes, le16, le32, write16-Encodes, write32-Encodes}
use zune_sync.Stream.Fields.{
  Codes, Codes-then, Codes-last, u16_Codes, u32_Codes, text_Codes, IsMessageText, run-Codes,
}
use zune_sync.PropertyList.Entries.{string_property, u32_property, u16_property}
use zune_sync.PropertyList.Parser.{
  Property, parse_skipping, parse_property, parse_properties, parse,
}

-- An entry whose value was passed over.
abbrev pub listed : ℕ → Property (List ℕ)
listed property = record { object_id = 0; property = property; value = [] }

skip-Decodes :
    (n : ℕ) (bytes : List ℕ)
    → length bytes ≡ n
    → Decodes {A = List ℕ} (Input.◌>>=◌ (skip n) (λ _. return [])) [] bytes
unfolding skip
skip-Decodes n bytes e pre rest =
    ground (arith, append_assoc pre bytes rest, length-append pre bytes, e)

skip_u16-Codes : (v : ℕ) → Codes (write16 v) (Input.◌>>=◌ (skip 2) (λ _. return {A = List ℕ} [])) []
skip_u16-Codes v = record {
  bytes = le16 v;
  encodes = write16-Encodes v;
  decodes = skip-Decodes 2 (le16 v) refl;
}

skip_u32-Codes : (v : ℕ) → Codes (write32 v) (Input.◌>>=◌ (skip 4) (λ _. return {A = List ℕ} [])) []
unfolding le32
skip_u32-Codes v = record {
  bytes = le32 v;
  encodes = write32-Encodes v;
  decodes = skip-Decodes 4 (le32 v) refl;
}

-- A writer of one entry with this property.
abbrev pub IsEntry : Writer → ℕ → Type 0
IsEntry w property = Codes w (parse_property parse_skipping) (listed property)

pub string_property-IsEntry :
    (property : ℕ) (value : List ℕ)
    → IsU16 property
    → IsMessageText value
    → IsEntry (string_property property value) property
unfolding string_property parse_property parse_skipping
string_property-IsEntry property value p t = Codes-then _ _ _ _ _ (u32_Codes 0 (omega arith)) (
    Codes-then _ _ _ _ _ (u16_Codes property p) (
      Codes-then _ _ _ _ _ (u16_Codes DataTypeCode.string (omega arith))
        (Codes-last _ _ _ _ (Codes-last _ _ _ _ (text_Codes value t)))))

pub u32_property-IsEntry :
    (property value : ℕ) → IsU16 property → IsEntry (u32_property property value) property
unfolding u32_property parse_property parse_skipping
u32_property-IsEntry property value p = Codes-then _ _ _ _ _ (u32_Codes 0 (omega arith)) (
    Codes-then _ _ _ _ _ (u16_Codes property p) (
      Codes-then _ _ _ _ _ (u16_Codes DataTypeCode.uint32 (omega arith))
        (Codes-last _ _ _ _ (skip_u32-Codes value))))

pub u16_property-IsEntry :
    (property value : ℕ) → IsU16 property → IsEntry (u16_property property value) property
unfolding u16_property parse_property parse_skipping
u16_property-IsEntry property value p = Codes-then _ _ _ _ _ (u32_Codes 0 (omega arith)) (
    Codes-then _ _ _ _ _ (u16_Codes property p) (
      Codes-then _ _ _ _ _ (u16_Codes DataTypeCode.uint16 (omega arith))
        (Codes-last _ _ _ _ (skip_u16-Codes value))))

-- A writer of the entries with these properties.
abbrev pub AreEntries : Writer → List ℕ → Type 0
AreEntries w properties =
    Codes w (parse_properties parse_skipping (length properties)) (map listed properties)

nothing-AreEntries : AreEntries nothing []
unfolding parse_properties
nothing-AreEntries = record {
  bytes = [];
  encodes = λ out. rw (append-nil) refl;
  decodes = λ pre rest. rw (append-nil) refl;
}

pub AreEntries-then :
    (w v : Writer) (property : ℕ) (properties : List ℕ)
    → IsEntry w property
    → AreEntries v properties
    → AreEntries (w >> v) (property ∷ properties)
unfolding parse_properties
AreEntries-then w v property properties c d = Codes-then w v _ _ (listed property) c (
    Codes-last v (parse_properties parse_skipping (length properties))
      (λ rest. listed property ∷ rest) (map listed properties) d)

pub AreEntries-last :
    (w : Writer) (property : ℕ) → IsEntry w property → AreEntries w (property ∷ [])
unfolding parse_properties
AreEntries-last w property c =
    Codes-last w (parse_property parse_skipping) (λ p. p ∷ []) (listed property) c

-- An entry that is written under a condition.
pub AreEntries-if :
    (test : Bool) (w v : Writer) (property : ℕ) (properties : List ℕ)
    → IsEntry w property
    → AreEntries v properties
    → AreEntries
        ((if test then w else nothing) >> v)
        ((if test then property ∷ [] else []) ++ properties)
AreEntries-if true w v property properties c d = AreEntries-then w v property properties c d
AreEntries-if false w v property properties c d = d

pub AreEntries-last_if :
    (test : Bool) (w v : Writer) (property last : ℕ)
    → IsEntry w property
    → IsEntry v last
    → AreEntries (w >> (if test then v else nothing)) (property ∷ (if test then last ∷ [] else []))
AreEntries-last_if true w v property last c d =
    AreEntries-then w v property (last ∷ []) c (AreEntries-last v last d)
AreEntries-last_if false w v property last c d =
    AreEntries-then w nothing property [] c nothing-AreEntries

-- A list that announces its number of entries.
pub parse-AreEntries :
    (n : ℕ) (w : Writer) (properties : List ℕ)
    → IsU32 n
    → n ≡ length properties
    → AreEntries w properties
    → (bytes : List ℕ) × ((write32 n >> w) [] ≡ ok bytes)
      × (parse parse_skipping bytes ≡ ok (map listed properties))
unfolding parse
parse-AreEntries n w properties fits e c = run-Codes (write32 n >> w) _ (map listed properties) (
    Codes-then (write32 n) w _ _ n (u32_Codes n fits)
      (subst (λ k. Codes w (parse_properties parse_skipping k) (map listed properties)) (sym e) c))
