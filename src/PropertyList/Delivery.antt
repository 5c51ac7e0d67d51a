-- ===== src/PropertyList/Delivery.antt =====
-- What the callback of ObjectPropertyListParser is called for, from the bytes of a list of texts.
use zune_sync.Base.{ℕ, ◌≡◌, List, [], ◌∷◌, ◌++◌, length, map, All, IsU16, IsU32, arith}
use zune_sync.Base.Stateful.{Stateful, for_each}
use zune_sync.Codes.DataTypeCode
use zune_sync.Stream.Input.{◌>>=◌, return, read16, read32, read_string}
use zune_sync.Stream.Codec.{
  Decodes, Decodes-return, Decodes-bind, Decodes-map, run-Decodes, le16, le32, read16-Decodes,
  read32-Decodes,
}
use zune_sync.Stream.Text.{IsText, utf8, text_bytes, read_string-Decodes}
use zune_sync.Stream.Characters.{characters_bytes, utf8-characters}
use zune_sync.PropertyList.Parser.{
  Property, parse_string, parse_property, parse_properties, parse, parse_each,
}
use zune_sync.PropertyList.Callbacks.{parse_each-parse}

-- An entry of a list: the object, the property, and the units of the text.
pub record Entry : Type 0 where
  pub object_id : ℕ
  pub property : ℕ
  pub units : List ℕ

pub record IsEncodable (e : Entry) : Type 0 where
  pub object_fits : IsU32 e.object_id
  pub property_fits : IsU16 e.property
  pub text : IsText e.units

-- The bytes of an entry, as the device sends it.
abbrev pub entry_bytes : Entry → List ℕ
entry_bytes e =
    le32 e.object_id ++ (le16 e.property ++ (le16 DataTypeCode.string ++ text_bytes e.units))

abbrev pub entries_bytes : List Entry → List ℕ
entries_bytes [] = []
entries_bytes (e ∷ es) = entry_bytes e ++ entries_bytes es

abbrev the_property : ℕ → ℕ → List ℕ → Property (List ℕ)
the_property id property value = record { object_id = id; property = property; value = value }

abbrev pub property_of : Entry → Property (List ℕ)
property_of e = the_property e.object_id e.property (characters_bytes e.units)

parse_property-Decodes :
    (e : Entry)
    → IsEncodable e
    → Decodes (parse_property parse_string) (property_of e) (entry_bytes e)
unfolding parse_property parse_string
parse_property-Decodes e h = rw (← utf8-characters e.units h.text.units) (
    Decodes-bind read32
      (λ id. read16 >>= λ property.
        read16 >>= λ type. parse_string type >>= λ value. return (the_property id property value))
      e.object_id (le32 e.object_id) _ (read32-Decodes e.object_id h.object_fits)
      (Decodes-bind read16
        (λ property. read16 >>= λ type.
          parse_string type >>= λ value. return (the_property e.object_id property value))
        e.property (le16 e.property) _ (read16-Decodes e.property h.property_fits)
        (Decodes-bind read16
          (λ type.
            parse_string type >>= λ value. return (the_property e.object_id e.property value))
          DataTypeCode.string (le16 DataTypeCode.string) (text_bytes e.units)
          (read16-Decodes DataTypeCode.string (omega arith))
          (Decodes-map read_string (the_property e.object_id e.property) (utf8 e.units)
            (text_bytes e.units) (read_string-Decodes e.units h.text)))))

parse_properties-Decodes :
    (es : List Entry)
    → All IsEncodable es
    → Decodes (parse_properties parse_string (length es)) (map property_of es) (entries_bytes es)
unfolding parse_properties
parse_properties-Decodes [] h = Decodes-return []
parse_properties-Decodes (e ∷ es) h =
    Decodes-bind (parse_property parse_string)
      (λ first. parse_properties parse_string (length es) >>= λ rest. return (first ∷ rest))
      (property_of e) (entry_bytes e) (entries_bytes es) (parse_property-Decodes e h.0)
      (Decodes-map (parse_properties parse_string (length es)) (λ rest. property_of e ∷ rest)
        (map property_of es) (entries_bytes es) (parse_properties-Decodes es h.1))

-- From a list as MTP lays it out, a count and then for each entry the object, the property, the type and
-- the text, `Parse` calls its callback for these entries, in order, and for nothing else: what it does, and
-- where it stops when a call throws, is that of a loop over them.
pub parse_each-entries :
    {S : Type 0} (func : Property (List ℕ) → Stateful S (Unit {0})) (es : List Entry)
    → IsU32 (length es)
    → All IsEncodable es
    → parse_each parse_string func (le32 (length es) ++ entries_bytes es)
      ≡ for_each func (map property_of es)
unfolding parse
parse_each-entries func es fits h =
    parse_each-parse parse_string func (le32 (length es) ++ entries_bytes es) (map property_of es) (
      run-Decodes (read32 >>= λ n. parse_properties parse_string n) (map property_of es)
        (le32 (length es) ++ entries_bytes es)
        (Decodes-bind read32 (λ n. parse_properties parse_string n) (length es) (le32 (length es))
          (entries_bytes es) (read32-Decodes (length es) fits) (parse_properties-Decodes es h)))
