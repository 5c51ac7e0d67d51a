-- ===== src/PropertyList/Tests.antt =====
-- The theorems about property lists at concrete inputs.
use zune_sync.Base.{◌++◌, map, All, arith, ℕ, ◌≡◌, List, [], ◌∷◌, ok}
use zune_sync.Codes.ObjectProperty
use zune_sync.PropertyList.Parser.{Property, parse_string, parse_each}
use zune_sync.Stream.Codec.{le32}
use zune_sync.PropertyList.Delivery.{
  Entry, IsEncodable, entries_bytes, property_of, parse_each-entries,
}
use zune_sync.Base.Stateful.{Stateful, for_each}

-- The name "a" of the object 5, and the name "b" of the object 6.
abbrev two_entries : List Entry
two_entries =
    record { object_id = 5; property = ObjectProperty.name; units = b'a' ∷ [] }
    ∷ (record { object_id = 6; property = ObjectProperty.name; units = b'b' ∷ [] } ∷ [])

two_entries-IsEncodable : All IsEncodable two_entries
two_entries-IsEncodable = (
  record {
    object_fits = omega arith;
    property_fits = omega arith;
    text = record { units = ((omega arith, omega arith), tt); short = omega arith };
  },
  (
    record {
      object_fits = omega arith;
      property_fits = omega arith;
      text = record { units = ((omega arith, omega arith), tt); short = omega arith };
    },
    tt,
  ),
)

-- A callback that collects the values.
abbrev collect : Property (List ℕ) → Stateful (List (List ℕ)) (Unit {0})
collect p values = (ok tt, p.value ∷ values)

parse_each-entries_example :
    parse_each parse_string collect (le32 2 ++ entries_bytes two_entries)
    ≡ for_each collect (map property_of two_entries)
parse_each-entries_example =
    parse_each-entries collect two_entries (omega arith) two_entries-IsEncodable
