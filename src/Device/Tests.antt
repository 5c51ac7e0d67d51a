-- ===== src/Device/Tests.antt =====
-- The theorems about the device at concrete inputs.
use zune_sync.Base.{ℕ, ◌≡◌, ◌≢◌, refl, List, [], ◌∷◌, flatten, Error, ok, err, All, arith}
use zune_sync.Device.Descriptor.{get_interface_string_index}
use zune_sync.Device.Endings.{get_interface_string_index-ends}
use zune_sync.Device.Layout.{IsDescriptor, byte_of, first_index, get_interface_string_index-first}

-- A configuration descriptor and two interfaces, the second of which has the number 1 and the string 6.
abbrev row : List (List ℕ)
row =
    (3 ∷ (2 ∷ (9 ∷ [])))
    ∷ ((9 ∷ (4 ∷ (0 ∷ (0 ∷ (2 ∷ (8 ∷ (6 ∷ (80 ∷ (5 ∷ [])))))))))
        ∷ ((9 ∷ (4 ∷ (1 ∷ (0 ∷ (3 ∷ (6 ∷ (1 ∷ (1 ∷ (6 ∷ []))))))))) ∷ []))

row-IsDescriptor : All IsDescriptor row
row-IsDescriptor = (
  record { counted = refl; has_type = omega arith },
  (
    record { counted = refl; has_type = omega arith },
    (record { counted = refl; has_type = omega arith }, tt),
  ),
)

first_6 : first_index 1 row ≡ ok 6
unfolding first_index byte_of
first_6 = refl

get_interface_string_index-first_example :
    get_interface_string_index (flatten row) 1 ≡ first_index 1 row
get_interface_string_index-first_example = get_interface_string_index-first row 1 row-IsDescriptor

get_interface_string_index-ends_example :
    get_interface_string_index (2 ∷ (7 ∷ (9 ∷ []))) 0 ≢ err Error.out_of_fuel
get_interface_string_index-ends_example = get_interface_string_index-ends (2 ∷ (7 ∷ (9 ∷ []))) 0
