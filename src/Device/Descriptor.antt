-- ===== src/Device/Descriptor.antt =====
-- `Device::GetInterfaceStringIndex` of mtp/ptp/Device.cpp.
use zune_sync.Base.{
  ◌>>=◌, ℕ, zero, suc, ◌+◌, ◌==◌, ltb, leb, ◌&&◌, Bool, if◌then◌else◌, List, length, get_elem?,
  none, some, Error, Result, ok, err,
}

-- `descData.at(position)`
unfoldable pub byte_at : List ℕ → ℕ → Result ℕ
byte_at bytes position = elim (get_elem? bytes position) [
  | some b ↦ ok b
  | none ↦ err Error.out_of_range
]

-- `DT_INTERFACE`
abbrev pub dt_interface : ℕ
dt_interface = 4

-- The rest of a round: the answer, or what the next rounds give.
unfoldable pub string_index_or : List ℕ → ℕ → ℕ → Bool → Result ℕ → Result ℕ
string_index_or bytes number offset is_interface next =
    if is_interface
    then (byte_at bytes (offset + 2) >>= λ n.
        if n == number then byte_at bytes (offset + 8) else next)
    else next

-- A round at `offset`; `next` goes on behind a descriptor of this length.
unfoldable pub string_index_round : List ℕ → ℕ → ℕ → (ℕ → Result ℕ) → Result ℕ
string_index_round bytes number offset next = byte_at bytes (offset + 0) >>= λ len.
    (byte_at bytes (offset + 1) >>= λ type.
    if ltb len 2
    then err Error.invalid_descriptor
    else string_index_or bytes number offset ((type == dt_interface) && leb 9 len) (next len))

-- The loop, with at most this number of rounds.
unfoldable pub string_index_from : List ℕ → ℕ → ℕ → ℕ → Result ℕ
string_index_from bytes number zero offset = err Error.out_of_fuel
string_index_from bytes number (suc rounds) offset =
    if ltb offset (length bytes)
    then string_index_round bytes number offset
        (λ len. string_index_from bytes number rounds (offset + len))
    else err Error.no_interface_descriptor

unfoldable pub get_interface_string_index : List ℕ → ℕ → Result ℕ
get_interface_string_index bytes number = string_index_from bytes number (suc (length bytes)) 0
