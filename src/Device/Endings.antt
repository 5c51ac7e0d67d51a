-- ===== src/Device/Endings.antt =====
-- The loop over the descriptors ends.
use zune_sync.Base.{
  ◌>>=◌, ℕ, zero, suc, ◌+◌, ◌≤◌, ◌==◌, ltb, leb, ◌&&◌, ◌≡◌, ◌≢◌, refl, Bool, true, false, inl, inr,
  if◌then◌else◌, List, length, get_elem?, Option-cases, Error, Result, ok, err, arith, le→ltb,
}
use zune_sync.Device.Descriptor.{
  byte_at, dt_interface, string_index_or, string_index_round, string_index_from,
  get_interface_string_index,
}

-- A result that is not the end of the rounds.
abbrev Ends : Result ℕ → Type 0
Ends r = r ≢ err Error.out_of_fuel

bind_Ends : (m : Result ℕ) (f : ℕ → Result ℕ) → Ends m → ((a : ℕ) → Ends (f a)) → Ends (m >>= f)
bind_Ends (ok a) f h k = k a
bind_Ends (err e) f h k = h

if_Ends :
    (test : Bool) (r s : Result ℕ)
    → (test ≡ true → Ends r)
    → (test ≡ false → Ends s)
    → Ends (if test then r else s)
if_Ends true r s h k = h refl
if_Ends false r s h k = k refl

byte_at-Ends : (bytes : List ℕ) (position : ℕ) → Ends (byte_at bytes position)
unfolding byte_at
byte_at-Ends bytes position = elim (Option-cases (get_elem? bytes position)) [
  | inl e ↦ rw (e, byte_at) (λ p. grind (arith, p))
  | inr (b, e) ↦ rw (e, byte_at) (λ p. grind (arith, p))
]

string_index_or-Ends :
    (bytes : List ℕ) (number offset : ℕ) (is_interface : Bool) (next : Result ℕ)
    → Ends next
    → Ends (string_index_or bytes number offset is_interface next)
unfolding string_index_or
string_index_or-Ends bytes number offset is_interface next h =
    if_Ends is_interface _ _
      (λ p.
        bind_Ends (byte_at bytes (offset + 2)) _ (byte_at-Ends bytes (offset + 2))
          (λ n. if_Ends (n == number) _ _ (λ q. byte_at-Ends bytes (offset + 8)) (λ q. h)))
      (λ p. h)

string_index_from-Ends :
    (bytes : List ℕ) (number rounds offset : ℕ)
    → length bytes ≤ offset + rounds
    → Ends (string_index_from bytes number (suc rounds) offset)
unfolding string_index_from string_index_round
string_index_from-Ends bytes number zero offset h =
    rw (le→ltb offset (length bytes) (omega (arith, h))) (λ p. grind (arith, p))
string_index_from-Ends bytes number (suc rounds) offset h =
    if_Ends (ltb offset (length bytes)) _ _
      (λ p. bind_Ends (byte_at bytes (offset + 0)) _ (byte_at-Ends bytes (offset + 0)) (λ len.
        bind_Ends (byte_at bytes (offset + 1)) _ (byte_at-Ends bytes (offset + 1)) (λ type.
          if_Ends (ltb len 2) _ _ (λ q r. grind (arith, r))
            (λ q.
              string_index_or-Ends bytes number offset ((type == dt_interface) && leb 9 len) _ (
                string_index_from-Ends bytes number rounds (offset + len)
                  (ground (arith, h, q)))))))
      (λ p q. grind (arith, q))

-- `GetInterfaceStringIndex` ends for every descriptor, whatever its bytes are: with the rounds that the
-- loop is given, one more than there are bytes, it comes to an answer or to one of its exceptions.
pub get_interface_string_index-ends :
    (bytes : List ℕ) (number : ℕ) → get_interface_string_index bytes number ≢ err Error.out_of_fuel
unfolding get_interface_string_index
get_interface_string_index-ends bytes number =
    string_index_from-Ends bytes number (length bytes) 0 (omega arith)
