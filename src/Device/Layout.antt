-- ===== src/Device/Layout.antt =====
-- What the loop answers for a configuration that is a row of descriptors.
use zune_sync.Base.{
  ℕ, zero, suc, ◌+◌, ◌≤◌, ◌<◌, ◌==◌, leb, ◌&&◌, ◌≡◌, refl, sym, ap, ◌∙◌, Bool-cases, inl, inr,
  if◌then◌else◌, List, [], ◌∷◌, ◌++◌, append_assoc, append-nil, length, length-append, get_elem?,
  flatten, All, none, some, Error, Result, ok, err, arith, le→ltb, lt→ltb,
}
use zune_sync.Device.Descriptor.{
  byte_at, dt_interface, string_index_or, string_index_round, string_index_from,
  get_interface_string_index,
}

-- A descriptor begins with its length, which counts the length and the type.
pub record IsDescriptor (d : List ℕ) : Type 0 where
  pub counted : get_elem? d 0 ≡ some (length d)
  pub has_type : 2 ≤ length d

-- The byte at a position, or 0.
unfoldable pub byte_of : List ℕ → ℕ → ℕ
byte_of d k = elim (get_elem? d k) [ some b ↦ b | none ↦ 0 ]

-- The string index of the first interface descriptor with this number.
unfoldable pub first_index : ℕ → List (List ℕ) → Result ℕ
first_index number [] = err Error.no_interface_descriptor
first_index number (d ∷ ds) =
    let rest = first_index number ds in
    if (byte_of d 1 == dt_interface) && leb 9 (length d)
    then (if byte_of d 2 == number then ok (byte_of d 8) else rest)
    else rest

get_elem?-append_add :
    (pre ys : List ℕ) (k : ℕ) → get_elem? (pre ++ ys) (length pre + k) ≡ get_elem? ys k
get_elem?-append_add [] ys k = let e : 0 + k ≡ k = omega arith in ap (λ n. get_elem? ys n) e
get_elem?-append_add (x ∷ pre) ys k =
    let e : suc (length pre) + k ≡ suc (length pre + k) = omega arith in
    ap (λ n. get_elem? (x ∷ (pre ++ ys)) n) e ∙ get_elem?-append_add pre ys k

get_elem?-front :
    (d rest : List ℕ) (k : ℕ) → k < length d → get_elem? (d ++ rest) k ≡ some (byte_of d k)
unfolding byte_of
get_elem?-front [] rest k h = absurd (omega arith)
get_elem?-front (x ∷ d) rest zero h = refl
get_elem?-front (x ∷ d) rest (suc k) h = get_elem?-front d rest k (omega arith)

byte_at-row :
    (pre d rest : List ℕ) (k : ℕ)
    → k < length d
    → byte_at (pre ++ (d ++ rest)) (length pre + k) ≡ ok (byte_of d k)
unfolding byte_at byte_of
byte_at-row pre d rest k h =
    rw (byte_at, get_elem?-append_add pre (d ++ rest) k, get_elem?-front d rest k h) refl

string_index_or-row :
    (number : ℕ) (pre d rest : List ℕ) (next : Result ℕ)
    → string_index_or
        (pre ++ (d ++ rest))
        number
        (length pre)
        ((byte_of d 1 == dt_interface) && leb 9 (length d))
        next
      ≡ (if (byte_of d 1 == dt_interface) && leb 9 (length d)
          then (if byte_of d 2 == number then ok (byte_of d 8) else next)
          else next)
unfolding string_index_or
string_index_or-row number pre d rest next =
    elim (Bool-cases ((byte_of d 1 == dt_interface) && leb 9 (length d))) [
      | inl e ↦
          let long : 8 < length d = ground (arith, e) in
          rw (e, byte_at-row pre d rest 2 (omega (arith, long)), byte_at-row pre d rest 8 long) refl
      | inr e ↦ rw e refl
    ]

size_of : (d : List ℕ) → IsDescriptor d → byte_of d 0 ≡ length d
unfolding byte_of
size_of d i = rw (byte_of, i.counted) refl

string_index_round-row :
    (number : ℕ) (pre d rest : List ℕ) (next : ℕ → Result ℕ)
    → IsDescriptor d
    → string_index_round (pre ++ (d ++ rest)) number (length pre) next ≡ (
        if (byte_of d 1 == dt_interface) && leb 9 (length d)
        then (if byte_of d 2 == number then ok (byte_of d 8) else next (length d))
        else next (length d))
unfolding string_index_round
string_index_round-row number pre d rest next i =
    let two = i.has_type in
    rw
      (
        byte_at-row pre d rest 0 (omega (arith, two)),
        byte_at-row pre d rest 1 (omega (arith, two)),
        size_of d i,
        le→ltb (length d) 2 two,
      )
      (string_index_or-row number pre d rest (next (length d)))

string_index_from-row :
    (number rounds : ℕ) (pre : List ℕ) (ds : List (List ℕ))
    → All IsDescriptor ds
    → length (flatten ds) ≤ rounds
    → string_index_from (pre ++ flatten ds) number (suc rounds) (length pre) ≡ first_index number ds
unfolding string_index_from first_index
string_index_from-row number rounds pre [] a h =
    rw (append-nil, le→ltb (length pre) (length pre) (omega arith)) refl
string_index_from-row number zero pre (d ∷ ds) a h =
    absurd (omega (arith, h, length-append d (flatten ds), a.0.has_type))
string_index_from-row number (suc rounds) pre (d ∷ ds) a h =
    let two : 2 ≤ length d = a.0.has_type in
    let sum = length-append d (flatten ds) in
    let more : length pre < length (pre ++ (d ++ flatten ds)) =
      omega (arith, length-append pre (d ++ flatten ds), sum, two) in
    let next : string_index_from (pre ++ (d ++ flatten ds)) number (suc rounds)
          (length pre + length d)
        ≡ first_index number ds =
      ap (λ (bytes : List ℕ). string_index_from bytes number (suc rounds) (length pre + length d))
        (sym (append_assoc pre d (flatten ds)))
      ∙ ap (λ (k : ℕ). string_index_from ((pre ++ d) ++ flatten ds) number (suc rounds) k)
          (sym (length-append pre d))
      ∙ string_index_from-row number rounds (pre ++ d) ds a.1 (omega (arith, h, sum, two)) in
    rw (lt→ltb (length pre) (length (pre ++ (d ++ flatten ds))) more) (
      string_index_round-row number pre d (flatten ds)
        (λ len. string_index_from (pre ++ (d ++ flatten ds)) number (suc rounds) (length pre + len))
        a.0
      ∙ ap
          (λ r.
            if (byte_of d 1 == dt_interface) && leb 9 (length d)
            then (if byte_of d 2 == number then ok (byte_of d 8) else r)
            else r)
          next)

-- For a configuration that is a row of descriptors, each of which begins with its own length, the answer
-- is the string index of the first interface descriptor with the number, and the exception where there is
-- none.
pub get_interface_string_index-first :
    (ds : List (List ℕ)) (number : ℕ)
    → All IsDescriptor ds
    → get_interface_string_index (flatten ds) number ≡ first_index number ds
unfolding get_interface_string_index
get_interface_string_index-first ds number a =
    string_index_from-row number (length (flatten ds)) [] ds a (omega arith)
