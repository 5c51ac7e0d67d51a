-- ===== src/Fuse/Numbers.antt =====
-- The inodes of objects and storages, and the pieces of a listing.
use zune_sync.Base.{
  ◌%◌, ◌^◌, ℕ, suc, ◌+◌, ◌-◌, ◌≤◌, ◌<◌, ◌==◌, ltb, le→leb, lt→leb, ◌≡◌, ◌≢◌, refl, ap, ◌∙◌, inl,
  inr, Bool-cases, Option-cases, ==_iff, false, List, [], ◌∷◌, ◌++◌, length, get_elem?, take, drop,
  min, take-append-drop, drop-drop, length-take, length-drop, ◌⊎◌, some, ok, IsU32, arith,
}
use zune_sync.Fuse.Inodes.{
  root_inode, storage_shift, object_shift, to_fuse, from_fuse, is_storage_inode, storage_of_inode,
  distance_to, inode_of_storage,
}
use zune_sync.Fuse.Directory.{directory_part, buffer_at}

-- The inode of an object leads back to the object, and is neither the root's nor, if the identifier is
-- not 0, a storage's.
pub from_fuse-to_fuse :
    (id : ℕ)
    → IsU32 id
    → 0 < id
    → (from_fuse (to_fuse id) ≡ id)
      × (to_fuse id ≢ root_inode)
      × (is_storage_inode (to_fuse id) ≡ false)
unfolding from_fuse to_fuse is_storage_inode
from_fuse-to_fuse id u h = (
  omega arith,
  λ e. omega (arith, e),
  rw
      (
        le→leb storage_shift (id + object_shift) (omega arith),
        lt→leb (id + object_shift) object_shift (omega arith),
      )
      refl,
)

get_elem?-distance_to :
    (id i : ℕ) (ids : List ℕ)
    → distance_to id ids ≡ some i
    → (get_elem? ids i ≡ some id) × (i < length ids)
unfolding distance_to
get_elem?-distance_to id i [] h = absurd (ground (arith, h))
get_elem?-distance_to id i (x ∷ xs) h = elim (Bool-cases (x == id)) [
  | inl e ↦
      let same : x ≡ id = (==_iff x id).0 e in
      let zeroth : i ≡ 0 = grind (arith, h, e) in rw (zeroth) (ap some same, omega arith)
  | inr e ↦ elim (Option-cases (distance_to id xs)) [
    | inl f ↦ absurd (grind (arith, h, e, f))
    | inr (j, f) ↦
        let ih = get_elem?-distance_to id j xs f in
        let later : i ≡ suc j = grind (arith, h, e, f) in rw (later) (ih.0, omega (arith, ih.1))
  ]
]

-- The inode that a storage has leads back to the storage, as long as there are fewer than 999,999.
pub storage_of_inode-inode_of_storage :
    (ids : List ℕ) (id inode : ℕ)
    → length ids < 999999
    → inode_of_storage ids id ≡ ok inode
    → storage_of_inode ids inode ≡ ok id
unfolding storage_of_inode inode_of_storage is_storage_inode
storage_of_inode-inode_of_storage ids id inode few h = elim (Option-cases (distance_to id ids)) [
  | inl e ↦ absurd (grind (arith, h, e))
  | inr (i, e) ↦
      let found = get_elem?-distance_to id i ids e in
      let place : inode ≡ storage_shift + i = grind (arith, h, e) in
      let back : storage_shift + i - storage_shift ≡ i = omega arith in
      rw
        (
          place,
          le→leb storage_shift (storage_shift + i) (omega arith),
          le→leb (storage_shift + i) object_shift (omega (arith, found.1)),
          back,
          found.0,
        )
        refl
]

lt_or_ge : (m n : ℕ) → (m < n) ⊎ (n ≤ m)
lt_or_ge m n = elim (Bool-cases (ltb m n)) [
  | inl e ↦ inl (ground (arith, e))
  | inr e ↦ inr (ground (arith, e))
]

directory_part-inside :
    (bytes : List ℕ) (offset size : ℕ)
    → length bytes < 2 ^ 63
    → offset < length bytes
    → directory_part bytes offset size
      ≡ ok (take (min size (length bytes - offset)) (drop offset bytes))
unfolding directory_part buffer_at
directory_part-inside bytes offset size small h =
    let rest : (length bytes + 2 ^ 64 - offset) % 2 ^ 64 ≡ length bytes - offset = omega arith in
    rw
      (
        lt→leb (length bytes) offset h,
        rest,
        le→leb (offset + min size (length bytes - offset)) (length bytes) (omega arith),
      )
      refl

-- A listing of less than 2^63 bytes, asked for from an offset, comes in pieces without gap or overlap:
-- nothing is read from behind its end, each answer is followed by what the next offset gives, no answer is
-- longer than was asked for, and only the end of the listing is answered with nothing.
pub directory_part-pieces :
    (bytes : List ℕ) (offset size : ℕ)
    → length bytes < 2 ^ 63
    → 0 < size
    → (part : List ℕ) × (directory_part bytes offset size ≡ ok part)
      × (part ++ drop (offset + length part) bytes ≡ drop offset bytes)
      × (length part ≤ size)
      × (part ≡ [] → length bytes ≤ offset)
unfolding directory_part
directory_part-pieces bytes offset size small h = elim (lt_or_ge offset (length bytes)) [
  | inl b ↦
      let n = min size (length bytes - offset) in
      let part = take n (drop offset bytes) in
      let long : length part ≡ n =
        omega (arith, length-take n (drop offset bytes), length-drop offset bytes) in
      (
        part,
        directory_part-inside bytes offset size small b,
        ap (λ k. part ++ drop (offset + k) bytes) long
            ∙ ap (λ t. part ++ t) (drop-drop offset n bytes)
            ∙ take-append-drop n (drop offset bytes),
        omega (arith, long),
        λ empty. let none : length part ≡ 0 = ap length empty in omega (arith, long, none, h, b),
      )
  | inr b ↦ (
    [],
    rw (le→leb (length bytes) offset b) refl,
    ap (λ k. drop k bytes) (omega arith),
    omega arith,
    λ empty. b,
  )
]
