-- ===== src/Fuse/Inodes.antt =====
-- `ToFuse`, `FromFuse`, `IsStorage` and the inodes of storages.
use zune_sync.Base.{
  ℕ, suc, ◌+◌, ◌-◌, ◌%◌, ◌^◌, ◌==◌, leb, ◌&&◌, not, if◌then◌else◌, Bool, List, [], ◌∷◌, get_elem?,
  Option, none, some, Error, Result, ok, err, u32,
}

-- `FUSE_ROOT_ID` of libfuse.
abbrev pub root_inode : ℕ
root_inode = 1

abbrev pub storage_shift : ℕ
storage_shift = root_inode + 1

abbrev pub object_shift : ℕ
object_shift = 999998 + storage_shift

unfoldable pub to_fuse : ℕ → ℕ
to_fuse id = id + object_shift

-- 64-bit subtraction, cut to the 32 bits of an `ObjectId`.
unfoldable pub from_fuse : ℕ → ℕ
from_fuse inode = u32 ((inode + (2 ^ 64 - object_shift)) % 2 ^ 64)

unfoldable pub is_storage_inode : ℕ → Bool
is_storage_inode inode = leb storage_shift inode && leb inode object_shift

unfoldable pub storage_of_inode : List ℕ → ℕ → Result ℕ
storage_of_inode ids inode =
    if not (is_storage_inode inode)
    then err Error.not_a_storage_inode
    else elim (get_elem? ids (inode - storage_shift)) [
      | none ↦ err Error.unknown_storage
      | some id ↦ ok id
    ]

-- `std::find`: how far the first equal element is.
unfoldable pub distance_to : ℕ → List ℕ → Option ℕ
distance_to id [] = none
distance_to id (x ∷ xs) =
    let rest = distance_to id xs in
    if x == id then some 0 else elim rest [ none ↦ none | some i ↦ some (suc i) ]

unfoldable pub inode_of_storage : List ℕ → ℕ → Result ℕ
inode_of_storage ids id = elim (distance_to id ids) [
  | none ↦ err Error.unknown_storage
  | some i ↦ ok (storage_shift + i)
]
