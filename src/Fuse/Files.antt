-- ===== src/Fuse/Files.antt =====
-- Reading, writing and opening files: `Read`, `Write`, `Open`, `Release` and `SetAttr`.
use zune_sync.Base.{
  u32, ℕ, zero, suc, ◌+◌, ◌-◌, ◌^◌, ◌==◌, ltb, leb, ◌||◌, if◌then◌else◌, Bool, List, [], ◌∷◌,
  length, take, drop, get_elem?, min, Option, none, some, Error, Result, ok, err, u16,
}
use zune_sync.Base.Stateful.{◌>>=◌, ◌>>◌, return, lift, catch}
use zune_sync.Codes.ObjectFormat
use zune_sync.Codes.ObjectProperty
use zune_sync.Fuse.State.{
  FuseSession, Fuse, Host, Method, Stat, State, Reply, Code, set_size, call, change, reply,
}
use zune_sync.Fuse.Inodes.{from_fuse}
use zune_sync.Fuse.Listing.{set_object_size}
use zune_sync.Fuse.Access.{
  get_object_attr, fill_entry, reply_entry, release_transaction, get_transaction,
}

-- `DefaultPartialObjectCacheSize`
abbrev pub cache_size : ℕ
cache_size = 3

-- `min(st_size - begin, size)` where it is positive, else 0. A size of 2^63 or more is a negative
-- `off_t`.
unfoldable pub read_size : Stat → ℕ → ℕ → ℕ
read_size st size begin = if leb (2 ^ 63) st.size then 0 else min (st.size - begin) size

-- `std::copy(src, src + rsize, ...)`
unfoldable pub slice : ℕ → ℕ → List ℕ → Result (List ℕ)
slice begin rsize bytes =
    if leb (begin + rsize) (length bytes)
    then ok (take rsize (drop begin bytes))
    else err Error.past_end

-- The entry of the object, and how many are before it.
unfoldable pub find_cached : ℕ → List (ℕ × List ℕ) → Option (ℕ × List ℕ)
find_cached id [] = none
find_cached id (entry ∷ entries) =
    let rest = find_cached id entries in
    if entry.0 == id
    then some (0, entry.1)
    else elim rest [ none ↦ none | some hit ↦ some (suc hit.0, hit.1) ]

-- An entry in place of the one at `i`.
unfoldable pub replace_at : {A : Type 0} → ℕ → A → List A → List A
replace_at i a [] = []
replace_at zero a (x ∷ xs) = a ∷ xs
replace_at (suc i) a (x ∷ xs) = x ∷ replace_at i a xs

-- `std::swap` of the first entry and the one at `i`.
unfoldable pub swap_first : {A : Type 0} → ℕ → List A → List A
swap_first i [] = []
swap_first zero (x ∷ xs) = x ∷ xs
swap_first (suc i) (x ∷ xs) = elim (get_elem? xs i) [
  | none ↦ x ∷ xs
  | some y ↦ y ∷ replace_at i x xs
]

-- `pop_back`
unfoldable pub pop_back : {A : Type 0} → List A → List A
pop_back [] = []
pop_back (x ∷ xs) = elim xs [ [] ↦ [] | y ∷ ys ↦ x ∷ pop_back xs ]

-- The loop that purges the cache, from a number of entries.
unfoldable pub purge : ℕ → List (ℕ × List ℕ) → List (ℕ × List ℕ)
purge zero entries = entries
purge (suc size) entries =
    let rest = purge size (pop_back entries) in if ltb cache_size (suc size) then rest else entries

unfoldable pub set_object_cache : List (ℕ × List ℕ) → Fuse → Fuse
set_object_cache entries f = record f { object_cache = entries }

-- What a hit at `i` and a miss do to the cache.
unfoldable pub take_hit : ℕ → Fuse → Fuse
take_hit i f = set_object_cache (purge i (swap_first i f.object_cache)) f

unfoldable pub keep_contents : ℕ → List ℕ → Fuse → Fuse
keep_contents id contents f =
    set_object_cache (purge (length f.object_cache + 1) ((id, contents) ∷ f.object_cache)) f

-- `newSize > attr.st_size`, on signed numbers
unfoldable pub grows : ℕ → Stat → Bool
grows new_size st = leb (2 ^ 63) st.size || ltb st.size new_size

module _ (C : FuseSession) (host : Host (State C)) where
  unfoldable pub read_hit : ℕ → ℕ → ℕ × List ℕ → Method C (List ℕ)
  read_hit begin rsize hit = do
    bytes ← lift (slice begin rsize hit.1)
    change (take_hit hit.0)
    return bytes

  unfoldable pub read_miss : ℕ → ℕ → ℕ → Method C (List ℕ)
  read_miss id begin rsize = do
    contents ← call (C.get_object id)
    bytes ← lift (slice begin rsize contents)
    change (keep_contents id contents)
    return bytes

  unfoldable pub read_cached : ℕ → ℕ → ℕ → Method C (List ℕ)
  read_cached id begin rsize w = elim (find_cached id w.0.object_cache) [
    | some hit ↦ read_hit begin rsize hit w
    | none ↦ read_miss id begin rsize w
  ]

  -- `GetPartialObject` takes the size as a u32.
  unfoldable pub read_bytes : ℕ → ℕ → ℕ → Method C (List ℕ)
  read_bytes id begin rsize w =
      if rsize == 0
      then (ok [], w)
      else if w.0.get_partial_object_supported
      then call (C.get_partial_object id begin (u32 rsize)) w
      else read_cached id begin rsize w

  unfoldable pub read : ℕ → ℕ → ℕ → Method C (Unit {0})
  read inode size begin = do
    release_transaction C host inode
    st ← get_object_attr C host inode
    bytes ← read_bytes (from_fuse inode) begin (read_size st size begin)
    reply host (Reply.buf bytes)

  unfoldable pub truncate : ℕ → ℕ → Method C (Unit {0})
  truncate inode new_size = do
    call (C.truncate_object (from_fuse inode) new_size)
    change (set_object_size (from_fuse inode) new_size)

  unfoldable pub write : ℕ → List ℕ → ℕ → Method C (Unit {0})
  write inode bytes offset = do
    st ← get_object_attr C host inode
    get_transaction C host inode
    if grows (offset + length bytes) st then truncate inode (offset + length bytes) else return tt
    call (C.send_partial_object (from_fuse inode) offset bytes)
    reply host (Reply.written (length bytes))

  -- `Open`: an object whose format the device does not tell is not there.
  unfoldable pub open_format : ℕ → Method C (Option ℕ)
  open_format inode =
      catch
        (do
          value ← call (
              C.client.base.get_object_integer_property (from_fuse inode)
                ObjectProperty.object_format)
          return (some (u16 value)))
        (return none)

  unfoldable pub open_file : ℕ → Method C (Unit {0})
  open_file inode = do
    format ← open_format inode
    reply host (elim format [
      | none ↦ Reply.error Code.enoent
      | some f ↦ if f == ObjectFormat.association then Reply.error Code.eisdir else Reply.opened
    ])

  unfoldable pub release : ℕ → Method C (Unit {0})
  release inode = do release_transaction C host inode; reply host (Reply.error Code.success)

  -- The part of `SetAttr` for a new size.
  unfoldable pub resize : ℕ → ℕ → Method C (Unit {0})
  resize inode new_size = do get_transaction C host inode; truncate inode new_size

  -- `SetAttr`: the new size, if the request has one; other attributes are left as they are.
  unfoldable pub set_attr : ℕ → Option ℕ → Method C (Unit {0})
  set_attr inode size = do
    filled ← fill_entry C host inode
    if filled.0
        then elim size as (λ _. Method C (Unit {0})) [
          | none ↦ reply_entry C host filled.1 (Reply.attr filled.1)
          | some n ↦ (do
            resize inode n
            reply_entry C host filled.1 (Reply.attr (set_size n filled.1)))
        ]
        else reply host (Reply.error Code.enoent)
