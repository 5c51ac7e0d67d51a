-- ===== src/Fuse/Directory.antt =====
-- Directories: `Lookup`, `ReadDir`, `GetAttr`, `Unlink`, `Rename` and `StatFS`.
use zune_sync.Base.{
  ℕ, ◌+◌, ◌-◌, ◌*◌, ◌/◌, ◌%◌, ◌^◌, ◌==◌, leb, not, if◌then◌else◌, Bool, List, [], ◌∷◌, ◌++◌, length,
  take, drop, min, none, some, Error, throw_if, Result, ok, err,
}
use zune_sync.Base.Dict.{find}
use zune_sync.Base.Sorted.{number_key, name_key, emplace, assign, erase}
use zune_sync.Base.Stateful.{◌>>=◌, ◌>>◌, return, lift, for_each}
use zune_sync.Codes.ObjectProperty
use zune_sync.Fuse.State.{
  FuseSession, Fuse, Host, Method, Stat, StatVfs, State, Reply, Code, Children, call, read_fuse,
  change, reply, children_at, set_children_at,
}
use zune_sync.Fuse.Inodes.{root_inode, from_fuse, is_storage_inode, storage_of_inode}
use zune_sync.Fuse.Listing.{get_children}
use zune_sync.Fuse.Access.{
  is_directory, forget_directory, get_parent_object, get_object_attr, fill_entry, reply_entry,
  unlink_impl,
}

unfoldable pub remove_child : ℕ → List ℕ → Fuse → Fuse
remove_child parent name f = set_children_at parent (erase name_key name (children_at parent f)) f

unfoldable pub rename_child : ℕ → List ℕ → List ℕ → ℕ → Fuse → Fuse
rename_child parent name new_name inode f =
    set_children_at parent
      (emplace name_key new_name inode (erase name_key name (children_at parent f))) f

-- The bytes of a listing as `ReadDir` makes them.
unfoldable pub listing_at : ℕ → Fuse → List ℕ
listing_at inode f = elim (find number_key.same inode f.directory_cache) [
  | none ↦ []
  | some bytes ↦ bytes
]

unfoldable pub set_listing : ℕ → List ℕ → Fuse → Fuse
set_listing inode bytes f = record f {
  directory_cache = assign number_key inode bytes f.directory_cache;
}

-- `FuseDirectory::Add`: the entry, whose offset is where it ends.
unfoldable pub add_entry : {S : Type 0} → Host S → List ℕ → List ℕ → Stat → List ℕ
add_entry host data_bytes name st =
    data_bytes ++ host.direntry name st (length data_bytes + host.direntry_size name)

-- What `fuse_reply_buf` reads: this many bytes from an address inside the array.
unfoldable pub buffer_at : List ℕ → ℕ → ℕ → Result (List ℕ)
buffer_at data_bytes offset count =
    if leb (offset + count) (length data_bytes)
    then ok (take count (drop offset data_bytes))
    else err Error.past_end

-- `FuseDirectory::Reply`, with the difference of the sizes in 64 bits.
unfoldable pub directory_part : List ℕ → ℕ → ℕ → Result (List ℕ)
directory_part data_bytes offset size =
    if leb (length data_bytes) offset
    then ok []
    else buffer_at data_bytes offset (min size ((length data_bytes + 2 ^ 64 - offset) % 2 ^ 64))

-- `capacity` and `freeSpace` in blocks of 1 MB
unfoldable pub statvfs_of : ℕ → ℕ → StatVfs
statvfs_of free_space capacity = record {
  namemax = 254;
  frsize = 1024 * 1024;
  bsize = 1024 * 1024;
  blocks = capacity / (1024 * 1024);
  bfree = free_space / (1024 * 1024);
  bavail = free_space / (1024 * 1024);
}

module _ (C : FuseSession) (host : Host (State C)) where
  unfoldable pub reply_filled : ℕ → Bool × Stat → Method C (Unit {0})
  reply_filled inode filled =
      if filled.0
      then reply_entry C host filled.1 (Reply.entry inode filled.1)
      else reply host (Reply.error Code.enoent)

  unfoldable pub lookup : ℕ → List ℕ → Method C (Unit {0})
  lookup parent name = do
    kids ← get_children C host parent
    elim (find name_key.same name kids) as (λ _. Method C (Unit {0})) [
      | none ↦ reply host (Reply.error Code.enoent)
      | some inode ↦ (do filled ← fill_entry C host inode; reply_filled inode filled)
    ]

  -- `dir.Add(data, name, GetObjectAttr(inode))`
  unfoldable pub add_to_listing : ℕ → List ℕ → ℕ → Method C (Unit {0})
  add_to_listing directory name inode = do
    st ← get_object_attr C host inode
    change (λ f. set_listing directory (add_entry host (listing_at directory f) name st) f)

  -- The part of `ReadDir` for a directory that is not in the cache.
  unfoldable pub list_directory : ℕ → Method C (Unit {0})
  list_directory inode = do
    kids ← get_children C host inode
    change (set_listing inode [])
    add_to_listing inode (b'.' ∷ []) root_inode
    parent ← get_parent_object C host inode
    add_to_listing inode (b'.' ∷ b'.' ∷ []) parent
    for_each (λ (kid : List ℕ × ℕ). add_to_listing inode kid.0 kid.1) kids

  unfoldable pub ensure_listing : ℕ → Method C (Unit {0})
  ensure_listing inode w = elim (find number_key.same inode w.0.directory_cache) [
    | some _ ↦ (ok tt, w)
    | none ↦ list_directory inode w
  ]

  unfoldable pub read_dir : ℕ → ℕ → ℕ → Method C (Unit {0})
  read_dir inode size offset = do
    st ← get_object_attr C host inode
    if not (is_directory st) then reply host (Reply.error Code.enotdir) else (do
      ensure_listing inode
      bytes ← read_fuse (listing_at inode)
      part ← lift (directory_part bytes offset size)
      reply host (Reply.buf part))

  unfoldable pub get_attr : ℕ → Method C (Unit {0})
  get_attr inode = do
    filled ← fill_entry C host inode
    if filled.0
        then reply_entry C host filled.1 (Reply.attr filled.1)
        else reply host (Reply.error Code.enoent)

  -- `!dirChildren.empty()`, of a directory
  unfoldable pub is_occupied : ℕ → Method C Bool
  is_occupied inode = do
    st ← get_object_attr C host inode
    if is_directory st
        then (do kids ← get_children C host inode; return (not (length kids == 0)))
        else return Bool.false

  unfoldable pub unlink_found : ℕ → List ℕ → ℕ → Method C (Unit {0})
  unlink_found parent name inode = do
    occupied ← is_occupied inode
    if occupied then reply host (Reply.error Code.enotempty) else (do
      unlink_impl C host inode
      change (forget_directory parent)
      change (remove_child parent name)
      reply host (Reply.error Code.success))

  -- `Unlink` and `RemoveDir`
  unfoldable pub unlink : ℕ → List ℕ → Method C (Unit {0})
  unlink parent name = do
    kids ← get_children C host parent
    elim (find name_key.same name kids) as (λ _. Method C (Unit {0})) [
      | none ↦ reply host (Reply.error Code.enoent)
      | some inode ↦ unlink_found parent name inode
    ]

  -- The object that has the new name goes.
  unfoldable pub replace_target : ℕ → List ℕ → Children → Method C (Unit {0})
  replace_target parent new_name kids =
      elim (find name_key.same new_name kids) as (λ _. Method C (Unit {0})) [
        | none ↦ return tt
        | some old ↦ (do unlink_impl C host old; change (remove_child parent new_name))
      ]

  -- Where the names are equal, the entry that is erased here was erased with the target.
  unfoldable pub rename_found : ℕ → List ℕ → List ℕ → Children → ℕ → Method C (Unit {0})
  rename_found parent name new_name kids inode = do
    replace_target parent new_name kids
    call (
        C.client.set_object_string_property (from_fuse inode) ObjectProperty.object_filename
          new_name)
    lift (throw_if (name_key.same name new_name) Error.invalid_iterator)
    change (rename_child parent name new_name inode)
    change (forget_directory parent)
    reply host (Reply.error Code.success)

  -- `Rename`, inside a directory
  unfoldable pub rename : ℕ → List ℕ → ℕ → List ℕ → Method C (Unit {0})
  rename parent name new_parent new_name =
      if not (parent == new_parent) then reply host (Reply.error Code.exdev) else do
        kids ← get_children C host parent
        elim (find name_key.same name kids) as (λ _. Method C (Unit {0})) [
          | none ↦ reply host (Reply.error Code.enoent)
          | some inode ↦ rename_found parent name new_name kids inode
        ]

  -- Free space and capacity of all storages, in 64 bits.
  unfoldable pub total_space : List ℕ → Method C (ℕ × ℕ)
  total_space [] = return (0, 0)
  total_space (id ∷ ids) = do
    info ← call (C.client.get_storage_info id)
    rest ← total_space ids
    return ((info.free_space_in_bytes + rest.0) % 2 ^ 64, (info.max_capacity + rest.1) % 2 ^ 64)

  unfoldable pub storage_of : ℕ → Method C ℕ
  storage_of inode =
      if is_storage_inode inode
      then (do ids ← read_fuse (λ f. f.storage_id_list); lift (storage_of_inode ids inode))
      else call (C.get_object_storage (from_fuse inode))

  unfoldable pub space_of : ℕ → Method C (ℕ × ℕ)
  space_of inode =
      if inode == root_inode
      then (do ids ← read_fuse (λ f. f.storage_id_list); total_space ids)
      else (do
        storage ← storage_of inode
        info ← call (C.client.get_storage_info storage)
        return (info.free_space_in_bytes, info.max_capacity))

  unfoldable pub stat_fs : ℕ → Method C (Unit {0})
  stat_fs inode = do space ← space_of inode; reply host (Reply.statfs (statvfs_of space.0 space.1))
