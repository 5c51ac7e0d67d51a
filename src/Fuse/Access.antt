-- ===== src/Fuse/Access.antt =====
-- The attributes of inodes, their parents, the edit sessions of open files, and the removal and the
-- making of objects.
use zune_sync.Base.{
  ℕ, ◌==◌, ◌||◌, not, if◌then◌else◌, Bool, true, false, List, [], none, some, Error, ok, err,
  bit_and,
}
use zune_sync.Base.Dict.{find}
use zune_sync.Base.Sorted.{number_key, assign, erase}
use zune_sync.Base.Stateful.{◌>>=◌, ◌>>◌, return, throw, lift, catch}
use zune_sync.Codes.ObjectFormat
use zune_sync.Messages.Object.{NewObjectInfo}
use zune_sync.Session.Objects.{device, root}
use zune_sync.Library.Artists.{generic_folder}
use zune_sync.Client.Upload.{upload_info}
use zune_sync.Fuse.State.{
  FuseSession, Fuse, Host, Method, Stat, State, Reply, Code, blank_stat, directory_bit,
  directory_mode, call, read_fuse, change, reply,
}
use zune_sync.Fuse.Inodes.{
  root_inode, to_fuse, from_fuse, is_storage_inode, storage_of_inode, inode_of_storage,
}
use zune_sync.Fuse.Listing.{get_object_info, get_children}

-- The attributes of the root and of the storages.
unfoldable pub fixed_attr : {S : Type 0} → Host S → ℕ → ℕ → Stat
fixed_attr host time inode = record blank_stat {
  uid = host.uid;
  gid = host.gid;
  ino = inode;
  mtime = time;
  ctime = time;
  atime = time;
  mode = directory_mode;
  nlink = 1;
}

-- `st_mode & S_IFDIR`
unfoldable pub is_directory : Stat → Bool
is_directory st = not (bit_and st.mode directory_bit == 0)

unfoldable pub forget_directory : ℕ → Fuse → Fuse
forget_directory inode f = record f { directory_cache = erase number_key inode f.directory_cache }

unfoldable pub forget_edit : ℕ → Fuse → Fuse
forget_edit inode f = record f { opened_files = erase number_key inode f.opened_files }

unfoldable pub keep_edit : ℕ → Fuse → Fuse
keep_edit inode f = record f { opened_files = assign number_key inode tt f.opened_files }

unfoldable pub forget_attr : ℕ → Fuse → Fuse
forget_attr id f = record f { object_attrs = erase number_key id f.object_attrs }

module _ (C : FuseSession) (host : Host (State C)) where
  unfoldable pub get_parent_object : ℕ → Method C ℕ
  get_parent_object inode =
      if inode == root_inode
      then return inode
      else if is_storage_inode inode
      then return root_inode
      else do
        parent ← call (C.client.get_object_parent (from_fuse inode))
        if parent == device || parent == root
            then (do
              storage ← call (C.get_object_storage (from_fuse inode))
              ids ← read_fuse (λ f. f.storage_id_list)
              lift (inode_of_storage ids storage))
            else return (to_fuse parent)

  -- `_objectAttrs.find(id)`, which throws at the second try.
  unfoldable pub known_attr : ℕ → Method C Stat
  known_attr id w = elim (find number_key.same id w.0.object_attrs) [
    | some st ↦ (ok st, w)
    | none ↦ (err Error.no_such_object, w)
  ]

  unfoldable pub object_attr : ℕ → Method C Stat
  object_attr inode w = elim (find number_key.same (from_fuse inode) w.0.object_attrs) [
    | some st ↦ (ok st, w)
    | none ↦
        (do
          parent ← get_parent_object inode
          get_children C host parent
          known_attr (from_fuse inode))
          w
  ]

  unfoldable pub get_object_attr : ℕ → Method C Stat
  get_object_attr inode =
      if inode == root_inode || is_storage_inode inode
      then read_fuse (λ f. fixed_attr host f.connect_time inode)
      else object_attr inode

  -- `FillEntry`: the attributes with the inode, or `false`.
  unfoldable pub fill_entry : ℕ → Method C (Bool × Stat)
  fill_entry inode =
      catch (get_object_attr inode >>= λ st. return (true, record st { ino = inode }))
        (return (false, blank_stat))

  -- `FuseEntry::Reply`, `ReplyCreate` and `ReplyAttr`.
  unfoldable pub reply_entry : Stat → Reply → Method C (Unit {0})
  reply_entry st r = if st.mode == 0 then throw Error.uninitialised_attr else reply host r

  -- `~ObjectEditSession`: what it throws ends the program.
  unfoldable pub end_edit : ℕ → Method C (Unit {0})
  end_edit inode = catch (call (C.end_edit_object (from_fuse inode))) (throw Error.terminated)

  unfoldable pub release_transaction : ℕ → Method C (Unit {0})
  release_transaction inode w = elim (find number_key.same inode w.0.opened_files) [
    | none ↦ (ok tt, w)
    | some _ ↦ (do change (forget_edit inode); end_edit inode) w
  ]

  -- `GetTransaction`: the edit session of the inode is there afterwards.
  unfoldable pub get_transaction : ℕ → Method C (Unit {0})
  get_transaction inode w = elim (find number_key.same inode w.0.opened_files) [
    | some _ ↦ (ok tt, w)
    | none ↦ (do call (C.begin_edit_object (from_fuse inode)); change (keep_edit inode)) w
  ]

  unfoldable pub unlink_impl : ℕ → Method C (Unit {0})
  unlink_impl inode = do
    call (C.client.delete_object (from_fuse inode))
    release_transaction inode
    change (forget_attr (from_fuse inode))

  -- The storage and the parent of a new object.
  unfoldable pub place_of : ℕ → Method C (ℕ × ℕ)
  place_of inode =
      if is_storage_inode inode
      then (do
        ids ← read_fuse (λ f. f.storage_id_list)
        storage ← lift (storage_of_inode ids inode)
        return (storage, root))
      else (do
        storage ← call (C.get_object_storage (from_fuse inode))
        return (storage, from_fuse inode))

  unfoldable pub send_new : ℕ × ℕ → List ℕ → ℕ → Method C NewObjectInfo
  send_new place filename format =
      if not (format == ObjectFormat.association)
      then (do
        noi ← call (C.client.send_object_info (upload_info filename format 0) place.0 place.1)
        call (C.client.send_object [])
        return noi)
      else call (C.client.base.create_directory filename place.1 place.0 generic_folder)

  -- The cached children of the parent take the new object in.
  unfoldable pub cache_child : ℕ → ℕ → Method C (Unit {0})
  cache_child parent id w = elim (find number_key.same parent w.0.files) [
    | none ↦ (ok tt, w)
    | some _ ↦ get_object_info C host parent id w
  ]

  unfoldable pub update_cache : ℕ → ℕ → Method C (Unit {0})
  update_cache parent id = do cache_child parent id; change (forget_directory parent)

  unfoldable pub create_object : ℕ → List ℕ → ℕ → Method C ℕ
  create_object parent filename format = do
    place ← place_of parent
    noi ← send_new place filename format
    update_cache parent noi.object_id
    return (to_fuse noi.object_id)

  -- `CreateObject` of a request; `created` is whether it opens the file too.
  unfoldable pub create_request : ℕ → ℕ → List ℕ → Bool → Method C (Unit {0})
  create_request format parent name created =
      if parent == root_inode then reply host (Reply.error Code.eperm) else do
        inode ← create_object parent name format
        st ← get_object_attr inode
        reply_entry st (if created then Reply.create inode st else Reply.entry inode st)
