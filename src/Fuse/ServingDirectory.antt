-- ===== src/Fuse/ServingDirectory.antt =====
-- `Lookup`, `ReadDir`, `GetAttr`, `Unlink`, `Rename` and `StatFS` answer once.
use zune_sync.Base.{throw_if, Error, ℕ, ◌==◌, not, refl, Bool, List, [], ◌∷◌, length}
use zune_sync.Base.Dict.{find}
use zune_sync.Base.Sorted.{number_key, name_key}
use zune_sync.Base.Stateful.{return}
use zune_sync.Codes.ObjectProperty
use zune_sync.Fuse.State.{FuseSession, Host, Stat, State, Reply, Code, Children, set_children_at}
use zune_sync.Fuse.Inodes.{root_inode, from_fuse, is_storage_inode, storage_of_inode}
use zune_sync.Fuse.Access.{is_directory, forget_directory}
use zune_sync.Fuse.Directory.{
  remove_child, rename_child, listing_at, set_listing, add_entry, directory_part, statvfs_of,
  reply_filled, lookup, add_to_listing, list_directory, ensure_listing, read_dir, get_attr,
  is_occupied, unlink_found, unlink, replace_target, rename_found, rename, total_space, storage_of,
  space_of, stat_fs,
}
use zune_sync.Fuse.Steady.{
  IsSteady, bind-IsSteady, return-IsSteady, lift-IsSteady, read-IsSteady, call-IsSteady,
  change-IsSteady, for_each-IsSteady, if-IsSteady, option-IsSteady, depending-IsSteady,
}
use zune_sync.Fuse.QuietListing.{get_children-IsSteady}
use zune_sync.Fuse.QuietAccess.{
  get_parent_object-IsSteady, get_object_attr-IsSteady, fill_entry-IsSteady, unlink_impl-IsSteady,
}
use zune_sync.Fuse.Serving.{
  IsAccepting, IsServing, bind-IsServing, if-IsServing, option-IsServing, reply-IsServing,
}
use zune_sync.Fuse.ServingFiles.{reply_entry-IsServing}

module _ (C : FuseSession) (host : Host (State C)) where
  add_to_listing-IsSteady :
      (directory : ℕ) (name : List ℕ) (inode : ℕ)
      → IsSteady C (add_to_listing C host directory name inode)
  unfolding add_to_listing set_listing
  add_to_listing-IsSteady directory name inode =
      bind-IsSteady C _ _ (get_object_attr-IsSteady C host inode) λ st.
        change-IsSteady C
          (λ f. set_listing directory (add_entry host (listing_at directory f) name st) f)
          (λ f. refl) (λ f. refl)

  list_directory-IsSteady : (inode : ℕ) → IsSteady C (list_directory C host inode)
  unfolding list_directory set_listing
  list_directory-IsSteady inode = bind-IsSteady C _ _ (get_children-IsSteady C host inode) λ kids.
      bind-IsSteady C _ _ (change-IsSteady C (set_listing inode []) (λ f. refl) (λ f. refl)) λ _.
        bind-IsSteady C _ _ (add_to_listing-IsSteady inode (b'.' ∷ []) root_inode) λ _.
          bind-IsSteady C _ _ (get_parent_object-IsSteady C host inode) λ parent.
            bind-IsSteady C _ _ (add_to_listing-IsSteady inode (b'.' ∷ b'.' ∷ []) parent) λ _.
              for_each-IsSteady C (λ (kid : List ℕ × ℕ). add_to_listing C host inode kid.0 kid.1)
                kids (λ kid. add_to_listing-IsSteady inode kid.0 kid.1)

  ensure_listing-IsSteady : (inode : ℕ) → IsSteady C (ensure_listing C host inode)
  unfolding ensure_listing
  ensure_listing-IsSteady inode =
      depending-IsSteady C (λ f. find number_key.same inode f.directory_cache)
        (list_directory C host inode) (λ _. return tt) (list_directory-IsSteady inode)
        (λ _. return-IsSteady C tt)

  is_occupied-IsSteady : (inode : ℕ) → IsSteady C (is_occupied C host inode)
  unfolding is_occupied
  is_occupied-IsSteady inode = bind-IsSteady C _ _ (get_object_attr-IsSteady C host inode) λ st.
      if-IsSteady C (is_directory st) _ _
        (bind-IsSteady C _ _ (get_children-IsSteady C host inode)
          λ kids. return-IsSteady C (not (length kids == 0)))
        (return-IsSteady C Bool.false)

  replace_target-IsSteady :
      (parent : ℕ) (new_name : List ℕ) (kids : Children)
      → IsSteady C (replace_target C host parent new_name kids)
  unfolding replace_target remove_child set_children_at
  replace_target-IsSteady parent new_name kids =
      option-IsSteady C (find name_key.same new_name kids) (return tt) _ (return-IsSteady C tt)
        λ old.
          bind-IsSteady C _ _ (unlink_impl-IsSteady C host old)
            λ _. change-IsSteady C (remove_child parent new_name) (λ f. refl) (λ f. refl)

  total_space-IsSteady : (ids : List ℕ) → IsSteady C (total_space C host ids)
  unfolding total_space
  total_space-IsSteady [] = return-IsSteady C (0, 0)
  total_space-IsSteady (id ∷ ids) =
      bind-IsSteady C _ _ (call-IsSteady C (C.client.get_storage_info id))
        λ info. bind-IsSteady C _ _ (total_space-IsSteady ids) λ rest. return-IsSteady C _

  storage_of-IsSteady : (inode : ℕ) → IsSteady C (storage_of C host inode)
  unfolding storage_of
  storage_of-IsSteady inode =
      if-IsSteady C (is_storage_inode inode) _ _
        (bind-IsSteady C _ _ (read-IsSteady C (λ f. f.storage_id_list))
          λ ids. lift-IsSteady C (storage_of_inode ids inode))
        (call-IsSteady C (C.get_object_storage (from_fuse inode)))

  space_of-IsSteady : (inode : ℕ) → IsSteady C (space_of C host inode)
  unfolding space_of
  space_of-IsSteady inode =
      if-IsSteady C (inode == root_inode) _ _
        (bind-IsSteady C _ _ (read-IsSteady C (λ f. f.storage_id_list))
          λ ids. total_space-IsSteady ids)
        (bind-IsSteady C _ _ (storage_of-IsSteady inode) λ storage.
          bind-IsSteady C _ _ (call-IsSteady C (C.client.get_storage_info storage))
            λ info. return-IsSteady C (info.free_space_in_bytes, info.max_capacity))

  module _ (accepting : IsAccepting host) where
    reply_filled-IsServing :
        (inode : ℕ) (filled : Bool × Stat) → IsServing C (reply_filled C host inode filled)
    unfolding reply_filled
    reply_filled-IsServing inode filled =
        if-IsServing C filled.0 _ _
          (reply_entry-IsServing C host accepting filled.1 (Reply.entry inode filled.1))
          (reply-IsServing C host (Reply.error Code.enoent) accepting)

    pub lookup-IsServing : (parent : ℕ) (name : List ℕ) → IsServing C (lookup C host parent name)
    unfolding lookup
    lookup-IsServing parent name =
        bind-IsServing C _ _ (get_children-IsSteady C host parent) λ kids.
          option-IsServing C (find name_key.same name kids) _ _
            (reply-IsServing C host (Reply.error Code.enoent) accepting)
            λ inode.
              bind-IsServing C _ _ (fill_entry-IsSteady C host inode)
                λ filled. reply_filled-IsServing inode filled

    pub read_dir-IsServing :
        (inode size offset : ℕ) → IsServing C (read_dir C host inode size offset)
    unfolding read_dir
    read_dir-IsServing inode size offset =
        bind-IsServing C _ _ (get_object_attr-IsSteady C host inode) λ st.
          if-IsServing C (not (is_directory st)) _ _
            (reply-IsServing C host (Reply.error Code.enotdir) accepting)
            (bind-IsServing C _ _ (ensure_listing-IsSteady inode) λ _.
              bind-IsServing C _ _ (read-IsSteady C (listing_at inode)) λ bytes.
                bind-IsServing C _ _ (lift-IsSteady C (directory_part bytes offset size))
                  λ part. reply-IsServing C host (Reply.buf part) accepting)

    pub get_attr-IsServing : (inode : ℕ) → IsServing C (get_attr C host inode)
    unfolding get_attr
    get_attr-IsServing inode = bind-IsServing C _ _ (fill_entry-IsSteady C host inode) λ filled.
        if-IsServing C filled.0 _ _
          (reply_entry-IsServing C host accepting filled.1 (Reply.attr filled.1))
          (reply-IsServing C host (Reply.error Code.enoent) accepting)

    unlink_found-IsServing :
        (parent : ℕ) (name : List ℕ) (inode : ℕ)
        → IsServing C (unlink_found C host parent name inode)
    unfolding unlink_found forget_directory remove_child set_children_at
    unlink_found-IsServing parent name inode =
        bind-IsServing C _ _ (is_occupied-IsSteady inode) λ occupied.
          if-IsServing C occupied _ _
            (reply-IsServing C host (Reply.error Code.enotempty) accepting)
            (bind-IsServing C _ _ (unlink_impl-IsSteady C host inode) λ _.
              bind-IsServing C _ _
                (change-IsSteady C (forget_directory parent) (λ f. refl) (λ f. refl))
                λ _.
                  bind-IsServing C _ _
                    (change-IsSteady C (remove_child parent name) (λ f. refl) (λ f. refl))
                    λ _. reply-IsServing C host (Reply.error Code.success) accepting)

    pub unlink-IsServing : (parent : ℕ) (name : List ℕ) → IsServing C (unlink C host parent name)
    unfolding unlink
    unlink-IsServing parent name =
        bind-IsServing C _ _ (get_children-IsSteady C host parent) λ kids.
          option-IsServing C (find name_key.same name kids) _ _
            (reply-IsServing C host (Reply.error Code.enoent) accepting)
            (unlink_found-IsServing parent name)

    rename_found-IsServing :
        (parent : ℕ) (name new_name : List ℕ) (kids : Children) (inode : ℕ)
        → IsServing C (rename_found C host parent name new_name kids inode)
    unfolding rename_found forget_directory rename_child set_children_at
    rename_found-IsServing parent name new_name kids inode =
        bind-IsServing C _ _ (replace_target-IsSteady parent new_name kids) λ _.
          bind-IsServing C _ _
            (call-IsSteady C (
              C.client.set_object_string_property (from_fuse inode) ObjectProperty.object_filename
                new_name))
            λ _.
              bind-IsServing C _ _
                (lift-IsSteady C (throw_if (name_key.same name new_name) Error.invalid_iterator))
                λ _.
                  bind-IsServing C _ _
                    (change-IsSteady C (rename_child parent name new_name inode) (λ f. refl)
                      (λ f. refl))
                    λ _.
                      bind-IsServing C _ _
                        (change-IsSteady C (forget_directory parent) (λ f. refl) (λ f. refl))
                        λ _. reply-IsServing C host (Reply.error Code.success) accepting

    pub rename-IsServing :
        (parent : ℕ) (name : List ℕ) (new_parent : ℕ) (new_name : List ℕ)
        → IsServing C (rename C host parent name new_parent new_name)
    unfolding rename
    rename-IsServing parent name new_parent new_name =
        if-IsServing C (not (parent == new_parent)) _ _
          (reply-IsServing C host (Reply.error Code.exdev) accepting)
          (bind-IsServing C _ _ (get_children-IsSteady C host parent) λ kids.
            option-IsServing C (find name_key.same name kids) _ _
              (reply-IsServing C host (Reply.error Code.enoent) accepting)
              (rename_found-IsServing parent name new_name kids))

    pub stat_fs-IsServing : (inode : ℕ) → IsServing C (stat_fs C host inode)
    unfolding stat_fs
    stat_fs-IsServing inode =
        bind-IsServing C _ _ (space_of-IsSteady inode)
          λ space. reply-IsServing C host (Reply.statfs (statvfs_of space.0 space.1)) accepting
