-- ===== src/Fuse/QuietAccess.antt =====
-- Attributes, edit sessions, removal and making of objects: no reply, and the object cache as it was.
use zune_sync.Base.{ℕ, ◌==◌, ◌||◌, not, refl, true, false, if◌then◌else◌, List, [], Error, err}
use zune_sync.Base.Dict.{find}
use zune_sync.Base.Sorted.{number_key}
use zune_sync.Base.Stateful.{◌>>=◌, return, lift}
use zune_sync.Codes.ObjectFormat
use zune_sync.Session.Objects.{device, root}
use zune_sync.Library.Artists.{generic_folder}
use zune_sync.Client.Upload.{upload_info}
use zune_sync.Fuse.State.{FuseSession, Host, State, blank_stat, call, read_fuse}
use zune_sync.Fuse.Inodes.{
  root_inode, to_fuse, from_fuse, is_storage_inode, storage_of_inode, inode_of_storage,
}
use zune_sync.Fuse.Listing.{get_object_info}
use zune_sync.Fuse.Access.{
  fixed_attr, forget_directory, forget_edit, keep_edit, forget_attr, get_parent_object, known_attr,
  object_attr, get_object_attr, fill_entry, end_edit, release_transaction, get_transaction,
  unlink_impl, place_of, send_new, cache_child, update_cache, create_object,
}
use zune_sync.Fuse.Steady.{
  IsSteady, bind-IsSteady, return-IsSteady, lift-IsSteady, read-IsSteady, call-IsSteady,
  change-IsSteady, catch-IsSteady, if-IsSteady, depending-IsSteady,
}
use zune_sync.Fuse.Quiet.{get_object_info-IsSteady}
use zune_sync.Fuse.QuietListing.{get_children-IsSteady}

module _ (C : FuseSession) (host : Host (State C)) where
  parent_of_object-IsSteady :
      (inode parent : ℕ)
      → IsSteady C (
          if parent == device || parent == root
          then (do
            storage ← call {S = State C} (C.get_object_storage (from_fuse inode))
            ids ← read_fuse (λ f. f.storage_id_list)
            lift (inode_of_storage ids storage))
          else return (to_fuse parent))
  parent_of_object-IsSteady inode parent =
      if-IsSteady C (parent == device || parent == root) _ _
        (bind-IsSteady C _ _ (call-IsSteady C (C.get_object_storage (from_fuse inode))) λ storage.
          bind-IsSteady C _ _ (read-IsSteady C (λ f. f.storage_id_list))
            λ ids. lift-IsSteady C (inode_of_storage ids storage))
        (return-IsSteady C (to_fuse parent))

  pub get_parent_object-IsSteady : (inode : ℕ) → IsSteady C (get_parent_object C host inode)
  unfolding get_parent_object
  get_parent_object-IsSteady inode =
      if-IsSteady C (inode == root_inode) _ _ (return-IsSteady C inode) (
        if-IsSteady C (is_storage_inode inode) _ _ (return-IsSteady C root_inode) (
          bind-IsSteady C _ _ (call-IsSteady C (C.client.get_object_parent (from_fuse inode)))
            λ parent. parent_of_object-IsSteady inode parent))

  known_attr-IsSteady : (id : ℕ) → IsSteady C (known_attr C host id)
  unfolding known_attr
  known_attr-IsSteady id =
      depending-IsSteady C (λ f. find number_key.same id f.object_attrs)
        (λ w. (err Error.no_such_object, w)) (λ st. return st)
        (lift-IsSteady C (err Error.no_such_object)) (λ st. return-IsSteady C st)

  object_attr-IsSteady : (inode : ℕ) → IsSteady C (object_attr C host inode)
  unfolding object_attr
  object_attr-IsSteady inode =
      depending-IsSteady C (λ f. find number_key.same (from_fuse inode) f.object_attrs) _
        (λ st. return st)
        (bind-IsSteady C _ _ (get_parent_object-IsSteady inode) λ parent.
          bind-IsSteady C _ _ (get_children-IsSteady C host parent)
            λ _. known_attr-IsSteady (from_fuse inode))
        (λ st. return-IsSteady C st)

  pub get_object_attr-IsSteady : (inode : ℕ) → IsSteady C (get_object_attr C host inode)
  unfolding get_object_attr
  get_object_attr-IsSteady inode =
      if-IsSteady C (inode == root_inode || is_storage_inode inode) _ _
        (read-IsSteady C (λ f. fixed_attr host f.connect_time inode)) (object_attr-IsSteady inode)

  pub fill_entry-IsSteady : (inode : ℕ) → IsSteady C (fill_entry C host inode)
  unfolding fill_entry
  fill_entry-IsSteady inode =
      catch-IsSteady C _ _
        (bind-IsSteady C _ _ (get_object_attr-IsSteady inode)
          λ st. return-IsSteady C (true, record st { ino = inode }))
        (return-IsSteady C (false, blank_stat))

  pub end_edit-IsSteady : (inode : ℕ) → IsSteady C (end_edit C host inode)
  unfolding end_edit
  end_edit-IsSteady inode =
      catch-IsSteady C _ _ (call-IsSteady C (C.end_edit_object (from_fuse inode)))
        (lift-IsSteady C (err Error.terminated))

  pub release_transaction-IsSteady : (inode : ℕ) → IsSteady C (release_transaction C host inode)
  unfolding release_transaction forget_edit
  release_transaction-IsSteady inode =
      depending-IsSteady C (λ f. find number_key.same inode f.opened_files) (return tt) _
        (return-IsSteady C tt)
        λ _.
          bind-IsSteady C _ _ (change-IsSteady C (forget_edit inode) (λ f. refl) (λ f. refl))
            λ _. end_edit-IsSteady inode

  pub get_transaction-IsSteady : (inode : ℕ) → IsSteady C (get_transaction C host inode)
  unfolding get_transaction keep_edit
  get_transaction-IsSteady inode =
      depending-IsSteady C (λ f. find number_key.same inode f.opened_files) _ (λ _. return tt)
        (bind-IsSteady C _ _ (call-IsSteady C (C.begin_edit_object (from_fuse inode)))
          λ _. change-IsSteady C (keep_edit inode) (λ f. refl) (λ f. refl))
        (λ _. return-IsSteady C tt)

  pub unlink_impl-IsSteady : (inode : ℕ) → IsSteady C (unlink_impl C host inode)
  unfolding unlink_impl forget_attr
  unlink_impl-IsSteady inode =
      bind-IsSteady C _ _ (call-IsSteady C (C.client.delete_object (from_fuse inode))) λ _.
        bind-IsSteady C _ _ (release_transaction-IsSteady inode)
          λ _. change-IsSteady C (forget_attr (from_fuse inode)) (λ f. refl) (λ f. refl)

  place_of-IsSteady : (inode : ℕ) → IsSteady C (place_of C host inode)
  unfolding place_of
  place_of-IsSteady inode =
      if-IsSteady C (is_storage_inode inode) _ _
        (bind-IsSteady C _ _ (read-IsSteady C (λ f. f.storage_id_list)) λ ids.
          bind-IsSteady C _ _ (lift-IsSteady C (storage_of_inode ids inode))
            λ storage. return-IsSteady C (storage, root))
        (bind-IsSteady C _ _ (call-IsSteady C (C.get_object_storage (from_fuse inode)))
          λ storage. return-IsSteady C (storage, from_fuse inode))

  send_new-IsSteady :
      (place : ℕ × ℕ) (filename : List ℕ) (format : ℕ)
      → IsSteady C (send_new C host place filename format)
  unfolding send_new
  send_new-IsSteady place filename format =
      if-IsSteady C (not (format == ObjectFormat.association)) _ _
        (bind-IsSteady C _ _
          (call-IsSteady C
            (C.client.send_object_info (upload_info filename format 0) place.0 place.1))
          λ noi.
            bind-IsSteady C _ _ (call-IsSteady C (C.client.send_object []))
              λ _. return-IsSteady C noi)
        (call-IsSteady C (C.client.base.create_directory filename place.1 place.0 generic_folder))

  cache_child-IsSteady : (parent id : ℕ) → IsSteady C (cache_child C host parent id)
  unfolding cache_child
  cache_child-IsSteady parent id =
      depending-IsSteady C (λ f. find number_key.same parent f.files) (return tt)
        (λ _. get_object_info C host parent id) (return-IsSteady C tt)
        (λ _. get_object_info-IsSteady C host parent id)

  update_cache-IsSteady : (parent id : ℕ) → IsSteady C (update_cache C host parent id)
  unfolding update_cache forget_directory
  update_cache-IsSteady parent id =
      bind-IsSteady C _ _ (cache_child-IsSteady parent id)
        λ _. change-IsSteady C (forget_directory parent) (λ f. refl) (λ f. refl)

  pub create_object-IsSteady :
      (parent : ℕ) (filename : List ℕ) (format : ℕ)
      → IsSteady C (create_object C host parent filename format)
  unfolding create_object
  create_object-IsSteady parent filename format =
      bind-IsSteady C _ _ (place_of-IsSteady parent) λ place.
        bind-IsSteady C _ _ (send_new-IsSteady place filename format) λ noi.
          bind-IsSteady C _ _ (update_cache-IsSteady parent noi.object_id)
            λ _. return-IsSteady C (to_fuse noi.object_id)
