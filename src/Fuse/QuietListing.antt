-- ===== src/Fuse/QuietListing.antt =====
-- `GetChildren`: no reply, and the object cache as it was.
use zune_sync.Base.{ℕ, ◌==◌, refl, inl, inr, Bool-cases, List, []}
use zune_sync.Base.Dict.{find}
use zune_sync.Base.Sorted.{number_key, set_of}
use zune_sync.Base.Stateful.{return, catch}
use zune_sync.Codes.ObjectFormat
use zune_sync.Codes.ObjectProperty
use zune_sync.Stream.Input
use zune_sync.PropertyList.Parser.{parse_integer, parse_string}
use zune_sync.Messages.Object.{ObjectHandles}
use zune_sync.Session.Objects.{all_storages, root}
use zune_sync.Fuse.State.{
  FuseSession, Host, State, set_attr_at, set_children_at, children_at, change,
}
use zune_sync.Fuse.Inodes.{root_inode, from_fuse, is_storage_inode, storage_of_inode}
use zune_sync.Fuse.Listing.{
  parse_format, list_storages, add_child, set_format, set_object_size, set_mtime, set_ctime,
  get_object_info, load_names, load_formats, load_sizes, load_mtimes, load_ctimes, load_properties,
  load_infos, load_storage, load_handles, load_directory, load_children, get_root_children,
  get_children,
}
use zune_sync.Fuse.Steady.{
  IsSteady, bind-IsSteady, return-IsSteady, lift-IsSteady, read-IsSteady, call-IsSteady,
  change-IsSteady, catch-IsSteady, for_each-IsSteady, if-IsSteady, depending-IsSteady,
}
use zune_sync.Fuse.Quiet.{
  populate_storages-IsSteady, get_object_info-IsSteady, get_object_property_list-IsSteady,
}

module _ (C : FuseSession) (host : Host (State C)) where
  load_names-IsSteady :
      (inode parent : ℕ) (objects : List (ℕ × Unit {0}))
      → IsSteady C (load_names C host inode parent objects)
  unfolding load_names add_child set_children_at
  load_names-IsSteady inode parent objects =
      get_object_property_list-IsSteady C host ObjectProperty.object_filename
        (λ id name. change (add_child inode name id))
        (λ id name. change-IsSteady C (add_child inode name id) (λ f. refl) (λ f. refl))
        parse_string Input.read_string parent objects

  load_formats-IsSteady :
      (parent : ℕ) (objects : List (ℕ × Unit {0})) → IsSteady C (load_formats C host parent objects)
  unfolding load_formats set_format set_attr_at
  load_formats-IsSteady parent objects =
      get_object_property_list-IsSteady C host ObjectProperty.object_format
        (λ id format. change (set_format id format))
        (λ id format. change-IsSteady C (set_format id format) (λ f. refl) (λ f. refl)) parse_format
        Input.read16 parent objects

  load_sizes-IsSteady :
      (parent : ℕ) (objects : List (ℕ × Unit {0})) → IsSteady C (load_sizes C host parent objects)
  unfolding load_sizes set_object_size set_attr_at
  load_sizes-IsSteady parent objects =
      get_object_property_list-IsSteady C host ObjectProperty.object_size
        (λ id size. change (set_object_size id size))
        (λ id size. change-IsSteady C (set_object_size id size) (λ f. refl) (λ f. refl))
        parse_integer Input.read64 parent objects

  load_mtimes-IsSteady :
      (parent : ℕ) (objects : List (ℕ × Unit {0})) → IsSteady C (load_mtimes C host parent objects)
  unfolding load_mtimes set_mtime set_attr_at
  load_mtimes-IsSteady parent objects =
      get_object_property_list-IsSteady C host ObjectProperty.date_modified
        (λ id time. change (set_mtime id (host.convert_date_time time)))
        (λ id time.
          change-IsSteady C (set_mtime id (host.convert_date_time time)) (λ f. refl) (λ f. refl))
        parse_string Input.read_string parent objects

  load_ctimes-IsSteady :
      (parent : ℕ) (objects : List (ℕ × Unit {0})) → IsSteady C (load_ctimes C host parent objects)
  unfolding load_ctimes set_ctime set_attr_at
  load_ctimes-IsSteady parent objects =
      get_object_property_list-IsSteady C host ObjectProperty.date_added
        (λ id time. change (set_ctime id (host.convert_date_time time)))
        (λ id time.
          change-IsSteady C (set_ctime id (host.convert_date_time time)) (λ f. refl) (λ f. refl))
        parse_string Input.read_string parent objects

  load_properties-IsSteady :
      (inode parent : ℕ) (objects : List (ℕ × Unit {0}))
      → IsSteady C (load_properties C host inode parent objects)
  unfolding load_properties
  load_properties-IsSteady inode parent objects =
      bind-IsSteady C _ _ (load_names-IsSteady inode parent objects) λ _.
        bind-IsSteady C _ _ (load_formats-IsSteady parent objects) λ _.
          bind-IsSteady C _ _ (load_sizes-IsSteady parent objects) λ _.
            bind-IsSteady C _ _
              (catch-IsSteady C _ _ (load_mtimes-IsSteady parent objects) (return-IsSteady C tt))
              λ _. catch-IsSteady C _ _ (load_ctimes-IsSteady parent objects) (return-IsSteady C tt)

  load_infos-IsSteady : (inode : ℕ) (ids : List ℕ) → IsSteady C (load_infos C host inode ids)
  unfolding load_infos
  load_infos-IsSteady inode ids =
      for_each-IsSteady C (λ id. catch (get_object_info C host inode id) (return tt)) ids
        λ id. catch-IsSteady C _ _ (get_object_info-IsSteady C host inode id) (return-IsSteady C tt)

  load_storage-IsSteady : (inode : ℕ) → IsSteady C (load_storage C host inode)
  unfolding load_storage
  load_storage-IsSteady inode =
      bind-IsSteady C _ _ (read-IsSteady C (λ f. f.storage_id_list)) λ ids.
        bind-IsSteady C _ _ (lift-IsSteady C (storage_of_inode ids inode)) λ storage.
          bind-IsSteady C _ _
            (call-IsSteady C (C.client.base.get_object_handles storage ObjectFormat.any root))
            λ handles. load_infos-IsSteady inode handles.object_handles

  load_handles-IsSteady :
      (inode : ℕ) (handles : ObjectHandles) → IsSteady C (load_handles C host inode handles)
  unfolding load_handles
  load_handles-IsSteady inode handles =
      bind-IsSteady C _ _ (read-IsSteady C (λ f. f.get_object_property_list_supported)) λ supported.
        if-IsSteady C supported
          (load_properties C host inode (from_fuse inode) (set_of handles.object_handles))
          (load_infos C host inode handles.object_handles)
          (load_properties-IsSteady inode (from_fuse inode) (set_of handles.object_handles))
          (load_infos-IsSteady inode handles.object_handles)

  load_directory-IsSteady : (inode : ℕ) → IsSteady C (load_directory C host inode)
  unfolding load_directory
  load_directory-IsSteady inode =
      bind-IsSteady C _ _
        (call-IsSteady C
          (C.client.base.get_object_handles all_storages ObjectFormat.any (from_fuse inode)))
        (load_handles-IsSteady inode)

  load_children-IsSteady : (inode : ℕ) → IsSteady C (load_children C host inode)
  unfolding load_children set_children_at
  load_children-IsSteady inode =
      bind-IsSteady C _ _ (change-IsSteady C (set_children_at inode []) (λ f. refl) (λ f. refl))
        λ _.
          bind-IsSteady C _ _
            (if-IsSteady C (is_storage_inode inode) (load_storage C host inode)
              (load_directory C host inode) (load_storage-IsSteady inode)
              (load_directory-IsSteady inode))
            λ _. read-IsSteady C (children_at inode)

  get_root_children-IsSteady : IsSteady C (get_root_children C host)
  unfolding get_root_children list_storages set_children_at
  get_root_children-IsSteady = bind-IsSteady C _ _ (populate_storages-IsSteady C host) λ _.
      bind-IsSteady C _ _ (change-IsSteady C list_storages (λ f. refl) (λ f. refl))
        λ _. read-IsSteady C (children_at root_inode)

  pub get_children-IsSteady : (inode : ℕ) → IsSteady C (get_children C host inode)
  unfolding get_children
  get_children-IsSteady inode = elim (Bool-cases (inode == root_inode)) [
    | inl e ↦ rw (get_children, e) get_root_children-IsSteady
    | inr e ↦
        rw (get_children, e)
          (depending-IsSteady C (λ f. find number_key.same inode f.files)
            (load_children C host inode) (λ kids. return kids) (load_children-IsSteady inode)
            (λ kids. return-IsSteady C kids))
  ]
