-- ===== src/Fuse/Listing.antt =====
-- How `FuseWrapper` learns of storages and objects: `PopulateStorages`, `GetObjectInfo`,
-- `GetObjectPropertyList` and `GetChildren`.
use zune_sync.Base.{
  ℕ, suc, ◌+◌, ◌==◌, ◌&&◌, if◌then◌else◌, Bool, true, false, List, [], ◌∷◌, ◌++◌, none, some, ok,
  err, u16, u32,
}
use zune_sync.Base.Dict.{find}
use zune_sync.Base.Sorted.{number_key, name_key, emplace, assign, erase, set_of}
use zune_sync.Base.Stateful.{Stateful, ◌>>=◌, ◌>>◌, return, lift, catch, for_each}
use zune_sync.Codes.ObjectFormat
use zune_sync.Codes.ObjectProperty
use zune_sync.Stream.Input
use zune_sync.Stream.Input.{Reader}
use zune_sync.Messages.Object.{ObjectInfo, ObjectHandles, max_object_size}
use zune_sync.Messages.Device.{storage_name}
use zune_sync.PropertyList.Parser.{Property, parse_integer, parse_string, parse_each}
use zune_sync.Session.Objects.{all_storages, root}
use zune_sync.Library.Lists.{is_empty}
use zune_sync.Client.State.{to_decimal}
use zune_sync.Fuse.State.{
  FuseSession, Fuse, Host, Method, Children, State, directory_mode, file_mode, set_size, call,
  read_fuse, change, attr_at, set_attr_at, children_at, set_children_at,
}
use zune_sync.Fuse.Inodes.{
  root_inode, storage_shift, to_fuse, from_fuse, is_storage_inode, storage_of_inode,
}

-- `FuseEntry::GetMode`
unfoldable pub get_mode : ℕ → ℕ
get_mode format = if format == ObjectFormat.association then directory_mode else file_mode

-- "sdcard" and the number of the storage, where it has no name
unfoldable pub storage_path : List ℕ → ℕ → List ℕ
storage_path name i =
    if is_empty name then b's' ∷ b'd' ∷ b'c' ∷ b'a' ∷ b'r' ∷ b'd' ∷ to_decimal (u32 i) else name

unfoldable pub clear_storages : Fuse → Fuse
clear_storages f = record f { storage_id_list = []; storage_to_name = []; storage_from_name = [] }

unfoldable pub record_storage : ℕ → List ℕ → Fuse → Fuse
record_storage id path f = record f {
  storage_id_list = f.storage_id_list ++ (id ∷ []);
  storage_from_name = assign name_key path id f.storage_from_name;
  storage_to_name = assign number_key id path f.storage_to_name;
}

-- The loop of `GetChildren` over the storages; one without a name is left out.
unfoldable pub root_children : List (ℕ × List ℕ) → ℕ → List ℕ → Children → Children
root_children names i [] kids = kids
root_children names i (id ∷ ids) kids =
    root_children names (suc i) ids (elim (find number_key.same id names) [
      | none ↦ kids
      | some name ↦ emplace name_key name (storage_shift + i) kids
    ])

unfoldable pub list_storages : Fuse → Fuse
list_storages f =
    set_children_at root_inode (root_children f.storage_to_name 0 f.storage_id_list []) f

unfoldable pub add_child : ℕ → List ℕ → ℕ → Fuse → Fuse
add_child inode name id f =
    set_children_at inode (emplace name_key name (to_fuse id) (children_at inode f)) f

-- The callbacks of `GetChildren`.
unfoldable pub set_format : ℕ → ℕ → Fuse → Fuse
set_format id format f =
    set_attr_at id (record (attr_at id f) { ino = to_fuse id; mode = get_mode format; nlink = 1 }) f

unfoldable pub set_object_size : ℕ → ℕ → Fuse → Fuse
set_object_size id size f = set_attr_at id (set_size size (attr_at id f)) f

unfoldable pub set_mtime : ℕ → ℕ → Fuse → Fuse
set_mtime id time f = set_attr_at id (record (attr_at id f) { mtime = time }) f

unfoldable pub set_ctime : ℕ → ℕ → Fuse → Fuse
set_ctime id time f = set_attr_at id (record (attr_at id f) { ctime = time }) f

-- What `GetObjectInfo` sets before the size, and after it.
unfoldable pub set_info : {S : Type 0} → Host S → ℕ → ObjectInfo → Fuse → Fuse
set_info host id info f =
    let modified = host.convert_date_time info.modification_date in
    set_attr_at id
      (record (attr_at id f) {
        uid = host.uid;
        gid = host.gid;
        ino = to_fuse id;
        mode = get_mode info.object_format;
        atime = modified;
        mtime = modified;
        ctime = host.convert_date_time info.capture_date;
      })
      f

unfoldable pub finish_info : ℕ → ℕ → Fuse → Fuse
finish_info id size f = set_attr_at id (record (set_size size (attr_at id f)) { nlink = 1 }) f

-- `find(objectId) != end()`
unfoldable pub is_listed : ℕ → List (ℕ × Unit {0}) → Bool
is_listed id ids = elim (find number_key.same id ids) [ none ↦ false | some _ ↦ true ]

-- `ObjectPropertyParser<ObjectFormat>`, with the cast to 16 bits
unfoldable pub parse_format : ℕ → Reader ℕ
parse_format data_type = Input.◌>>=◌ (parse_integer data_type) (λ value. Input.return (u16 value))

module _ (C : FuseSession) (host : Host (State C)) where
  unfoldable pub add_storages : ℕ → List ℕ → Method C (Unit {0})
  add_storages i [] = return tt
  add_storages i (id ∷ ids) = do
    info ← call (C.client.get_storage_info id)
    change (record_storage id (storage_path (storage_name info) i))
    add_storages (suc i) ids

  unfoldable pub populate_storages : Method C (Unit {0})
  populate_storages = do
    change clear_storages
    ids ← call C.client.base.get_storage_ids
    add_storages 0 ids.storage_ids

  -- The size of an object that is too big for its message is asked for.
  unfoldable pub object_size : ℕ → ObjectInfo → Method C ℕ
  object_size id info =
      if info.object_compressed_size == max_object_size
      then call (C.client.base.get_object_integer_property id ObjectProperty.object_size)
      else return info.object_compressed_size

  -- `GetObjectInfo`, into the children of `inode`
  unfoldable pub get_object_info : ℕ → ℕ → Method C (Unit {0})
  get_object_info inode id = do
    info ← call (C.client.get_object_info id)
    change (add_child inode info.filename id)
    change (set_info host id info)
    size ← object_size id info
    change (finish_info id size)

  module _ {A : Type 0} (property : ℕ) (callback : ℕ → A → Method C (Unit {0})) where
    -- The function that `Parse` calls, with the objects that are still without a value.
    unfoldable pub each_value :
        Property A → Stateful (List (ℕ × Unit {0}) × (Fuse × State C)) (Unit {0})
    each_value p x =
        let r = callback p.object_id p.value x.1 in
        if (property == p.property) && is_listed p.object_id x.0
        then (ok tt, (erase number_key p.object_id x.0, r.1))
        else (ok tt, x)

    -- The fallback for one object.
    unfoldable pub query_value : Reader A → ℕ × Unit {0} → Method C (Unit {0})
    query_value reader object =
        catch
          (do
            bytes ← call (C.get_object_property object.0 property)
            value ← lift (Input.run reader bytes)
            callback object.0 value)
          (return tt)

    unfoldable pub parse_values :
        (ℕ → Reader A) → List ℕ → List (ℕ × Unit {0}) → Method C (List (ℕ × Unit {0}))
    parse_values parser bytes objects w =
        let r = parse_each parser each_value bytes (objects, w) in
        elim r.0 [ err e ↦ (err e, r.1.1) | ok _ ↦ (ok r.1.0, r.1.1) ]

    -- `GetObjectPropertyList`: `reader` is the `>>` of the values.
    unfoldable pub get_object_property_list :
        (ℕ → Reader A) → Reader A → ℕ → List (ℕ × Unit {0}) → Method C (Unit {0})
    get_object_property_list parser reader parent objects = do
      bytes ← call (C.client.base.get_object_property_list parent ObjectFormat.any property 0 1)
      missing ← parse_values parser bytes objects
      for_each (query_value reader) missing

  unfoldable pub load_names : ℕ → ℕ → List (ℕ × Unit {0}) → Method C (Unit {0})
  load_names inode =
      get_object_property_list ObjectProperty.object_filename
        (λ id name. change (add_child inode name id)) parse_string Input.read_string

  unfoldable pub load_formats : ℕ → List (ℕ × Unit {0}) → Method C (Unit {0})
  load_formats =
      get_object_property_list ObjectProperty.object_format
        (λ id format. change (set_format id format)) parse_format Input.read16

  unfoldable pub load_sizes : ℕ → List (ℕ × Unit {0}) → Method C (Unit {0})
  load_sizes =
      get_object_property_list ObjectProperty.object_size
        (λ id size. change (set_object_size id size)) parse_integer Input.read64

  unfoldable pub load_mtimes : ℕ → List (ℕ × Unit {0}) → Method C (Unit {0})
  load_mtimes =
      get_object_property_list ObjectProperty.date_modified
        (λ id time. change (set_mtime id (host.convert_date_time time))) parse_string
        Input.read_string

  unfoldable pub load_ctimes : ℕ → List (ℕ × Unit {0}) → Method C (Unit {0})
  load_ctimes =
      get_object_property_list ObjectProperty.date_added
        (λ id time. change (set_ctime id (host.convert_date_time time))) parse_string
        Input.read_string

  -- The part of `GetChildren` for devices with property lists.
  unfoldable pub load_properties : ℕ → ℕ → List (ℕ × Unit {0}) → Method C (Unit {0})
  load_properties inode parent objects = do
    load_names inode parent objects
    load_formats parent objects
    load_sizes parent objects
    catch (load_mtimes parent objects) (return tt)
    catch (load_ctimes parent objects) (return tt)

  unfoldable pub load_infos : ℕ → List ℕ → Method C (Unit {0})
  load_infos inode = for_each (λ id. catch (get_object_info inode id) (return tt))

  unfoldable pub load_storage : ℕ → Method C (Unit {0})
  load_storage inode = do
    ids ← read_fuse (λ f. f.storage_id_list)
    storage ← lift (storage_of_inode ids inode)
    handles ← call (C.client.base.get_object_handles storage ObjectFormat.any root)
    load_infos inode handles.object_handles

  -- The objects of a directory, by property lists where the device has them.
  unfoldable pub load_handles : ℕ → ObjectHandles → Method C (Unit {0})
  load_handles inode handles = do
    supported ← read_fuse (λ f. f.get_object_property_list_supported)
    if supported
        then load_properties inode (from_fuse inode) (set_of handles.object_handles)
        else load_infos inode handles.object_handles

  unfoldable pub load_directory : ℕ → Method C (Unit {0})
  load_directory inode =
      call (C.client.base.get_object_handles all_storages ObjectFormat.any (from_fuse inode))
      >>= load_handles inode

  -- `GetChildren` of an inode that `_files` does not know: the entry is made first.
  unfoldable pub load_children : ℕ → Method C Children
  load_children inode = do
    change (set_children_at inode [])
    if is_storage_inode inode then load_storage inode else load_directory inode
    read_fuse (children_at inode)

  unfoldable pub get_root_children : Method C Children
  get_root_children = do populate_storages; change list_storages; read_fuse (children_at root_inode)

  unfoldable pub get_children : ℕ → Method C Children
  get_children inode w =
      if inode == root_inode
      then get_root_children w
      else elim (find number_key.same inode w.0.files) [
        | some kids ↦ (ok kids, w)
        | none ↦ load_children inode w
      ]
