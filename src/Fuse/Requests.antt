-- ===== src/Fuse/Requests.antt =====
-- `Connect`, and the functions that libfuse calls: `WRAP_EX` around the methods of the wrapper.
use zune_sync.Base.{ℕ, not, Bool, true, false, List, [], Option, Error, throw_if, ok, err}
use zune_sync.Base.Stateful.{◌>>=◌, ◌>>◌, throw, lift, for_each}
use zune_sync.Codes.ObjectFormat
use zune_sync.Codes.OperationCode
use zune_sync.Messages.Device.{supports_operation}
use zune_sync.Fuse.State.{
  FuseSession, Fuse, Host, Method, State, Reply, Code, call, ask, read_fuse, change, reply,
}
use zune_sync.Fuse.Listing.{populate_storages}
use zune_sync.Fuse.Access.{end_edit, create_request}
use zune_sync.Fuse.Files
use zune_sync.Fuse.Directory

-- The requests of the kernel.
pub data Request : Type 0 where
  lookup : ℕ → List ℕ → Request
  read_dir : ℕ → ℕ → ℕ → Request
  get_attr : ℕ → Request
  set_attr : ℕ → Option ℕ → Request
  read : ℕ → ℕ → ℕ → Request
  write : ℕ → List ℕ → ℕ → Request
  make_node : ℕ → List ℕ → Request
  create : ℕ → List ℕ → Request
  open_file : ℕ → Request
  rename : ℕ → List ℕ → ℕ → List ℕ → Request
  release : ℕ → Request
  make_dir : ℕ → List ℕ → Request
  remove_dir : ℕ → List ℕ → Request
  unlink : ℕ → List ℕ → Request
  stat_fs : ℕ → Request

-- `clear()` of the caches; the object cache and the storages stay.
unfoldable pub clear_caches : Fuse → Fuse
clear_caches f = record f { opened_files = []; files = []; object_attrs = []; directory_cache = [] }

unfoldable pub set_capabilities : Bool → Bool → Bool → ℕ → Fuse → Fuse
set_capabilities edit list partial time f = record f {
  edit_object_supported = edit;
  get_object_property_list_supported = list;
  get_partial_object_supported = partial;
  connect_time = time;
}

module _ (C : FuseSession) (host : Host (State C)) where
  -- The edit sessions end as their map is cleared.
  unfoldable pub end_edits : Method C (Unit {0})
  end_edits = do
    opened ← read_fuse (λ f. f.opened_files)
    for_each (λ (o : ℕ × Unit {0}). end_edit C host o.0) opened

  unfoldable pub read_capabilities : Method C (Unit {0})
  read_capabilities = do
    edit ← ask C.edit_object_supported
    list ← ask C.get_object_property_list_supported
    info ← ask C.client.base.device_info
    time ← ask host.now
    change
        (set_capabilities edit list (supports_operation info OperationCode.get_partial_object) time)

  unfoldable pub connect : Method C (Unit {0})
  connect = do
    end_edits
    change clear_caches
    found ← call host.find_first
    lift (throw_if (not found) Error.no_device)
    call host.open_session
    read_capabilities
    populate_storages C host

  unfoldable pub handle : Request → Method C (Unit {0})
  handle (Request.lookup parent name) = Directory.lookup C host parent name
  handle (Request.read_dir inode size offset) = Directory.read_dir C host inode size offset
  handle (Request.get_attr inode) = Directory.get_attr C host inode
  handle (Request.set_attr inode size) = Files.set_attr C host inode size
  handle (Request.read inode size offset) = Files.read C host inode size offset
  handle (Request.write inode bytes offset) = Files.write C host inode bytes offset
  handle (Request.make_node parent name) =
      create_request C host ObjectFormat.undefined parent name false
  handle (Request.create parent name) =
      create_request C host ObjectFormat.undefined parent name true
  handle (Request.open_file inode) = Files.open_file C host inode
  handle (Request.rename parent name new_parent new_name) =
      Directory.rename C host parent name new_parent new_name
  handle (Request.release inode) = Files.release C host inode
  handle (Request.make_dir parent name) =
      create_request C host ObjectFormat.association parent name false
  handle (Request.remove_dir parent name) = Directory.unlink C host parent name
  handle (Request.unlink parent name) = Directory.unlink C host parent name
  handle (Request.stat_fs inode) = Directory.stat_fs C host inode

  -- What `WRAP_EX` does about an exception. A lost device is opened again, and the method is called
  -- again, outside the `try`; a failed reply of `EIO` is not looked at. What is no exception, the end of the
  -- program and what C++ does not define, is not caught.
  unfoldable pub reply_eio : Method C (Unit {0})
  reply_eio w = let r = reply host (Reply.error Code.eio) w in (ok tt, r.1)

  unfoldable pub recover : Error → Method C (Unit {0}) → Method C (Unit {0})
  recover Error.device_not_found again = connect >> again
  recover Error.terminated again = throw Error.terminated
  recover Error.past_end again = throw Error.past_end
  recover Error.past_terminator again = throw Error.past_terminator
  recover Error.invalid_iterator again = throw Error.invalid_iterator
  recover _ again = reply_eio

  unfoldable pub wrap_ex : Method C (Unit {0}) → Method C (Unit {0})
  wrap_ex method w = let r = method w in elim r.0 [ ok _ ↦ r | err e ↦ recover e method r.1 ]

  unfoldable pub serve : Request → Method C (Unit {0})
  serve request = wrap_ex (handle request)
