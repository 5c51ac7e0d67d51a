-- ===== src/Fuse/State.antt =====
-- The members of `FuseWrapper` (fuse/fuse.cpp), its replies to the kernel, and the calls of the
-- session and of the system. The edit sessions of `_openedFiles` are their inodes.
use zune_sync.Base.{
  ℕ, ◌+◌, ◌/◌, ◌%◌, ◌^◌, if◌then◌else◌, Bool, List, [], ◌∷◌, ◌++◌, none, some, Error, Result, ok,
  err,
}
use zune_sync.Base.Dict.{find}
use zune_sync.Base.Sorted.{number_key, assign}
use zune_sync.Base.Stateful.{Stateful}
use zune_sync.Pipe.ByteStreams.{ByteArrayOutput, output_write}
use zune_sync.Session.State.{◌>>=◌, return}
use zune_sync.Session.Objects
use zune_sync.Session.Properties
use zune_sync.Session.Edit
use zune_sync.Client.State.{ClientSession, client_session}

-- What the file system calls of the session, beside what the client calls.
pub record FuseSession : Type 1 where
  pub client : ClientSession
  pub edit_object_supported : client.base.State → Bool
  pub get_object_property_list_supported : client.base.State → Bool
  pub get_object_storage : ℕ → client.base.State → Result ℕ × client.base.State
  pub get_object_property : ℕ → ℕ → client.base.State → Result (List ℕ) × client.base.State
  pub get_object : ℕ → client.base.State → Result (List ℕ) × client.base.State
  pub get_partial_object : ℕ → ℕ → ℕ → client.base.State → Result (List ℕ) × client.base.State
  pub begin_edit_object : ℕ → client.base.State → Result (Unit {0}) × client.base.State
  pub truncate_object : ℕ → ℕ → client.base.State → Result (Unit {0}) × client.base.State
  pub send_partial_object :
      ℕ → ℕ → List ℕ → client.base.State → Result (Unit {0}) × client.base.State
  pub end_edit_object : ℕ → client.base.State → Result (Unit {0}) × client.base.State

-- The session of mtp/ptp/Session.cpp; an object is read into a new byte array.
abbrev pub fuse_session : FuseSession
fuse_session = record {
  client = client_session;
  edit_object_supported = λ s. s.edit_object_supported;
  get_object_property_list_supported = λ s. s.get_object_property_list_supported;
  get_object_storage = Properties.get_object_storage;
  get_object_property = Properties.get_object_property;
  get_object = λ id.
      Objects.get_object output_write id (record { bytes = []; cancelled = Bool.false })
      >>= λ (sink : ByteArrayOutput). return sink.bytes;
  get_partial_object = Objects.get_partial_object;
  begin_edit_object = Edit.begin_edit_object;
  truncate_object = Edit.truncate_object;
  send_partial_object = Edit.send_partial_object;
  end_edit_object = Edit.end_edit_object;
}

-- The fields of `struct stat` that are used.
pub record Stat : Type 0 where
  pub ino : ℕ
  pub mode : ℕ
  pub nlink : ℕ
  pub uid : ℕ
  pub gid : ℕ
  pub size : ℕ
  pub blocks : ℕ
  pub atime : ℕ
  pub mtime : ℕ
  pub ctime : ℕ

-- `struct stat attr = { }`
abbrev pub blank_stat : Stat
blank_stat = record {
  ino = 0;
  mode = 0;
  nlink = 0;
  uid = 0;
  gid = 0;
  size = 0;
  blocks = 0;
  atime = 0;
  mtime = 0;
  ctime = 0;
}

-- `SetSize`, on a 64-bit `size_t`
unfoldable pub set_size : ℕ → Stat → Stat
set_size size st = record st { size = size; blocks = (size + 511) % 2 ^ 64 / 512 }

-- `S_IFREG` and `S_IFDIR` of the system, and the modes of fuse/FuseEntry.h
abbrev pub regular_bit : ℕ
regular_bit = 0x8000

abbrev pub directory_bit : ℕ
directory_bit = 0x4000

abbrev pub file_mode : ℕ
file_mode = regular_bit + 0x1a4

abbrev pub directory_mode : ℕ
directory_mode = directory_bit + 0x1ed

-- The fields of `struct statvfs` that are set.
pub record StatVfs : Type 0 where
  pub namemax : ℕ
  pub frsize : ℕ
  pub bsize : ℕ
  pub blocks : ℕ
  pub bfree : ℕ
  pub bavail : ℕ

-- `fuse_reply_err`: 0, and the codes that are used.
pub data Code : Type 0 where
  success eperm enoent eio eisdir enotdir enotempty exdev : Code

-- The calls of `fuse_reply_err`, `_entry`, `_create`, `_attr`, `_buf`, `_write`, `_open`, `_statfs`.
pub data Reply : Type 0 where
  error : Code → Reply
  entry : ℕ → Stat → Reply
  create : ℕ → Stat → Reply
  attr : Stat → Reply
  buf : List ℕ → Reply
  written : ℕ → Reply
  opened : Reply
  statfs : StatVfs → Reply

abbrev pub Children : Type 0
Children = List (List ℕ × ℕ)

-- `replies` are the calls of `fuse_reply_*`, in order.
pub record Fuse : Type 0 where
  pub edit_object_supported : Bool
  pub get_object_property_list_supported : Bool
  pub get_partial_object_supported : Bool
  pub connect_time : ℕ
  pub files : List (ℕ × Children)
  pub object_attrs : List (ℕ × Stat)
  pub opened_files : List (ℕ × Unit {0})
  pub directory_cache : List (ℕ × List ℕ)
  pub storage_id_list : List ℕ
  pub storage_to_name : List (ℕ × List ℕ)
  pub storage_from_name : List (List ℕ × ℕ)
  pub object_cache : List (ℕ × List ℕ)
  pub replies : List Reply

-- The C library and libfuse, and `Device::FindFirst` and `OpenSession`. `accepts` is whether a reply
-- call succeeds after these; an entry of a directory is a number of bytes, which hold the name, the
-- attributes and the offset of what follows it.
pub record Host (S : Type 0) : Type 0 where
  pub uid : ℕ
  pub gid : ℕ
  pub now : S → ℕ
  pub convert_date_time : List ℕ → ℕ
  pub accepts : List Reply → Reply → Bool
  pub direntry_size : List ℕ → ℕ
  pub direntry : List ℕ → Stat → ℕ → List ℕ
  pub find_first : S → Result Bool × S
  pub open_session : S → Result (Unit {0}) × S

abbrev pub State : FuseSession → Type 0
State C = C.client.base.State

-- A method of the wrapper, which runs on the session too.
abbrev pub Method {ℓ} : FuseSession → Type ℓ → Type ℓ
Method C A = Stateful (Fuse × C.client.base.State) A

abbrev pub call {ℓ} : {S : Type 0} {A : Type ℓ} → (S → Result A × S) → Stateful (Fuse × S) A
call f w = let r = f w.1 in (r.0, (w.0, r.1))

abbrev pub ask {ℓ} : {S : Type 0} {A : Type ℓ} → (S → A) → Stateful (Fuse × S) A
ask f w = (ok (f w.1), w)

abbrev pub read_fuse {ℓ} : {S : Type 0} {A : Type ℓ} → (Fuse → A) → Stateful (Fuse × S) A
read_fuse f w = (ok (f w.0), w)

abbrev pub change : {S : Type 0} → (Fuse → Fuse) → Stateful (Fuse × S) (Unit {0})
change f w = (ok tt, (f w.0, w.1))

-- `FUSE_CALL(fuse_reply_...)`
unfoldable pub reply : {S : Type 0} → Host S → Reply → Stateful (Fuse × S) (Unit {0})
reply {S} host r w =
    let after : Fuse × S = (record w.0 { replies = w.0.replies ++ (r ∷ []) }, w.1) in
    if host.accepts w.0.replies r then (ok tt, after) else (err Error.fuse_call_failed, after)

-- `find(...)->second` of a map whose missing entries are made: `map[key]`
unfoldable pub attr_at : ℕ → Fuse → Stat
attr_at id f = elim (find number_key.same id f.object_attrs) [ none ↦ blank_stat | some st ↦ st ]

unfoldable pub set_attr_at : ℕ → Stat → Fuse → Fuse
set_attr_at id st f = record f { object_attrs = assign number_key id st f.object_attrs }

unfoldable pub children_at : ℕ → Fuse → Children
children_at inode f = elim (find number_key.same inode f.files) [ none ↦ [] | some kids ↦ kids ]

unfoldable pub set_children_at : ℕ → Children → Fuse → Fuse
set_children_at inode kids f = record f { files = assign number_key inode kids f.files }
