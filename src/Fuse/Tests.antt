-- ===== src/Fuse/Tests.antt =====
-- The theorems about the file system at concrete inputs.
use zune_sync.Base.{
  ℕ, ◌+◌, ◌≤◌, ◌≡◌, ◌≢◌, refl, false, List, [], ◌∷◌, ◌++◌, length, drop, none, some, Error, ok, err,
  arith,
}
use zune_sync.Base.Dict.{equal_bytes, find}
use zune_sync.Base.Sorted.{number_key, name_key}
use zune_sync.Fuse.State.{
  blank_stat, file_mode, FuseSession, Fuse, Reply, Code, children_at, reply, set_children_at, Stat,
  Children,
}
use zune_sync.Fuse.Inodes.{
  root_inode, to_fuse, from_fuse, is_storage_inode, storage_of_inode, distance_to, inode_of_storage,
}
use zune_sync.Codes.ObjectFormat
use zune_sync.Messages.Object.{NewObjectInfo}
use zune_sync.Client.Upload.{upload_info}
use zune_sync.Fuse.Listing.{get_mode, get_children}
use zune_sync.Fuse.Access.{is_directory, is_directory, place_of, send_new, create_object}
use zune_sync.Fuse.Files.{find_cached, read_cached, write}
use zune_sync.Fuse.Directory.{directory_part, lookup, unlink_found, rename_found}
use zune_sync.Fuse.Requests.{Request, handle, serve}
use zune_sync.Fuse.Serving.{Replied}
use zune_sync.Fuse.Answers.{serve-Replied, serve-answers}
use zune_sync.Fuse.Numbers.{
  from_fuse-to_fuse, storage_of_inode-inode_of_storage, directory_part-pieces,
}
use zune_sync.Fuse.Stale.{read_cached-write, get_children-emptied}
use zune_sync.Fuse.Made.{create_object-lookup}
use zune_sync.Fuse.Removed.{unlinked, renamed, unlink_found-removes, rename_found-renames}
use zune_sync.Fuse.Samples.{contents, shop, door, door-IsAccepting, mounted}

-- A name that the directory 4 does not have.
abbrev asked : Request
asked = Request.lookup 1000004 (b'x' ∷ [])

asked_returns : (handle shop door asked (mounted, [])).0 ≡ ok tt
unfolding handle lookup get_children find equal_bytes reply
asked_returns = refl

serve-answers_example :
    ((serve shop door asked (mounted, [])).0 ≡ ok tt)
    × ((r : Reply) × ((serve shop door asked (mounted, [])).1.0.replies ≡ [] ++ (r ∷ [])))
serve-answers_example =
    serve-answers shop door door-IsAccepting asked (mounted, [])
      (λ x e. absurd (grind (arith, e, asked_returns)))

serve-Replied_example :
    Replied
      (serve shop door asked (mounted, [])).0
      mounted
      (serve shop door asked (mounted, [])).1.0
serve-Replied_example = serve-Replied shop door door-IsAccepting asked (mounted, [])

-- The wrapper with nothing cached, after a read.
abbrev fresh : Fuse × List (ℕ × List ℕ)
fresh = (record mounted { object_cache = [] }, [])

cached : find_cached 7 mounted.object_cache ≡ some (0, contents 7)
unfolding find_cached
cached = refl

read_cached-write_example :
    (read_cached shop door 7 0 3 (write shop door 1000007 (9 ∷ []) 0 (mounted, [])).1).0
    ≡ ok (1 ∷ 2 ∷ 3 ∷ [])
read_cached-write_example =
    read_cached-write shop door 1000007 7 0 3 0 0 (9 ∷ []) (contents 7) (mounted, []) cached
      (omega arith)

from_fuse-to_fuse_example :
    (from_fuse (to_fuse 7) ≡ 7) × (to_fuse 7 ≢ root_inode) × (is_storage_inode (to_fuse 7) ≡ false)
from_fuse-to_fuse_example = from_fuse-to_fuse 7 (omega arith) (omega arith)

abbrev two_storages : List ℕ
two_storages = 0x10001 ∷ 0x20001 ∷ []

second : inode_of_storage two_storages 0x20001 ≡ ok 3
unfolding inode_of_storage distance_to
second = refl

storage_of_inode-inode_of_storage_example : storage_of_inode two_storages 3 ≡ ok 0x20001
storage_of_inode-inode_of_storage_example =
    storage_of_inode-inode_of_storage two_storages 0x20001 3 (omega arith) second

abbrev five : List ℕ
five = 1 ∷ 2 ∷ 3 ∷ 4 ∷ 5 ∷ []

directory_part-pieces_example :
    (part : List ℕ) × (directory_part five 1 2 ≡ ok part)
    × (part ++ drop (1 + length part) five ≡ drop 1 five)
    × (length part ≤ 2)
    × (part ≡ [] → length five ≤ 1)
directory_part-pieces_example = directory_part-pieces five 1 2 (omega arith) (omega arith)

-- A session that lists no directory.
abbrev closed_shop : FuseSession
closed_shop = record shop {
  client = record shop.client {
    base = record shop.client.base {
      get_object_handles = λ storage format parent s. (err Error.timeout, s);
    };
  };
}

not_known : find number_key.same 1000005 mounted.files ≡ none
unfolding find
not_known = refl

an_object : is_storage_inode 1000005 ≡ false
unfolding is_storage_inode
an_object = refl

get_children-emptied_example :
    (get_children closed_shop door 1000005 (mounted, [])
      ≡ (err Error.timeout, (set_children_at 1000005 [] mounted, [])))
    × ((name : List ℕ)
        → lookup closed_shop door 1000005 name
            (get_children closed_shop door 1000005 (mounted, [])).1
          ≡ reply door (Reply.error Code.enoent) (set_children_at 1000005 [] mounted, []))
get_children-emptied_example =
    get_children-emptied closed_shop door 1000005 mounted [] [] Error.timeout
      (λ e. omega (arith, e)) an_object not_known refl

-- The name of the object that the device makes.
abbrev n_name : List ℕ
n_name = b'n' ∷ []

abbrev kids : Children
kids = (b'a' ∷ [], 1000007) ∷ []

known : find number_key.same 1000004 mounted.files ≡ some kids
unfolding find
known = refl

no_n : find name_key.same n_name kids ≡ none
unfolding find equal_bytes
no_n = refl

placed : place_of shop door 1000004 (mounted, []) ≡ (ok (0x10001, 4), (mounted, []))
unfolding place_of is_storage_inode from_fuse
placed = refl

abbrev new_object : NewObjectInfo
new_object = record { storage_id = 0x10001; parent_object_id = 4; object_id = 8 }

sent :
    send_new shop door (0x10001, 4) n_name ObjectFormat.undefined (mounted, [])
    ≡ (ok new_object, (mounted, []))
unfolding send_new
sent = refl

create_object-lookup_example :
    let after = (create_object shop door 1000004 n_name ObjectFormat.undefined (mounted, [])).1 in
    (st : Stat) × (lookup shop door 1000004 n_name after
      ≡ reply door (Reply.entry (to_fuse 8) st) after)
    × (st.ino ≡ to_fuse 8)
    × (st.mode ≡ get_mode 0x3000)
    × (st.size ≡ 12)
unfolding upload_info
create_object-lookup_example =
    create_object-lookup shop door 1000004 ObjectFormat.undefined n_name
      (upload_info n_name 0x3000 12) new_object (0x10001, 4) kids mounted [] [] [] []
      (λ e. omega (arith, e)) (omega arith) (omega arith) known no_n placed sent refl refl

abbrev three : Stat
three = record blank_stat { mode = file_mode; size = 3 }

the_attr : find number_key.same 7 mounted.object_attrs ≡ some three
unfolding find
the_attr = refl

a_file : is_directory three ≡ false
unfolding is_directory
a_file = refl

unlink_found-removes_example :
    let g = unlinked shop door 1000004 (b'a' ∷ []) 7 mounted in
    (unlink_found shop door 1000004 (b'a' ∷ []) (to_fuse 7) (mounted, [])
      ≡ reply door (Reply.error Code.success) (g, []))
    × (find name_key.same (b'a' ∷ []) (children_at 1000004 g) ≡ none)
    × (find number_key.same 1000004 g.directory_cache ≡ none)
    × (find number_key.same 7 g.object_attrs ≡ none)
    × ((other : List ℕ)
        → other ≢ (b'a' ∷ [])
        → find name_key.same other (children_at 1000004 g)
          ≡ find name_key.same other (children_at 1000004 mounted))
unfolding find
unlink_found-removes_example =
    unlink_found-removes shop door 1000004 (b'a' ∷ []) 7 three mounted [] [] (omega arith)
      (omega arith) the_attr a_file refl refl

no_n_here : find name_key.same n_name (children_at 1000004 mounted) ≡ none
unfolding children_at find equal_bytes
no_n_here = refl

rename_found-renames_example :
    let g = renamed shop door 1000004 (b'a' ∷ []) n_name 1000007 mounted in
    (rename_found shop door 1000004
        (b'a' ∷ [])
        n_name
        (children_at 1000004 mounted)
        1000007
        (mounted, [])
      ≡ reply door (Reply.error Code.success) (g, []))
    × (find name_key.same n_name (children_at 1000004 g) ≡ some 1000007)
    × (find name_key.same (b'a' ∷ []) (children_at 1000004 g) ≡ none)
    × ((other : List ℕ)
        → other ≢ (b'a' ∷ [])
        → other ≢ n_name
        → find name_key.same other (children_at 1000004 g)
          ≡ find name_key.same other (children_at 1000004 mounted))
rename_found-renames_example =
    rename_found-renames shop door 1000004 (b'a' ∷ []) n_name 1000007 mounted [] [] no_n_here
      (λ e. absurd (ground (arith, e))) refl
