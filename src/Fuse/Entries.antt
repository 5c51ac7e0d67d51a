-- ===== src/Fuse/Entries.antt =====
-- What making, removing and renaming do to the names of a directory.
use zune_sync.Base.{ℕ, ◌==◌, ◌≡◌, ap, false, [], none, some, ok, arith}
use zune_sync.Base.Dict.{find}
use zune_sync.Base.Sorted.{number_key, find-assign}
use zune_sync.Messages.Object.{ObjectInfo, max_object_size}
use zune_sync.Fuse.State.{FuseSession, Fuse, Host, State, Children, children_at, set_children_at}
use zune_sync.Fuse.Listing.{add_child, set_info, finish_info, object_size, get_object_info}
use zune_sync.Fuse.Access.{forget_directory, cache_child, update_cache}

pub children_at-set_children_at :
    (inode : ℕ) (kids : Children) (f : Fuse)
    → children_at inode (set_children_at inode kids f) ≡ kids
unfolding children_at set_children_at
children_at-set_children_at inode kids f =
    ap (λ o. elim o as (λ _. Children) [ none ↦ [] | some k ↦ k ])
      (find-assign number_key inode kids f.files)

module _ (C : FuseSession) (host : Host (State C)) where
  -- The wrapper after a new object was put into the caches.
  abbrev pub made : ℕ → ℕ → ObjectInfo → Fuse → Fuse
  made parent id info f = forget_directory parent (
      finish_info id info.object_compressed_size
        (set_info host id info (add_child parent info.filename id f)))

  get_object_info-made :
      (parent id : ℕ) (info : ObjectInfo) (f : Fuse) (s s' : State C)
      → C.client.get_object_info id s ≡ (ok info, s')
      → (info.object_compressed_size == max_object_size) ≡ false
      → get_object_info C host parent id (f, s) ≡ (
        ok tt,
        (
          finish_info id info.object_compressed_size
              (set_info host id info (add_child parent info.filename id f)),
          s',
        ),
      )
  unfolding get_object_info object_size
  get_object_info-made parent id info f s s' e small = ground (arith, e, small)

  pub update_cache-made :
      (parent id : ℕ) (info : ObjectInfo) (kids : Children) (f : Fuse) (s s' : State C)
      → find number_key.same parent f.files ≡ some kids
      → C.client.get_object_info id s ≡ (ok info, s')
      → (info.object_compressed_size == max_object_size) ≡ false
      → update_cache C host parent id (f, s) ≡ (ok tt, (made parent id info f, s'))
  unfolding update_cache cache_child
  update_cache-made parent id info kids f s s' known e small =
      let got = get_object_info-made parent id info f s s' e small in ground (arith, known, got)
