-- ===== src/Fuse/Made.antt =====
-- A new object is found by the next `Lookup`.
use zune_sync.Base.{
  ℕ, ◌<◌, ◌==◌, ◌≡◌, ◌≢◌, refl, sym, ap, ◌∙◌, ne→==, true, false, List, [], Option, none, some,
  Result, ok, arith, IsU32,
}
use zune_sync.Base.Dict.{find}
use zune_sync.Base.Sorted.{number_key, name_key, emplace, find-assign, find-emplace}
use zune_sync.Base.Stateful.{◌>>=◌, return, call_ok}
use zune_sync.Messages.Object.{ObjectInfo, NewObjectInfo, max_object_size}
use zune_sync.Fuse.State.{
  FuseSession, Fuse, Host, Method, Stat, State, Reply, Code, Children, set_size, attr_at,
  set_attr_at, children_at, set_children_at, reply, blank_stat,
}
use zune_sync.Fuse.Inodes.{root_inode, to_fuse, from_fuse}
use zune_sync.Fuse.Listing.{get_mode, add_child, set_info, finish_info, get_children}
use zune_sync.Fuse.Access.{
  forget_directory, object_attr, get_object_attr, fill_entry, reply_entry, place_of, send_new,
  update_cache, create_object,
}
use zune_sync.Fuse.Directory.{reply_filled, lookup}
use zune_sync.Fuse.Numbers.{from_fuse-to_fuse}
use zune_sync.Fuse.Entries.{made, update_cache-made}

attr_at-set_attr_at : (id : ℕ) (st : Stat) (f : Fuse) → attr_at id (set_attr_at id st f) ≡ st
unfolding attr_at set_attr_at
attr_at-set_attr_at id st f =
    ap (λ o. elim o as (λ _. Stat) [ none ↦ blank_stat | some k ↦ k ])
      (find-assign number_key id st f.object_attrs)

get_mode-nonzero : (format : ℕ) → get_mode format ≢ 0
unfolding get_mode
get_mode-nonzero format e = ground (arith, e)

module _ (C : FuseSession) (host : Host (State C)) where
  module _ (parent id : ℕ) (info : ObjectInfo) (f : Fuse) where
    -- The attributes of the new object.
    abbrev after_info : Fuse
    after_info = set_info host id info (add_child parent info.filename id f)

    abbrev new_stat : Stat
    new_stat = record (set_size info.object_compressed_size (attr_at id after_info)) { nlink = 1 }

    find-made : find number_key.same id (made C host parent id info f).object_attrs ≡ some new_stat
    unfolding finish_info forget_directory set_attr_at
    find-made = find-assign number_key id new_stat after_info.object_attrs

    mode-new_stat : new_stat.mode ≡ get_mode info.object_format
    unfolding set_size set_info
    mode-new_stat = ap Stat.mode (attr_at-set_attr_at id _ (add_child parent info.filename id f))

    children_at-made :
        (kids : Children)
        → find number_key.same parent f.files ≡ some kids
        → find number_key.same parent (made C host parent id info f).files
          ≡ some (emplace name_key info.filename (to_fuse id) kids)
    unfolding finish_info forget_directory set_attr_at set_info add_child set_children_at
        children_at
    children_at-made kids e =
        find-assign number_key parent _ f.files
        ∙ ap
            (λ o. some (
              emplace name_key info.filename (to_fuse id)
                (elim o as (λ _. Children) [ none ↦ [] | some k ↦ k ])))
            e

  pub get_object_attr-known :
      (id : ℕ) (st : Stat) (f : Fuse) (s : State C)
      → IsU32 id
      → 0 < id
      → find number_key.same id f.object_attrs ≡ some st
      → get_object_attr C host (to_fuse id) (f, s) ≡ (ok st, (f, s))
  unfolding get_object_attr object_attr
  get_object_attr-known id st f s u p e =
      let (back, root, storage) = from_fuse-to_fuse id u p in
      let other : (to_fuse id == root_inode) ≡ false = ne→== (to_fuse id) root_inode root in
      let known : find number_key.same (from_fuse (to_fuse id)) f.object_attrs ≡ some st =
        ap (λ k. find number_key.same k f.object_attrs) back ∙ e in
      ground (arith, other, storage, known)

  get_children-known :
      (inode : ℕ) (kids : Children) (f : Fuse) (s : State C)
      → inode ≢ root_inode
      → find number_key.same inode f.files ≡ some kids
      → get_children C host inode (f, s) ≡ (ok kids, (f, s))
  unfolding get_children
  get_children-known inode kids f s n e =
      let other : (inode == root_inode) ≡ false = ne→== inode root_inode n in
      ground (arith, other, e)

  fill_entry-known :
      (inode : ℕ) (st : Stat) (f : Fuse) (s : State C)
      → get_object_attr C host inode (f, s) ≡ (ok st, (f, s))
      → fill_entry C host inode (f, s) ≡ (ok (true, record st { ino = inode }), (f, s))
  unfolding fill_entry
  fill_entry-known inode st f s e = ground (arith, e)

  reply_filled-known :
      (inode : ℕ) (st : Stat) (w : Fuse × State C)
      → st.mode ≢ 0
      → reply_filled C host inode (true, st) w ≡ reply host (Reply.entry inode st) w
  unfolding reply_filled reply_entry
  reply_filled-known inode st w mode = rw (reply_filled, reply_entry, ne→== st.mode 0 mode) refl

  lookup-known :
      (parent id : ℕ) (name : List ℕ) (kids : Children) (st : Stat) (f : Fuse) (s : State C)
      → parent ≢ root_inode
      → IsU32 id
      → 0 < id
      → find number_key.same parent f.files ≡ some kids
      → find name_key.same name kids ≡ some (to_fuse id)
      → find number_key.same id f.object_attrs ≡ some st
      → st.mode ≢ 0
      → lookup C host parent name (f, s)
        ≡ reply host (Reply.entry (to_fuse id) (record st { ino = to_fuse id })) (f, s)
  unfolding lookup
  lookup-known parent id name kids st f s n u p known found attrs mode =
      let entry =
        λ (i : ℕ). ◌>>=◌ {S = Fuse × State C} (fill_entry C host i) (reply_filled C host i) in
      let answer = λ (o : Option ℕ). elim o as (λ _. Method C (Unit {0})) [
        | none ↦ reply host (Reply.error Code.enoent)
        | some i ↦ entry i
      ] in
      let filled =
        fill_entry-known (to_fuse id) st f s (get_object_attr-known id st f s u p attrs) in
      call_ok (get_children C host parent) (λ ks. answer (find name_key.same name ks)) (f, s) (f, s)
        kids (get_children-known parent kids f s n known)
      ∙ ap (λ o. answer o (f, s)) found
      ∙ call_ok (fill_entry C host (to_fuse id)) (reply_filled C host (to_fuse id)) (f, s) (f, s)
          (true, record st { ino = to_fuse id }) filled
      ∙ reply_filled-known (to_fuse id) (record st { ino = to_fuse id }) (f, s) mode

  create_object-made :
      (parent format : ℕ) (filename : List ℕ) (info : ObjectInfo) (noi : NewObjectInfo)
      (place : ℕ × ℕ) (kids : Children) (f : Fuse) (s s1 s2 s3 : State C)
      → find number_key.same parent f.files ≡ some kids
      → place_of C host parent (f, s) ≡ (ok place, (f, s1))
      → send_new C host place filename format (f, s1) ≡ (ok noi, (f, s2))
      → C.client.get_object_info noi.object_id s2 ≡ (ok info, s3)
      → (info.object_compressed_size == max_object_size) ≡ false
      → create_object C host parent filename format (f, s)
        ≡ (ok (to_fuse noi.object_id), (made C host parent noi.object_id info f, s3))
  unfolding create_object
  create_object-made parent format filename info noi place kids f s s1 s2 s3 known placed sent got
        small =
      let tail = λ (n : NewObjectInfo).
        ◌>>=◌ {S = Fuse × State C} (update_cache C host parent n.object_id)
          (λ _. return (to_fuse n.object_id)) in
      call_ok (place_of C host parent)
        (λ p. ◌>>=◌ {S = Fuse × State C} (send_new C host p filename format) tail) (f, s) (f, s1)
        place placed
      ∙ call_ok (send_new C host place filename format) tail (f, s1) (f, s2) noi sent
      ∙ call_ok (update_cache C host parent noi.object_id) (λ _. return (to_fuse noi.object_id))
          (f, s2) (made C host parent noi.object_id info f, s3) tt
          (update_cache-made C host parent noi.object_id info kids f s2 s3 known got small)

  -- An object that `CreateObject` makes in a directory that is known, and that has no entry of the name
  -- which the device gives the object, is found by the next `Lookup` of this name: the answer has its
  -- inode, and the mode and the size that the device told.
  pub create_object-lookup :
      (parent format : ℕ) (filename : List ℕ) (info : ObjectInfo) (noi : NewObjectInfo)
      (place : ℕ × ℕ) (kids : Children) (f : Fuse) (s s1 s2 s3 : State C)
      → parent ≢ root_inode
      → IsU32 noi.object_id
      → 0 < noi.object_id
      → find number_key.same parent f.files ≡ some kids
      → find name_key.same info.filename kids ≡ none
      → place_of C host parent (f, s) ≡ (ok place, (f, s1))
      → send_new C host place filename format (f, s1) ≡ (ok noi, (f, s2))
      → C.client.get_object_info noi.object_id s2 ≡ (ok info, s3)
      → (info.object_compressed_size == max_object_size) ≡ false
      → let after = (create_object C host parent filename format (f, s)).1 in
        (st : Stat) × (lookup C host parent info.filename after
          ≡ reply host (Reply.entry (to_fuse noi.object_id) st) after)
        × (st.ino ≡ to_fuse noi.object_id)
        × (st.mode ≡ get_mode info.object_format)
        × (st.size ≡ info.object_compressed_size)
  unfolding set_size
  create_object-lookup parent format filename info noi place kids f s s1 s2 s3 n u p known fresh
        placed sent got small =
      let id = noi.object_id in
      let st = new_stat parent id info f in
      let made_it =
        create_object-made parent format filename info noi place kids f s s1 s2 s3 known placed sent
          got small in
      let mode = mode-new_stat parent id info f in
      let found =
        lookup-known parent id info.filename (emplace name_key info.filename (to_fuse id) kids) st
          (made C host parent id info f) s3 n u p (children_at-made parent id info f kids known)
          (find-emplace name_key info.filename (to_fuse id) kids fresh) (find-made parent id info f)
          (λ e. get_mode-nonzero info.object_format (sym mode ∙ e)) in
      let st' = record st { ino = to_fuse id } in
      (
        st',
        ap (λ (r : Result ℕ × (Fuse × State C)). lookup C host parent info.filename r.1) made_it
            ∙ found
            ∙ sym (
                ap
                  (λ (r : Result ℕ × (Fuse × State C)).
                    reply host (Reply.entry (to_fuse id) st') r.1)
                  made_it),
        refl,
        mode,
        refl,
      )
