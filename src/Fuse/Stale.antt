-- ===== src/Fuse/Stale.antt =====
-- What is cached and goes out of date: contents after `Write`, children after a failed listing.
use zune_sync.Base.{
  ℕ, ◌+◌, ◌≤◌, ◌==◌, ◌≡◌, ◌≢◌, refl, ap, ◌∙◌, ne→==, inl, inr, Bool-cases, false, List, [], length,
  take, drop, Option, none, some, Error, Result, ok, err, arith,
}
use zune_sync.Base.Dict.{find}
use zune_sync.Base.Sorted.{number_key, name_key, find-assign}
use zune_sync.Base.Stateful.{◌>>=◌, return, call_err, call_ok, every_way}
use zune_sync.Codes.ObjectFormat
use zune_sync.Session.Objects.{all_storages}
use zune_sync.Fuse.State.{
  FuseSession, Fuse, Host, Method, State, Reply, Code, Children, call, reply, set_children_at,
}
use zune_sync.Fuse.Inodes.{root_inode, from_fuse, is_storage_inode}
use zune_sync.Fuse.Listing.{load_handles, load_directory, load_children, get_children}
use zune_sync.Fuse.Files.{find_cached, grows, truncate, write, read_hit, read_miss, read_cached}
use zune_sync.Fuse.Access.{fill_entry}
use zune_sync.Fuse.Directory.{reply_filled, lookup}
use zune_sync.Fuse.Steady.{IsSteady, return-IsSteady, call-IsSteady, if-IsSteady}
use zune_sync.Fuse.QuietAccess.{get_object_attr-IsSteady, get_transaction-IsSteady}
use zune_sync.Fuse.ServingFiles.{truncate-IsSteady}
use zune_sync.Fuse.Reading.{read_hit-found}

module _ (C : FuseSession) (host : Host (State C)) where
  record LeavesCache {A : Type 0} (m : Method C A) : Type 0 where
    left : (w : Fuse × State C) → (m w).1.0.object_cache ≡ w.0.object_cache

  bind-LeavesCache :
      {A B : Type 0} (m : Method C A) (f : A → Method C B)
      → IsSteady C m
      → ((a : A) → LeavesCache (f a))
      → LeavesCache (m >>= f)
  bind-LeavesCache m f hm hf = record {
    left =
        every_way (λ s t. t.0.object_cache ≡ s.0.object_cache) (λ s t u p q. q ∙ p) m f
          (λ w. (hm.kept w).object_cache) (λ a. (hf a).left);
  }

  reply-LeavesCache : (r : Reply) → LeavesCache (reply host r)
  unfolding reply
  reply-LeavesCache r = record {
    left = λ w. elim (Bool-cases (host.accepts w.0.replies r)) [
      | inl e ↦ rw (reply, e) refl
      | inr e ↦ rw (reply, e) refl
    ];
  }

  write-LeavesCache :
      (inode : ℕ) (bytes : List ℕ) (offset : ℕ) → LeavesCache (write C host inode bytes offset)
  unfolding write
  write-LeavesCache inode bytes offset =
      bind-LeavesCache _ _ (get_object_attr-IsSteady C host inode) λ st.
        bind-LeavesCache _ _ (get_transaction-IsSteady C host inode) λ _.
          bind-LeavesCache _ _
            (if-IsSteady C (grows (offset + length bytes) st)
              (truncate C host inode (offset + length bytes)) (return tt)
              (truncate-IsSteady C host inode (offset + length bytes)) (return-IsSteady C tt))
            λ _.
              bind-LeavesCache _ _
                (call-IsSteady C (C.send_partial_object (from_fuse inode) offset bytes))
                λ _. reply-LeavesCache (Reply.written (length bytes))

  read_cached-hit :
      (id begin rsize i : ℕ) (old : List ℕ) (w : Fuse × State C)
      → find_cached id w.0.object_cache ≡ some (i, old)
      → begin + rsize ≤ length old
      → (read_cached C host id begin rsize w).0 ≡ ok (take rsize (drop begin old))
  unfolding read_cached
  read_cached-hit id begin rsize i old w e h = go (find_cached id w.0.object_cache) e
    where
      go :
          (o : Option (ℕ × List ℕ))
          → o ≡ some (i, old)
          → (elim o as (λ _. Result (List ℕ) × (Fuse × State C)) [
            | some hit ↦ read_hit C host begin rsize hit w
            | none ↦ read_miss C host id begin rsize w
          ]).0
            ≡ ok (take rsize (drop begin old))
      go none p = absurd (grind (arith, p))
      go (some hit) p =
          let same : hit ≡ (i, old) = grind (arith, p) in
          ap (λ (x : ℕ × List ℕ). (read_hit C host begin rsize x w).0) same
          ∙ ap (λ (r : Result (List ℕ) × (Fuse × State C)). r.0)
              (read_hit-found C host begin rsize i old w h)

  -- The contents of an object that are in the cache before a `Write` are what is read from the cache after
  -- it, also when the write was to that object and went well.
  pub read_cached-write :
      (inode id begin rsize offset i : ℕ) (bytes old : List ℕ) (w : Fuse × State C)
      → find_cached id w.0.object_cache ≡ some (i, old)
      → begin + rsize ≤ length old
      → (read_cached C host id begin rsize (write C host inode bytes offset w).1).0
        ≡ ok (take rsize (drop begin old))
  read_cached-write inode id begin rsize offset i bytes old w e h =
      read_cached-hit id begin rsize i old (write C host inode bytes offset w).1
        (ap (find_cached id) ((write-LeavesCache inode bytes offset).left w) ∙ e) h

  load_directory-fails :
      (inode : ℕ) (f : Fuse) (s s' : State C) (x : Error)
      → C.client.base.get_object_handles all_storages ObjectFormat.any (from_fuse inode) s
        ≡ (err x, s')
      → load_directory C host inode (f, s) ≡ (err x, (f, s'))
  unfolding load_directory
  load_directory-fails inode f s s' x e =
      call_err
        (call (C.client.base.get_object_handles all_storages ObjectFormat.any (from_fuse inode)))
        (load_handles C host inode) (f, s) (f, s') x (ap (λ r. (r.0, (f, r.1))) e)

  get_children-fails :
      (inode : ℕ) (f : Fuse) (s s' : State C) (x : Error)
      → inode ≢ root_inode
      → is_storage_inode inode ≡ false
      → find number_key.same inode f.files ≡ none
      → C.client.base.get_object_handles all_storages ObjectFormat.any (from_fuse inode) s
        ≡ (err x, s')
      → get_children C host inode (f, s) ≡ (err x, (set_children_at inode [] f, s'))
  unfolding get_children load_children
  get_children-fails inode f s s' x n st e failed =
      let lf = load_directory-fails inode (set_children_at inode [] f) s s' x failed in
      let other : (inode == root_inode) ≡ false = ne→== inode root_inode n in
      ground (arith, other, st, e, lf)

  lookup-empty :
      (inode : ℕ) (name : List ℕ) (f : Fuse) (s : State C)
      → inode ≢ root_inode
      → find number_key.same inode f.files ≡ some []
      → lookup C host inode name (f, s) ≡ reply host (Reply.error Code.enoent) (f, s)
  unfolding lookup get_children find
  lookup-empty inode name f s n e =
      let other : (inode == root_inode) ≡ false = ne→== inode root_inode n in
      let known : get_children C host inode (f, s) ≡ (ok [], (f, s)) = ground (arith, other, e) in
      call_ok (get_children C host inode)
        (λ kids. elim (find name_key.same name kids) as (λ _. Method C (Unit {0})) [
          | none ↦ reply host (Reply.error Code.enoent)
          | some i ↦ (fill_entry C host i >>= λ filled. reply_filled C host i filled)
        ])
        (f, s) (f, s) [] known

  find-set_children_at :
      (inode : ℕ) (kids : Children) (f : Fuse)
      → find number_key.same inode (set_children_at inode kids f).files ≡ some kids
  unfolding set_children_at
  find-set_children_at inode kids f = find-assign number_key inode kids f.files

  -- Where the device does not list a directory that is not known yet, `GetChildren` throws, and leaves the
  -- directory known as an empty one: a `Lookup` right after it finds no name there, and does not ask the
  -- device.
  pub get_children-emptied :
      (inode : ℕ) (f : Fuse) (s s' : State C) (x : Error)
      → inode ≢ root_inode
      → is_storage_inode inode ≡ false
      → find number_key.same inode f.files ≡ none
      → C.client.base.get_object_handles all_storages ObjectFormat.any (from_fuse inode) s
        ≡ (err x, s')
      → (get_children C host inode (f, s) ≡ (err x, (set_children_at inode [] f, s')))
        × ((name : List ℕ)
            → lookup C host inode name (get_children C host inode (f, s)).1
              ≡ reply host (Reply.error Code.enoent) (set_children_at inode [] f, s'))
  get_children-emptied inode f s s' x n st e failed =
      let thrown = get_children-fails inode f s s' x n st e failed in
      (
        thrown,
        λ name.
            ap (λ (r : Result Children × (Fuse × State C)). lookup C host inode name r.1) thrown
            ∙ lookup-empty inode name (set_children_at inode [] f) s' n
                (find-set_children_at inode [] f),
      )
