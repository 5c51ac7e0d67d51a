-- ===== src/Fuse/Removed.antt =====
-- What `Unlink` and `Rename` do to the names of a directory.
use zune_sync.Base.{
  IsU32, ◌<◌, ◌==◌, not, length, arith, throw_if, Error, ℕ, ◌≡◌, ◌≢◌, sym, ap, ◌∙◌, Bool, false,
  if◌then◌else◌, List, none, some, Result, ok,
}
use zune_sync.Base.Dict.{find}
use zune_sync.Base.Sorted.{
  number_key, name_key, differ, emplace, erase, find-erase, find-erase_ne, find-emplace,
  find-emplace_ne,
}
use zune_sync.Base.Stateful.{lift, ◌>>=◌, ◌>>◌, return, call_ok}
use zune_sync.Codes.ObjectProperty
use zune_sync.Fuse.State.{
  FuseSession, Stat, Fuse, Host, Method, State, Reply, Code, Children, children_at, set_children_at,
  call, change, reply,
}
use zune_sync.Fuse.Inodes.{to_fuse, from_fuse}
use zune_sync.Fuse.Access.{
  is_directory, forget_attr, forget_directory, get_object_attr, release_transaction, unlink_impl,
}
use zune_sync.Fuse.Listing.{get_children}
use zune_sync.Fuse.Numbers.{from_fuse-to_fuse}
use zune_sync.Fuse.Made.{get_object_attr-known}
use zune_sync.Fuse.Directory.{
  remove_child, rename_child, is_occupied, unlink_found, replace_target, rename_found,
}
use zune_sync.Fuse.Entries.{children_at-set_children_at}

children_at-remove_child :
    (parent : ℕ) (name : List ℕ) (f : Fuse)
    → children_at parent (remove_child parent name f) ≡ erase name_key name (children_at parent f)
unfolding remove_child
children_at-remove_child parent name f =
    children_at-set_children_at parent (erase name_key name (children_at parent f)) f

module _ (C : FuseSession) (host : Host (State C)) where
  -- What is left when an entry was unlinked.
  abbrev pub unlinked : ℕ → List ℕ → ℕ → Fuse → Fuse
  unlinked parent name id f = remove_child parent name (forget_directory parent (forget_attr id f))

  children_at-unlinked :
      (parent : ℕ) (name : List ℕ) (id : ℕ) (f : Fuse)
      → children_at parent (unlinked parent name id f) ≡ erase name_key name (children_at parent f)
  unfolding forget_directory forget_attr children_at
  children_at-unlinked parent name id f =
      children_at-remove_child parent name (forget_directory parent (forget_attr id f))

  free_file :
      (id : ℕ) (st : Stat) (f : Fuse) (s : State C)
      → IsU32 id
      → 0 < id
      → find number_key.same id f.object_attrs ≡ some st
      → is_directory st ≡ false
      → is_occupied C host (to_fuse id) (f, s) ≡ (ok false, (f, s))
  unfolding is_occupied
  free_file id st f s v p known file =
      call_ok (get_object_attr C host (to_fuse id))
        (λ (a : Stat).
          if is_directory a
          then (get_children C host (to_fuse id) >>= λ kids. return (not (length kids == 0)))
          else return false)
        (f, s) (f, s) st (get_object_attr-known C host id st f s v p known)
      ∙ ap
          (λ b.
            (if b
                then (get_children C host (to_fuse id) >>= λ kids. return (not (length kids == 0)))
                else return false)
              (f, s))
          file

  unlink_file :
      (id : ℕ) (f : Fuse) (s s' : State C)
      → IsU32 id
      → 0 < id
      → find number_key.same (to_fuse id) f.opened_files ≡ none
      → C.client.delete_object id s ≡ (ok tt, s')
      → unlink_impl C host (to_fuse id) (f, s) ≡ (ok tt, (forget_attr id f, s'))
  unfolding unlink_impl release_transaction
  unlink_file id f s s' v p closed deleted =
      let back = (from_fuse-to_fuse id v p).0 in rw (back) (ground (arith, deleted, closed))

  -- `Unlink` of a file whose attributes are known and that is not being edited, on a device that deletes
  -- its object: the answer is success, the name leads to nothing, the cached listing of the directory and
  -- the attributes are gone, and every other name of the directory leads where it did before.
  pub unlink_found-removes :
      (parent : ℕ) (name : List ℕ) (id : ℕ) (st : Stat) (f : Fuse) (s s' : State C)
      → IsU32 id
      → 0 < id
      → find number_key.same id f.object_attrs ≡ some st
      → is_directory st ≡ false
      → find number_key.same (to_fuse id) f.opened_files ≡ none
      → C.client.delete_object id s ≡ (ok tt, s')
      → let g = unlinked parent name id f in
        (unlink_found C host parent name (to_fuse id) (f, s)
          ≡ reply host (Reply.error Code.success) (g, s'))
        × (find name_key.same name (children_at parent g) ≡ none)
        × (find number_key.same parent g.directory_cache ≡ none)
        × (find number_key.same id g.object_attrs ≡ none)
        × ((other : List ℕ)
            → other ≢ name
            → find name_key.same other (children_at parent g)
              ≡ find name_key.same other (children_at parent f))
  unfolding unlink_found forget_directory forget_attr remove_child set_children_at
  unlink_found-removes parent name id st f s s' v p known file closed deleted =
      let finish =
        change {S = State C} (forget_directory parent)
        >> (change (remove_child parent name) >> reply host (Reply.error Code.success)) in
      let kids = children_at-unlinked parent name id f in
      (
        call_ok (is_occupied C host (to_fuse id))
              (λ (occupied : Bool).
                if occupied
                then reply host (Reply.error Code.enotempty)
                else ◌>>=◌ {S = Fuse × State C} (unlink_impl C host (to_fuse id)) (λ _. finish))
              (f, s) (f, s) false (free_file id st f s v p known file)
            ∙ call_ok (unlink_impl C host (to_fuse id)) (λ _. finish) (f, s) (forget_attr id f, s')
                tt (unlink_file id f s s' v p closed deleted),
        ap (find name_key.same name) kids ∙ find-erase name_key name (children_at parent f),
        find-erase number_key parent f.directory_cache,
        find-erase number_key id f.object_attrs,
        λ other e.
            ap (find name_key.same other) kids
            ∙ find-erase_ne name_key other name (children_at parent f)
                (differ name_key other name e),
      )

  -- What is left when an entry was renamed.
  abbrev pub renamed : ℕ → List ℕ → List ℕ → ℕ → Fuse → Fuse
  renamed parent name new_name inode f =
      forget_directory parent (rename_child parent name new_name inode f)

  children_at-renamed :
      (parent : ℕ) (name new_name : List ℕ) (inode : ℕ) (f : Fuse)
      → children_at parent (renamed parent name new_name inode f)
        ≡ emplace name_key new_name inode (erase name_key name (children_at parent f))
  unfolding forget_directory children_at rename_child
  children_at-renamed parent name new_name inode f =
      children_at-set_children_at parent
        (emplace name_key new_name inode (erase name_key name (children_at parent f))) f

  no_target :
      (parent : ℕ) (new_name : List ℕ) (kids : Children) (w : Fuse × State C)
      → find name_key.same new_name kids ≡ none
      → replace_target C host parent new_name kids w ≡ (ok tt, w)
  unfolding replace_target
  no_target parent new_name kids w e =
      ap
        (λ o.
          (elim o as (λ _. Method C (Unit {0})) [
            | none ↦ return tt
            | some old ↦ (unlink_impl C host old >>= λ _. change (remove_child parent new_name))
          ])
            w)
        e

  -- Where the new name is free and the device renames the object, `Rename` inside a directory answers
  -- success; the new name leads to the inode, the old one to nothing, and every other name where it did.
  pub rename_found-renames :
      (parent : ℕ) (name new_name : List ℕ) (inode : ℕ) (f : Fuse) (s s' : State C)
      → find name_key.same new_name (children_at parent f) ≡ none
      → name ≢ new_name
      → C.client.set_object_string_property
          (from_fuse inode)
          ObjectProperty.object_filename
          new_name
          s
        ≡ (ok tt, s')
      → let g = renamed parent name new_name inode f in
        (rename_found C host parent name new_name (children_at parent f) inode (f, s)
          ≡ reply host (Reply.error Code.success) (g, s'))
        × (find name_key.same new_name (children_at parent g) ≡ some inode)
        × (find name_key.same name (children_at parent g) ≡ none)
        × ((other : List ℕ)
            → other ≢ name
            → other ≢ new_name
            → find name_key.same other (children_at parent g)
              ≡ find name_key.same other (children_at parent f))
  unfolding rename_found
  rename_found-renames parent name new_name inode f s s' free distinct done =
      let set_name =
        C.client.set_object_string_property (from_fuse inode) ObjectProperty.object_filename
          new_name in
      let distinct_names : throw_if (name_key.same name new_name) Error.invalid_iterator ≡ ok tt =
        ap (λ b. throw_if b Error.invalid_iterator) (differ name_key name new_name distinct) in
      let finish =
        change {S = State C} (rename_child parent name new_name inode)
        >> (change (forget_directory parent) >> reply host (Reply.error Code.success)) in
      let kept : replace_target C host parent new_name (children_at parent f) (f, s)
          ≡ (ok tt, (f, s)) =
        no_target parent new_name (children_at parent f) (f, s) free in
      let kids = children_at-renamed parent name new_name inode f in
      let rest = erase name_key name (children_at parent f) in
      let absent : find name_key.same new_name rest ≡ none =
        find-erase_ne name_key new_name name (children_at parent f)
          (differ name_key new_name name (λ e. distinct (sym e)))
        ∙ free in
      (
        call_ok (replace_target C host parent new_name (children_at parent f))
              (λ _.
                call set_name
                >> (lift (throw_if (name_key.same name new_name) Error.invalid_iterator) >> finish))
              (f, s) (f, s) tt kept
            ∙ call_ok (call set_name)
                (λ _.
                  lift (throw_if (name_key.same name new_name) Error.invalid_iterator) >> finish)
                (f, s) (f, s') tt (ap (λ (r : Result (Unit {0}) × State C). (r.0, (f, r.1))) done)
            ∙ ap
                (λ r.
                  ◌>>=◌ {S = Fuse × State C} (lift {S = Fuse × State C} r) (λ _. finish) (f, s'))
                distinct_names,
        ap (find name_key.same new_name) kids ∙ find-emplace name_key new_name inode rest absent,
        ap (find name_key.same name) kids
            ∙ find-emplace_ne name_key name new_name inode rest
                (differ name_key name new_name distinct)
            ∙ find-erase name_key name (children_at parent f),
        λ other e h.
            ap (find name_key.same other) kids
            ∙ find-emplace_ne name_key other new_name inode rest (differ name_key other new_name h)
            ∙ find-erase_ne name_key other name (children_at parent f)
                (differ name_key other name e),
      )
