-- ===== src/Fuse/ServingFiles.antt =====
-- `Read`, `Write`, `Open`, `Release`, `SetAttr` and the making of objects answer once.
use zune_sync.Base.{
  ℕ, ◌+◌, ◌==◌, refl, Bool, if◌then◌else◌, List, length, Option, none, some, Error, u16,
}
use zune_sync.Base.Stateful.{return}
use zune_sync.Codes.ObjectFormat
use zune_sync.Codes.ObjectProperty
use zune_sync.Fuse.State.{FuseSession, Host, Stat, State, Reply, Code, set_size, set_attr_at}
use zune_sync.Fuse.Inodes.{root_inode, from_fuse}
use zune_sync.Fuse.Listing.{set_object_size}
use zune_sync.Fuse.Access.{reply_entry, create_request}
use zune_sync.Fuse.Files.{
  read_size, grows, read, truncate, write, open_format, open_file, release, resize, set_attr,
}
use zune_sync.Fuse.Steady.{
  IsSteady, bind-IsSteady, return-IsSteady, call-IsSteady, change-IsSteady, catch-IsSteady,
  if-IsSteady,
}
use zune_sync.Fuse.QuietAccess.{
  get_object_attr-IsSteady, fill_entry-IsSteady, release_transaction-IsSteady,
  get_transaction-IsSteady, create_object-IsSteady,
}
use zune_sync.Fuse.CacheSize.{read_bytes-IsCalming}
use zune_sync.Fuse.Serving.{
  IsAccepting, IsServing, calm-IsServing, bind-IsServing, throw-IsServing, if-IsServing,
  option-IsServing, reply-IsServing,
}

module _ (C : FuseSession) (host : Host (State C)) where
  pub truncate-IsSteady : (inode size : ℕ) → IsSteady C (truncate C host inode size)
  unfolding truncate set_object_size set_attr_at
  truncate-IsSteady inode size =
      bind-IsSteady C _ _ (call-IsSteady C (C.truncate_object (from_fuse inode) size))
        λ _. change-IsSteady C (set_object_size (from_fuse inode) size) (λ f. refl) (λ f. refl)

  open_format-IsSteady : (inode : ℕ) → IsSteady C (open_format C host inode)
  unfolding open_format
  open_format-IsSteady inode =
      catch-IsSteady C _ _
        (bind-IsSteady C _ _
          (call-IsSteady C (
            C.client.base.get_object_integer_property (from_fuse inode)
              ObjectProperty.object_format))
          λ value. return-IsSteady C (some (u16 value)))
        (return-IsSteady C none)

  resize-IsSteady : (inode size : ℕ) → IsSteady C (resize C host inode size)
  unfolding resize
  resize-IsSteady inode size =
      bind-IsSteady C _ _ (get_transaction-IsSteady C host inode) λ _. truncate-IsSteady inode size

  module _ (accepting : IsAccepting host) where
    pub reply_entry-IsServing : (st : Stat) (r : Reply) → IsServing C (reply_entry C host st r)
    unfolding reply_entry
    reply_entry-IsServing st r =
        if-IsServing C (st.mode == 0) _ _ (throw-IsServing C Error.uninitialised_attr)
          (reply-IsServing C host r accepting)

    pub create_request-IsServing :
        (format parent : ℕ) (name : List ℕ) (created : Bool)
        → IsServing C (create_request C host format parent name created)
    unfolding create_request
    create_request-IsServing format parent name created =
        if-IsServing C (parent == root_inode) _ _
          (reply-IsServing C host (Reply.error Code.eperm) accepting)
          (bind-IsServing C _ _ (create_object-IsSteady C host parent name format) λ inode.
            bind-IsServing C _ _ (get_object_attr-IsSteady C host inode) λ st.
              reply_entry-IsServing st
                (if created then Reply.create inode st else Reply.entry inode st))

    pub read-IsServing : (inode size begin : ℕ) → IsServing C (read C host inode size begin)
    unfolding read
    read-IsServing inode size begin =
        bind-IsServing C _ _ (release_transaction-IsSteady C host inode) λ _.
          bind-IsServing C _ _ (get_object_attr-IsSteady C host inode) λ st.
            calm-IsServing C _ _
              (read_bytes-IsCalming C host (from_fuse inode) begin (read_size st size begin))
              λ bytes. reply-IsServing C host (Reply.buf bytes) accepting

    pub write-IsServing :
        (inode : ℕ) (bytes : List ℕ) (offset : ℕ) → IsServing C (write C host inode bytes offset)
    unfolding write
    write-IsServing inode bytes offset =
        bind-IsServing C _ _ (get_object_attr-IsSteady C host inode) λ st.
          bind-IsServing C _ _ (get_transaction-IsSteady C host inode) λ _.
            bind-IsServing C _ _
              (if-IsSteady C (grows (offset + length bytes) st)
                (truncate C host inode (offset + length bytes)) (return tt)
                (truncate-IsSteady inode (offset + length bytes)) (return-IsSteady C tt))
              λ _.
                bind-IsServing C _ _
                  (call-IsSteady C (C.send_partial_object (from_fuse inode) offset bytes))
                  λ _. reply-IsServing C host (Reply.written (length bytes)) accepting

    pub open_file-IsServing : (inode : ℕ) → IsServing C (open_file C host inode)
    unfolding open_file
    open_file-IsServing inode = bind-IsServing C _ _ (open_format-IsSteady inode) λ format.
        reply-IsServing C host
          (elim format as (λ _. Reply) [
            | none ↦ Reply.error Code.enoent
            | some f ↦
                if f == ObjectFormat.association then Reply.error Code.eisdir else Reply.opened
          ])
          accepting

    pub release-IsServing : (inode : ℕ) → IsServing C (release C host inode)
    unfolding release
    release-IsServing inode =
        bind-IsServing C _ _ (release_transaction-IsSteady C host inode)
          λ _. reply-IsServing C host (Reply.error Code.success) accepting

    pub set_attr-IsServing :
        (inode : ℕ) (size : Option ℕ) → IsServing C (set_attr C host inode size)
    unfolding set_attr
    set_attr-IsServing inode size =
        bind-IsServing C _ _ (fill_entry-IsSteady C host inode) λ filled.
          if-IsServing C filled.0 _ _
            (option-IsServing C size _ _ (reply_entry-IsServing filled.1 (Reply.attr filled.1)) λ n.
              bind-IsServing C _ _ (resize-IsSteady inode n)
                λ _. reply_entry-IsServing filled.1 (Reply.attr (set_size n filled.1)))
            (reply-IsServing C host (Reply.error Code.enoent) accepting)
