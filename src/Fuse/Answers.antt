-- ===== src/Fuse/Answers.antt =====
-- Every request is answered once, and the object cache stays small.
use zune_sync.Base.{
  ℕ, ◌≡◌, refl, not, Bool, true, false, [], ◌∷◌, ◌++◌, Error, throw_if, Result, ok, err, arith,
}
use mathlib.Core.Path.{subst}
use zune_sync.Codes.ObjectFormat
use zune_sync.Codes.OperationCode
use zune_sync.Messages.Device.{supports_operation}
use zune_sync.Fuse.State.{FuseSession, Fuse, Host, Method, State, Reply, Code, reply}
use zune_sync.Fuse.Access.{end_edit}
use zune_sync.Fuse.Requests.{
  Request, clear_caches, set_capabilities, end_edits, read_capabilities, connect, handle, reply_eio,
  recover, wrap_ex, serve,
}
use zune_sync.Fuse.Steady.{
  IsSteady, bind-IsSteady, lift-IsSteady, read-IsSteady, ask-IsSteady, call-IsSteady,
  change-IsSteady, for_each-IsSteady,
}
use zune_sync.Fuse.Quiet.{populate_storages-IsSteady}
use zune_sync.Fuse.QuietAccess.{end_edit-IsSteady}
use zune_sync.Fuse.Serving.{
  Replied, IsServed, IsCalm, IsAccepting, IsServing, from_calm, bind-IsServing, throw-IsServing,
}
use zune_sync.Fuse.ServingFiles.{
  create_request-IsServing, read-IsServing, write-IsServing, open_file-IsServing, release-IsServing,
  set_attr-IsServing,
}
use zune_sync.Fuse.ServingDirectory.{
  lookup-IsServing, read_dir-IsServing, get_attr-IsServing, unlink-IsServing, rename-IsServing,
  stat_fs-IsServing,
}

-- The exceptions that `WRAP_EX` answers by `EIO`.
abbrev pub is_handled : Error → Bool
is_handled Error.device_not_found = false
is_handled Error.terminated = false
is_handled Error.past_end = false
is_handled Error.past_terminator = false
is_handled Error.invalid_iterator = false
is_handled _ = true

module _ (C : FuseSession) (host : Host (State C)) where
  end_edits-IsSteady : IsSteady C (end_edits C host)
  unfolding end_edits
  end_edits-IsSteady = bind-IsSteady C _ _ (read-IsSteady C (λ f. f.opened_files)) λ opened.
      for_each-IsSteady C (λ (o : ℕ × Unit {0}). end_edit C host o.0) opened
        (λ o. end_edit-IsSteady C host o.0)

  read_capabilities-IsSteady : IsSteady C (read_capabilities C host)
  unfolding read_capabilities set_capabilities
  read_capabilities-IsSteady = bind-IsSteady C _ _ (ask-IsSteady C C.edit_object_supported) λ edit.
      bind-IsSteady C _ _ (ask-IsSteady C C.get_object_property_list_supported) λ list.
        bind-IsSteady C _ _ (ask-IsSteady C C.client.base.device_info) λ info.
          bind-IsSteady C _ _ (ask-IsSteady C host.now) λ time.
            change-IsSteady C
              (set_capabilities edit list (supports_operation info OperationCode.get_partial_object)
                time)
              (λ f. refl) (λ f. refl)

  connect-IsSteady : IsSteady C (connect C host)
  unfolding connect clear_caches
  connect-IsSteady = bind-IsSteady C _ _ end_edits-IsSteady λ _.
      bind-IsSteady C _ _ (change-IsSteady C clear_caches (λ f. refl) (λ f. refl)) λ _.
        bind-IsSteady C _ _ (call-IsSteady C host.find_first) λ found.
          bind-IsSteady C _ _ (lift-IsSteady C (throw_if (not found) Error.no_device)) λ _.
            bind-IsSteady C _ _ (call-IsSteady C host.open_session) λ _.
              bind-IsSteady C _ _ read_capabilities-IsSteady λ _. populate_storages-IsSteady C host

  module _ (accepting : IsAccepting host) where
    handle-IsServing : (request : Request) → IsServing C (handle C host request)
    unfolding handle
    handle-IsServing (Request.lookup parent name) = lookup-IsServing C host accepting parent name
    handle-IsServing (Request.read_dir inode size offset) =
        read_dir-IsServing C host accepting inode size offset
    handle-IsServing (Request.get_attr inode) = get_attr-IsServing C host accepting inode
    handle-IsServing (Request.set_attr inode size) = set_attr-IsServing C host accepting inode size
    handle-IsServing (Request.read inode size offset) =
        read-IsServing C host accepting inode size offset
    handle-IsServing (Request.write inode bytes offset) =
        write-IsServing C host accepting inode bytes offset
    handle-IsServing (Request.make_node parent name) =
        create_request-IsServing C host accepting ObjectFormat.undefined parent name false
    handle-IsServing (Request.create parent name) =
        create_request-IsServing C host accepting ObjectFormat.undefined parent name true
    handle-IsServing (Request.open_file inode) = open_file-IsServing C host accepting inode
    handle-IsServing (Request.rename parent name new_parent new_name) =
        rename-IsServing C host accepting parent name new_parent new_name
    handle-IsServing (Request.release inode) = release-IsServing C host accepting inode
    handle-IsServing (Request.make_dir parent name) =
        create_request-IsServing C host accepting ObjectFormat.association parent name false
    handle-IsServing (Request.remove_dir parent name) =
        unlink-IsServing C host accepting parent name
    handle-IsServing (Request.unlink parent name) = unlink-IsServing C host accepting parent name
    handle-IsServing (Request.stat_fs inode) = stat_fs-IsServing C host accepting inode

    reply_eio-one :
        (w : Fuse × State C)
        → IsServed (reply_eio C host w).0 w.0 (reply_eio C host w).1.0
          × ((reply_eio C host w).0 ≡ ok tt)
    unfolding reply_eio reply
    reply_eio-one w =
        rw (reply_eio, reply, accepting.accepting w.0.replies (Reply.error Code.eio))
          (record { replied = (Reply.error Code.eio, refl); bounded = λ b. b }, refl)

    recover-IsServing :
        (e : Error) (again : Method C (Unit {0}))
        → IsServing C again
        → IsServing C (recover C host e again)
    unfolding recover
    recover-IsServing Error.device_not_found again h =
        bind-IsServing C _ _ connect-IsSteady (λ _. h)
    recover-IsServing Error.terminated again h = throw-IsServing C Error.terminated
    recover-IsServing Error.past_end again h = throw-IsServing C Error.past_end
    recover-IsServing Error.past_terminator again h = throw-IsServing C Error.past_terminator
    recover-IsServing Error.invalid_iterator again h = throw-IsServing C Error.invalid_iterator
    recover-IsServing _ again h = record { served = λ w. (reply_eio-one w).0 }

    wrap_ex-IsServing :
        (method : Method C (Unit {0})) → IsServing C method → IsServing C (wrap_ex C host method)
    unfolding wrap_ex
    wrap_ex-IsServing method h = record { served = λ w. go (method w) w (h.served w) }
      where
        go :
            (r : Result (Unit {0}) × (Fuse × State C)) (w : Fuse × State C)
            → IsServed r.0 w.0 r.1.0
            → IsServed
                (elim r.0 as (λ _. Result (Unit {0}) × (Fuse × State C)) [
                  | ok _ ↦ r
                  | err e ↦ recover C host e method r.1
                ]).0
                w.0
                (elim r.0 as (λ _. Result (Unit {0}) × (Fuse × State C)) [
                  | ok _ ↦ r
                  | err e ↦ recover C host e method r.1
                ]).1.0
        go (ok a, w1) w s = s
        go (err e, w1) w s =
            let calm : IsCalm w.0 w1.0 = record { replies = s.replied; bounded = s.bounded } in
            from_calm (recover C host e method w1).0 w.0 w1.0 (recover C host e method w1).1.0 calm
              ((recover-IsServing e method h).served w1)

    serve-IsServing : (request : Request) → IsServing C (serve C host request)
    unfolding serve
    serve-IsServing request = wrap_ex-IsServing (handle C host request) (handle-IsServing request)

    -- Where libfuse takes every reply: a request that is served has one reply more than before, and one
    -- that ends by an exception has none, whatever the device does.
    pub serve-Replied :
        (request : Request) (w : Fuse × State C)
        → Replied (serve C host request w).0 w.0 (serve C host request w).1.0
    serve-Replied request w = ((serve-IsServing request).served w).replied

    recover-ok :
        (e : Error) (again : Method C (Unit {0})) (w : Fuse × State C)
        → is_handled e ≡ true
        → (recover C host e again w).0 ≡ ok tt
    unfolding recover
    recover-ok Error.device_not_found again w h = absurd (grind (arith, h))
    recover-ok Error.terminated again w h = absurd (grind (arith, h))
    recover-ok Error.past_end again w h = absurd (grind (arith, h))
    recover-ok Error.past_terminator again w h = absurd (grind (arith, h))
    recover-ok Error.invalid_iterator again w h = absurd (grind (arith, h))
    recover-ok _ again w h = (reply_eio-one w).1

    -- Where libfuse takes every reply, a request is answered, with exactly one reply, if its method
    -- returns, or throws an exception other than the loss of the device; that a destructor throws, and
    -- what C++ does not define, are not exceptions of the method.
    pub serve-answers :
        (request : Request) (w : Fuse × State C)
        → ((e : Error) → (handle C host request w).0 ≡ err e → is_handled e ≡ true)
        → ((serve C host request w).0 ≡ ok tt)
          × ((r : Reply) × ((serve C host request w).1.0.replies ≡ w.0.replies ++ (r ∷ [])))
    unfolding serve wrap_ex
    serve-answers request w n =
        let done = go (handle C host request w) n in
        (
          done,
          subst (λ o. Replied o w.0 (serve C host request w).1.0) done (serve-Replied request w),
        )
      where
        go :
            (r : Result (Unit {0}) × (Fuse × State C))
            → ((e : Error) → r.0 ≡ err e → is_handled e ≡ true)
            → (elim r.0 as (λ _. Result (Unit {0}) × (Fuse × State C)) [
              | ok _ ↦ r
              | err e ↦ recover C host e (handle C host request) r.1
            ]).0
              ≡ ok tt
        go (ok u, w1) n = refl
        go (err e, w1) n = recover-ok e (handle C host request) w1 (n e refl)

-- What requests, served one after the other, lead to.
pub data IsReached (C : FuseSession) (host : Host (State C)) (start : Fuse × State C)
    : Fuse × State C → Type 0 where
  begin : IsReached C host start start
  next :
      (request : Request) (w : Fuse × State C)
      → IsReached C host start w
      → IsReached C host start (serve C host request w).1
