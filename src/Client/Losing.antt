-- ===== src/Client/Losing.antt =====
-- `Put` removes the object on the device before it opens the file.
use zune_sync.Base.{ℕ, ◌≡◌, if◌then◌else◌, List, Error, ok, err, arith}
use zune_sync.Library.Lists.{is_empty}
use zune_sync.Client.Text.{get_filename}
use zune_sync.Client.State.{ClientSession, Client}
use zune_sync.Client.Paths.{resolve_object_child}
use zune_sync.Client.Upload.{Node, replace_object, put_file, put}

module _ (format_of : List ℕ → ℕ) (C : ClientSession) where
  -- `Put` of a file that cannot be opened, onto an object of the target name that is there and that the
  -- device deletes, throws the file's exception; the object is gone, and nothing was sent in its place.
  pub put-loses :
      (parent id : ℕ) (src target : List ℕ) (format : ℕ) (x : Error) (c : Client)
      (s found gone : C.base.State)
      → resolve_object_child C parent (if is_empty target then get_filename src else target) (c, s)
        ≡ (ok id, (c, found))
      → C.delete_object id found ≡ (ok tt, gone)
      → put format_of C parent src target format (Node.regular (err x)) (c, s) ≡ (err x, (c, gone))
  unfolding put put_file replace_object
  put-loses parent id src target format x c s found gone there deleted =
      ground (arith, there, deleted)
