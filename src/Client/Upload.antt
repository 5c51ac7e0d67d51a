-- ===== src/Client/Upload.antt =====
-- `Put` of cli/Session.cpp: files and directories of the host go to the device.
use zune_sync.Base.{
  ℕ, ◌-◌, ◌%◌, ◌^◌, ◌==◌, ◌||◌, not, Bool, true, if◌then◌else◌, List, [], ◌∷◌, ◌++◌, length, take,
  get_elem?, Option, none, some, Error, Result,
}
use zune_sync.Base.Dict.{equal_bytes}
use zune_sync.Base.Stateful.{◌>>=◌, ◌>>◌, return, throw, lift, catch}
use zune_sync.Codes.ObjectFormat
use zune_sync.Codes.ObjectProperty
use zune_sync.Messages.Object.{ObjectInfo}
use zune_sync.Library.Lists.{is_empty}
use zune_sync.Library.State.{null_id}
use zune_sync.Client.Text.{get_filename, is_at}
use zune_sync.Client.State.{ClientSession, Method, call, read_client, upload_storage}
use zune_sync.Client.Paths.{
  dot, dot_dot, resolve, resolve_path, resolve_object_child, make_directory,
}

-- What is at a path of the host: a file that opens or not, a directory that opens or not, something
-- else, or nothing that `stat` finds.
mutual
  pub data Node : Type 0 where
    regular : Result (List ℕ) → Node
    unreadable_directory special missing : Node
    directory : Entries → Node

  pub data Entries : Type 0 where
    no_entries : Entries
    entry : List ℕ → Node → Entries → Entries

-- A new `msg::ObjectInfo` with the fields that `Put` sets.
unfoldable pub upload_info : List ℕ → ℕ → ℕ → ObjectInfo
upload_info filename format size = record {
  storage_id = null_id;
  object_format = format;
  protection_status = 0;
  object_compressed_size = size;
  thumb_format = 0;
  thumb_compressed_size = 0;
  thumb_pix_width = 0;
  thumb_pix_height = 0;
  image_pix_width = 0;
  image_pix_height = 0;
  image_bit_depth = 0;
  parent_object = null_id;
  association_type = 0;
  association_desc = 0;
  sequence_number = 0;
  filename = filename;
  capture_date = [];
  modification_date = [];
  keywords = [];
}

-- The name of a directory: a slash at the end of its path does not count.
unfoldable pub directory_name : List ℕ → List ℕ
directory_name src =
    get_filename
      (if is_at b'/' (get_elem? src (length src - 1)) then take (length src - 1) src else src)

unfoldable pub is_own_or_parent : List ℕ → Bool
is_own_or_parent name = equal_bytes name dot || equal_bytes name dot_dot

-- `format_of` is `ObjectFormatFromFilename`.
module _ (format_of : List ℕ → ℕ) (C : ClientSession) where
  unfoldable pub object_format : ℕ → Method C ℕ
  object_format id = do
    value ← call (C.base.get_object_integer_property id ObjectProperty.object_format)
    return (value % 2 ^ 16)

  -- The `try` that removes the object of this name.
  unfoldable pub replace_object : ℕ → List ℕ → Method C (Unit {0})
  replace_object parent filename =
      catch (resolve_object_child C parent filename >>= λ id. call (C.delete_object id)) (return tt)

  unfoldable pub put_file : ℕ → List ℕ → List ℕ → ℕ → Result (List ℕ) → Method C (Unit {0})
  put_file parent src target format contents = do
    let filename = if is_empty target then get_filename src else target
    replace_object parent filename
    bytes ← lift contents
    c ← read_client (λ c. c)
    call (
        C.send_object_info
          (upload_info filename (if format == ObjectFormat.any then format_of src else format)
            (length bytes))
          (upload_storage c) parent)
    call (C.send_object bytes)

  -- The `try` around the directory of this name: an object that is none is deleted.
  unfoldable pub existing_directory : ℕ → List ℕ → Method C ℕ
  existing_directory parent name = do
    existing ← resolve_object_child C parent name
    format ← object_format existing
    if not (format == ObjectFormat.association)
        then call (C.delete_object existing) >> throw Error.not_a_directory
        else return existing

  unfoldable pub find_or_make_directory : ℕ → List ℕ → Method C ℕ
  find_or_make_directory parent name =
      catch (existing_directory parent name) (make_directory C parent name)

  -- `Put` into the directory `parent`, and its loop over the entries of a directory.
  unfoldable mutual
    pub put : ℕ → List ℕ → List ℕ → ℕ → Node → Method C (Unit {0})
    put parent src target format (regular contents) = put_file parent src target format contents
    put parent src target format unreadable_directory =
        find_or_make_directory parent (directory_name src) >> return tt
    put parent src target format special = return tt
    put parent src target format missing = throw Error.stat_failed
    put parent src target format (directory entries) =
        find_or_make_directory parent (directory_name src) >>= λ id. put_entries id src entries

    pub put_entries : ℕ → List ℕ → Entries → Method C (Unit {0})
    put_entries parent src no_entries = return tt
    put_entries parent src (entry name node entries) =
        let first = put parent (src ++ (b'/' ∷ name)) [] ObjectFormat.any node in
        let rest = put_entries parent src entries in
        if is_own_or_parent name then rest else first >> rest

  -- Whether the target of `put <file> <dst>` is a file name, and the name.
  unfoldable pub target_in : ℕ → List ℕ → Method C (List ℕ)
  target_in parent filename =
      catch
        (resolve_object_child C parent filename >>= λ id.
          (object_format id >>= λ format.
          return (if not (format == ObjectFormat.association) then filename else [])))
        (return filename)

  -- The end of `put <file> <dst>`: the upload into the folder `dst`, which is made.
  unfoldable pub put_into : List ℕ → List ℕ → List ℕ → Node → Method C (Unit {0})
  put_into src dst target node =
      resolve C true dst >>= λ id. put id src target ObjectFormat.any node

  -- The upload under a new name, and into the folder when it throws.
  unfoldable pub put_as : List ℕ → List ℕ → Node → ℕ → List ℕ → Method C (Unit {0})
  put_as src dst node parent target =
      if is_empty target
      then put_into src dst [] node
      else catch (put parent src target ObjectFormat.any node) (put_into src dst target node)

  -- With the directory and the name that `dst` was resolved to, or without.
  unfoldable pub put_resolved : List ℕ → List ℕ → Node → Option (ℕ × List ℕ) → Method C (Unit {0})
  put_resolved src dst node none = put_into src dst [] node
  put_resolved src dst node (some (parent, filename)) =
      target_in parent filename >>= λ target. put_as src dst node parent target

  -- `Put` of a path of the host to a path on the device.
  unfoldable pub put_at : List ℕ → List ℕ → Node → Method C (Unit {0})
  put_at src dst (Node.regular contents) =
      catch (resolve_path C dst >>= λ found. return (some found)) (return none)
      >>= put_resolved src dst (Node.regular contents)
  put_at src dst Node.unreadable_directory = put_into src dst [] Node.unreadable_directory
  put_at src dst Node.special = put_into src dst [] Node.special
  put_at src dst Node.missing = put_into src dst [] Node.missing
  put_at src dst (Node.directory entries) = put_into src dst [] (Node.directory entries)
