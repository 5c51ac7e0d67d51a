-- ===== src/Client/Tests.antt =====
-- The theorems about the command line client at concrete inputs.
use zune_sync.Base.{
  ℕ, ◌+◌, ◌≡◌, ◌≢◌, ◌⊎◌, refl, true, false, if◌then◌else◌, List, [], ◌∷◌, ◌++◌, none, some, Error,
  ok, err, arith,
}
use zune_sync.Base.Dict.{equal_bytes, find}
use zune_sync.Messages.Object.{find_code}
use zune_sync.Session.Objects.{root}
use zune_sync.Session.Transaction.{blank_info}
use zune_sync.Library.State.{Library, null_id, set_album, same_key}
use zune_sync.Library.Start.{blank_library}
use zune_sync.Library.Artists.{get_artist}
use zune_sync.Library.Albums.{get_album, equal_range, find_index}
use zune_sync.Library.Samples.{shelf, plain}
use zune_sync.Client.Samples.{desk}
use zune_sync.Client.Text.{get_filename, get_dirname, begins_with}
use zune_sync.Client.Names.{get_dirname-get_filename}
use zune_sync.Client.Command.{Command, add_all, process_tokens}
use zune_sync.Client.Dispatch.{named, dispatched, process_tokens-add_all}
use zune_sync.Client.State.{ClientSession, Client}
use zune_sync.Client.Paths.{slash, resolve, find_child, resolve_object_child}
use zune_sync.Client.Walk.{pieces, names_of, walk, resolve-walk}
use zune_sync.Client.Upload.{Node, put}
use zune_sync.Client.Losing.{put-loses}
use zune_sync.Client.Media.{Metadata, Files, zune_import}
use zune_sync.Client.Import.{zune_import-known}

-- A client in the directory 4 of the storage 0x10001.
abbrev here : Client
here = record {
  library = none;
  gdi = blank_info;
  cs = 0x10001;
  cs_name = b'd' ∷ [];
  cd = 4;
  running = true;
  show_prompt = true;
  prompt = [];
  battery_supported = true;
  device_friendly_name_supported = true;
}

-- "a//b"
abbrev path : List ℕ
path = b'a' ∷ (b'/' ∷ (b'/' ∷ (b'b' ∷ [])))

get_dirname-get_filename_example :
    (find_code (get_filename path) b'/' ≡ false)
    × ((get_dirname path ++ (b'/' ∷ get_filename path) ≡ path)
        ⊎ ((get_dirname path ≡ []) × (get_filename path ≡ path)))
get_dirname-get_filename_example = get_dirname-get_filename path

-- Commands that count their calls.
abbrev commands : List (Command ℕ)
commands =
    record { name = b'l' ∷ (b's' ∷ []); argument_count = 0; execute = λ args n. (ok tt, n + 1) }
    ∷ (record { name = b'c' ∷ (b'd' ∷ []); argument_count = 1; execute = λ args n. (ok tt, n + 10) }
        ∷ (record {
          name = b'l' ∷ (b's' ∷ []);
          argument_count = 1;
          execute = λ args n. (ok tt, n + 100);
        }
            ∷ []))

process_tokens-add_all_example :
    process_tokens (add_all commands []) ((b'l' ∷ (b's' ∷ [])) ∷ (path ∷ []))
    ≡ dispatched (path ∷ []) (named (b'l' ∷ (b's' ∷ [])) commands)
process_tokens-add_all_example = process_tokens-add_all commands (b'l' ∷ (b's' ∷ [])) (path ∷ [])

resolve-walk_example :
    resolve desk true path (here, [])
    ≡ walk desk true
        (if begins_with path slash then root else 4)
        (names_of (pieces [] path))
        (here, [])
resolve-walk_example = resolve-walk desk true path here []

-- The artist 0 and the album 1 with the track 6, which is number 3 and named "b".
abbrev collection : Library
collection =
    set_album 1
      (record {
        id = 5;
        music_folder_id = 4;
        artist = 0;
        name = b'b' ∷ [];
        year = 0;
        refs_loaded = true;
        refs = 6 ∷ [];
        tracks = ((b'b' ∷ []), (3, 6)) ∷ [];
      })
      (record blank_library {
        artists = ((b'b' ∷ []), 0) ∷ [];
        albums = ((0, (b'b' ∷ [])), 1) ∷ [];
        next = 2;
      })

abbrev tags : Metadata
tags = record {
  title = b'b' ∷ [];
  artist = b'b' ∷ [];
  album = b'b' ∷ [];
  genre = [];
  year = 0;
  track = 3;
  picture = [];
}

abbrev files : Files
files = record {
  contents = λ name. ok (1 ∷ []);
  read_metadata = λ name. some tags;
  format = λ name. 0x3009;
}

abbrev with_collection : Client
with_collection = record here { library = some collection }

artist_known : get_artist (b'b' ∷ []) collection ≡ some 0
unfolding get_artist find equal_bytes
artist_known = refl

album_known : get_album 0 (b'b' ∷ []) collection ≡ some 1
unfolding get_album find same_key equal_bytes
album_known = refl

track_known : find_index 3 (equal_range (b'b' ∷ []) (collection.album_at 1).tracks) ≢ null_id
unfolding find_index equal_range equal_bytes
track_known = omega arith

zune_import-known_example :
    zune_import plain files desk path (with_collection, []) ≡ (ok none, (with_collection, []))
zune_import-known_example =
    zune_import-known plain files desk path (1 ∷ []) tags 0 1 collection with_collection [] refl
      refl refl artist_known album_known refl track_known

-- A session in which the directory 4 has the object 7 with the name "a".
abbrev one_object : ClientSession
one_object = record desk {
  base = record shelf {
    get_object_handles = λ storage format parent s. (ok (record { object_handles = 7 ∷ [] }), s);
  };
}

found_7 : resolve_object_child one_object 4 (b'a' ∷ []) (here, []) ≡ (ok 7, (here, []))
unfolding resolve_object_child find_child equal_bytes
found_7 = refl

put-loses_example :
    put
      (λ name. 0x3000)
      one_object
      4
      path
      (b'a' ∷ [])
      0
      (Node.regular (err Error.stat_failed))
      (here, [])
    ≡ (err Error.stat_failed, (here, []))
put-loses_example =
    put-loses (λ name. 0x3000) one_object 4 7 path (b'a' ∷ []) 0 Error.stat_failed here [] [] []
      found_7 refl
