-- ===== src/Library/State.antt =====
-- The objects of mtp/metadata/Library.h. A `shared_ptr` is the number of an object, or none; the
-- objects of a kind are a function from numbers, and `next` is the number of the next one.
use zune_sync.Base.{ℕ, ◌+◌, ◌==◌, if◌then◌else◌, ◌&&◌, Bool, List, Result, ok}
use zune_sync.Base.Dict.{equal_bytes}
use zune_sync.Base.Stateful.{Stateful}
use zune_sync.Library.Interface.{SessionInterface}

-- `ObjectId()`: the canary.
abbrev pub null_id : ℕ
null_id = 0xaaaa_aaaa

pub record Artist : Type 0 where
  pub id : ℕ
  pub music_folder_id : ℕ
  pub name : List ℕ

-- `refs` is the hash set, `tracks` the multimap: name, index and object of each track.
pub record Album : Type 0 where
  pub id : ℕ
  pub music_folder_id : ℕ
  pub artist : ℕ
  pub name : List ℕ
  pub year : ℕ
  pub refs_loaded : Bool
  pub refs : List ℕ
  pub tracks : List (List ℕ × (ℕ × ℕ))

pub record Playlist : Type 0 where
  pub id : ℕ
  pub name : List ℕ
  pub tracks : List ℕ

pub record NewTrackInfo : Type 0 where
  pub id : ℕ
  pub name : List ℕ
  pub index : ℕ

pub data Stage : Type 0 where
  initialising querying_artists loading_artists querying_albums loading_albums loaded : Stage

pub record Report : Type 0 where
  pub stage : Stage
  pub progress : ℕ
  pub total : ℕ

-- The members, the calls of the progress reporter, and the constructor's variables that its
-- callbacks change: `progress`, `total` and `albumFolders`.
pub record Library : Type 0 where
  pub storage : ℕ
  pub artists_folder : ℕ
  pub albums_folder : ℕ
  pub music_folder : ℕ
  pub artist_supported : Bool
  pub album_date_authored_supported : Bool
  pub album_cover_supported : Bool
  pub playlists_supported : Bool
  pub playlist_filename_supported : Bool
  pub artists : List (List ℕ × ℕ)
  pub albums : List ((ℕ × List ℕ) × ℕ)
  pub playlists : List (List ℕ × ℕ)
  pub next : ℕ
  pub artist_at : ℕ → Artist
  pub album_at : ℕ → Album
  pub playlist_at : ℕ → Playlist
  pub reports : List Report
  pub progress : ℕ
  pub total : ℕ
  pub album_folders : List (ℕ × List (List ℕ × ℕ))

-- The C and C++ libraries: the order in which a hash set and the equal keys of a hash multimap are
-- run through, and the conversions of dates.
pub record Platform : Type 0 where
  pub set_order : List ℕ → List ℕ
  pub range_order : List (ℕ × ℕ) → List (ℕ × ℕ)
  pub convert_date_time : List ℕ → ℕ
  pub convert_year : ℕ → Result (List ℕ)

abbrev pub update : {A : Type 0} → (ℕ → A) → ℕ → A → ℕ → A
update f p a q = if q == p then a else f q

-- `==` on `AlbumKey`.
unfoldable pub same_key : ℕ × List ℕ → ℕ × List ℕ → Bool
same_key j k = (j.0 == k.0) && equal_bytes j.1 k.1

-- A method of the library, which runs on the session too.
abbrev pub Method {ℓ} : SessionInterface → Type ℓ → Type ℓ
Method I A = Stateful (Library × I.State) A

-- A call of the session.
abbrev pub ask {ℓ} : {S : Type 0} {A : Type ℓ} → (S → Result A × S) → Stateful (Library × S) A
ask call w = let r = call w.1 in (r.0, (w.0, r.1))

abbrev pub read_library {ℓ} : {S : Type 0} {A : Type ℓ} → (Library → A) → Stateful (Library × S) A
read_library f w = (ok (f w.0), w)

abbrev pub modify : {S : Type 0} → (Library → Library) → Stateful (Library × S) (Unit {0})
modify f w = (ok tt, (f w.0, w.1))

-- `make_shared`, with the object's fields as they are set.
unfoldable pub new_artist : {S : Type 0} → Artist → Stateful (Library × S) ℕ
new_artist artist w =
    let l = w.0 in
    (ok l.next, (record l { next = l.next + 1; artist_at = update l.artist_at l.next artist }, w.1))

unfoldable pub new_album : {S : Type 0} → Album → Stateful (Library × S) ℕ
new_album album w =
    let l = w.0 in
    (ok l.next, (record l { next = l.next + 1; album_at = update l.album_at l.next album }, w.1))

unfoldable pub new_playlist : {S : Type 0} → Playlist → Stateful (Library × S) ℕ
new_playlist playlist w =
    let l = w.0 in
    (
      ok l.next,
      (record l { next = l.next + 1; playlist_at = update l.playlist_at l.next playlist }, w.1),
    )

abbrev pub set_album : ℕ → Album → Library → Library
set_album p album l = record l { album_at = update l.album_at p album }

abbrev pub set_playlist : ℕ → Playlist → Library → Library
set_playlist p playlist l = record l { playlist_at = update l.playlist_at p playlist }
