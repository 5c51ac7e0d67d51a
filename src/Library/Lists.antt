-- ===== src/Library/Lists.antt =====
-- The property lists of mtp/metadata/Library.cpp.
use zune_sync.Base.{
  ℕ, ◌+◌, ◌==◌, if◌then◌else◌, Bool, not, List, [], ◌∷◌, ◌++◌, length, u16, Result, ok, err,
}
use zune_sync.Codes.ObjectProperty
use zune_sync.Stream.Output.{Writer, ◌>>◌, nothing, write32}
use zune_sync.PropertyList.Entries.{string_property, u32_property, u16_property}

abbrev pub is_empty : List ℕ → Bool
is_empty value = length value == 0

-- "--", ".alb" and ".pl"
abbrev pub two_dashes : List ℕ
two_dashes = b'-' ∷ b'-' ∷ []

abbrev pub alb_extension : List ℕ
alb_extension = b'.' ∷ b'a' ∷ b'l' ∷ b'b' ∷ []

abbrev pub pl_extension : List ℕ
pl_extension = b'.' ∷ b'p' ∷ b'l' ∷ []

-- The artist by its object, or by name on devices without such objects.
unfoldable pub artist_property : Bool → ℕ → List ℕ → Writer
artist_property artist_supported artist_id artist_name =
    if artist_supported
    then u32_property ObjectProperty.artist_id artist_id
    else string_property ObjectProperty.artist artist_name

-- The date, whose conversion may throw.
unfoldable pub date_property : Result (List ℕ) → Writer
date_property (ok date) out = string_property ObjectProperty.date_authored date out
date_property (err e) out = err e

-- The list of `CreateAlbum`; `send_year` is whether the year goes with it.
unfoldable pub album_properties : Bool → ℕ → List ℕ → List ℕ → Bool → Result (List ℕ) → Writer
album_properties artist_supported artist_id artist_name name send_year date = do
  write32 (3 + (if send_year then 1 else 0))
  artist_property artist_supported artist_id artist_name
  string_property ObjectProperty.name name
  string_property ObjectProperty.object_filename
      (artist_name ++ (two_dashes ++ (name ++ alb_extension)))
  if send_year then date_property date else nothing

-- The list of `CreateTrack`.
unfoldable pub track_properties : Bool → ℕ → List ℕ → List ℕ → ℕ → List ℕ → List ℕ → Writer
track_properties artist_supported artist_id artist_name name track_index genre filename = do
  write32 (3 + (if not (is_empty genre) then 1 else 0) + (if not (track_index == 0) then 1 else 0))
  artist_property artist_supported artist_id artist_name
  string_property ObjectProperty.name name
  if not (track_index == 0) then u16_property ObjectProperty.track (u16 track_index) else nothing
  if not (is_empty genre) then string_property ObjectProperty.genre genre else nothing
  string_property ObjectProperty.object_filename filename

-- The list of `CreatePlaylist`.
unfoldable pub playlist_properties : Bool → List ℕ → Writer
playlist_properties filename_supported name = do
  write32 (if filename_supported then 2 else 1)
  string_property ObjectProperty.name name
  if filename_supported
      then string_property ObjectProperty.object_filename (name ++ pl_extension)
      else nothing
