-- ===== src/Library/Announced.antt =====
-- The property lists of mtp/metadata/Library.cpp announce as many entries as they have.
use zune_sync.Base.{
  ℕ, ◌+◌, ◌==◌, ◌≡◌, refl, if◌then◌else◌, not, Bool, true, false, List, [], ◌∷◌, ◌++◌, length, map,
  u16, ok, arith, IsU32,
}
use zune_sync.Codes.ObjectProperty
use zune_sync.Stream.Fields.{IsMessageText}
use zune_sync.PropertyList.Parser.{parse_skipping, parse}
use zune_sync.PropertyList.Skipping.{
  listed, IsEntry, string_property-IsEntry, u32_property-IsEntry, u16_property-IsEntry,
  AreEntries-then, AreEntries-last, AreEntries-if, AreEntries-last_if, parse-AreEntries,
}
use zune_sync.Library.Lists.{
  is_empty, two_dashes, alb_extension, artist_property, date_property, album_properties,
  track_properties,
}

abbrev pub artist_code : Bool → ℕ
artist_code supported = if supported then ObjectProperty.artist_id else ObjectProperty.artist

artist_property-IsEntry :
    (supported : Bool) (id : ℕ) (name : List ℕ)
    → IsMessageText name
    → IsEntry (artist_property supported id name) (artist_code supported)
unfolding artist_property
artist_property-IsEntry true id name t =
    u32_property-IsEntry ObjectProperty.artist_id id (omega arith)
artist_property-IsEntry false id name t =
    string_property-IsEntry ObjectProperty.artist name (omega arith) t

abbrev pub optional_codes : Bool → Bool → List ℕ
optional_codes track genre =
    (if track then ObjectProperty.track ∷ [] else [])
    ++ ((if genre then ObjectProperty.genre ∷ [] else []) ++ (ObjectProperty.object_filename ∷ []))

-- The properties of a track, in the order in which they are sent.
abbrev pub track_codes : Bool → ℕ → List ℕ → List ℕ
track_codes artist_supported track_index genre =
    artist_code artist_supported
    ∷ (ObjectProperty.name ∷ optional_codes (not (track_index == 0)) (not (is_empty genre)))

track_count :
    (a g i : Bool)
    → 3 + (if g then 1 else 0) + (if i then 1 else 0)
      ≡ length (artist_code a ∷ (ObjectProperty.name ∷ optional_codes i g))
track_count a true true = refl
track_count a true false = refl
track_count a false true = refl
track_count a false false = refl

track_count-IsU32 : (g i : Bool) → IsU32 (3 + (if g then 1 else 0) + (if i then 1 else 0))
track_count-IsU32 true true = omega arith
track_count-IsU32 true false = omega arith
track_count-IsU32 false true = omega arith
track_count-IsU32 false false = omega arith

-- The list that `CreateTrack` sends for texts that a message can hold announces as many entries as it
-- has: the parser that passes over values gets the artist, the name, the track number unless it is 0,
-- the genre unless it is empty, and the file name, in this order.
pub parse-track_properties :
    (artist_supported : Bool) (artist_id : ℕ) (artist_name name : List ℕ) (track_index : ℕ)
    (genre filename : List ℕ)
    → IsMessageText artist_name
    → IsMessageText name
    → IsMessageText genre
    → IsMessageText filename
    → (bytes : List ℕ) × (track_properties artist_supported artist_id artist_name name track_index
          genre filename []
        ≡ ok bytes)
      × (parse parse_skipping bytes
          ≡ ok (map listed (track_codes artist_supported track_index genre)))
unfolding track_properties
parse-track_properties a id artist_name name track_index genre filename ta tn tg tf =
    parse-AreEntries _ _ (track_codes a track_index genre)
      (track_count-IsU32 (not (is_empty genre)) (not (track_index == 0)))
      (track_count a (not (is_empty genre)) (not (track_index == 0)))
      (AreEntries-then _ _ _
        (ObjectProperty.name ∷ optional_codes (not (track_index == 0)) (not (is_empty genre)))
        (artist_property-IsEntry a id artist_name ta)
        (AreEntries-then _ _ _ _ (string_property-IsEntry ObjectProperty.name name (omega arith) tn)
          (AreEntries-if (not (track_index == 0)) _ _ _ _
            (u16_property-IsEntry ObjectProperty.track (u16 track_index) (omega arith))
            (AreEntries-if (not (is_empty genre)) _ _ _ (ObjectProperty.object_filename ∷ [])
              (string_property-IsEntry ObjectProperty.genre genre (omega arith) tg)
              (AreEntries-last _ _ (
                string_property-IsEntry ObjectProperty.object_filename filename (omega arith)
                  tf))))))

-- The properties of an album, in the order in which they are sent.
abbrev pub album_codes : Bool → Bool → List ℕ
album_codes artist_supported send_year =
    artist_code artist_supported
    ∷ (ObjectProperty.name
        ∷ (ObjectProperty.object_filename
            ∷ (if send_year then ObjectProperty.date_authored ∷ [] else [])))

album_count : (a y : Bool) → 3 + (if y then 1 else 0) ≡ length (album_codes a y)
album_count a true = refl
album_count a false = refl

album_count-IsU32 : (y : Bool) → IsU32 (3 + (if y then 1 else 0))
album_count-IsU32 true = omega arith
album_count-IsU32 false = omega arith

-- The list that `CreateAlbum` sends for texts that a message can hold, with a year that converts,
-- announces as many entries as it has: the artist, the name, the file name, and the date where it is
-- sent.
parse-album_properties :
    (artist_supported : Bool) (artist_id : ℕ) (artist_name name : List ℕ) (send_year : Bool)
    (date : List ℕ)
    → IsMessageText artist_name
    → IsMessageText name
    → IsMessageText (artist_name ++ (two_dashes ++ (name ++ alb_extension)))
    → IsMessageText date
    → (bytes : List ℕ) × (album_properties artist_supported artist_id artist_name name send_year
          (ok date)
          []
        ≡ ok bytes)
      × (parse parse_skipping bytes ≡ ok (map listed (album_codes artist_supported send_year)))
unfolding album_properties date_property
parse-album_properties a id artist_name name send_year date ta tn tf td =
    let last : List ℕ =
      ObjectProperty.object_filename
      ∷ (if send_year then ObjectProperty.date_authored ∷ [] else []) in
    parse-AreEntries _ _ (album_codes a send_year) (album_count-IsU32 send_year)
      (album_count a send_year)
      (AreEntries-then _ _ _ (ObjectProperty.name ∷ last)
        (artist_property-IsEntry a id artist_name ta)
        (AreEntries-then _ _ _ last
          (string_property-IsEntry ObjectProperty.name name (omega arith) tn)
          (AreEntries-last_if send_year _ (date_property (ok date)) _ _
            (string_property-IsEntry ObjectProperty.object_filename _ (omega arith) tf)
            (string_property-IsEntry ObjectProperty.date_authored date (omega arith) td))))
