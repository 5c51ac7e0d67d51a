-- ===== src/Library/Tracks.antt =====
-- The tracks of a playlist, on the library's side and on the device.
use zune_sync.Base.{
  ℕ, ◌==◌, eq→==, ne→==, ◌≡◌, ◌≢◌, ◌||◌, refl, ap, ◌∙◌, Bool, false, Bool-cases, inl, inr, List, [],
  ◌∷◌, ◌++◌, Option, none, some, Error, Result, ok, err, arith,
}
use zune_sync.Messages.Object.{find_code}
use zune_sync.Library.Interface.{SessionInterface}
use zune_sync.Library.State.{Library, null_id, ask}
use zune_sync.Library.Playlists.{set_tracks, write_playlist_refs, add_to_playlist}

-- No object twice.
abbrev pub Distinct : List ℕ → Type 0
Distinct [] = Unit
Distinct (x ∷ xs) = (find_code xs x ≡ false) × Distinct xs

-- The tracks that a playlist may hold: none twice, and none null.
pub record IsPlayable (tracks : List ℕ) : Type 0 where
  pub distinct : Distinct tracks
  pub no_null : find_code tracks null_id ≡ false

find_code-append :
    (xs : List ℕ) (x y : ℕ) → find_code (xs ++ (y ∷ [])) x ≡ (find_code xs x || (y == x))
unfolding find_code
find_code-append [] x y = ground arith
find_code-append (z ∷ xs) x y = ground (arith, find_code-append xs x y)

Distinct-append :
    (xs : List ℕ) (y : ℕ) → Distinct xs → find_code xs y ≡ false → Distinct (xs ++ (y ∷ []))
unfolding find_code
Distinct-append [] y d h = (refl, tt)
Distinct-append (x ∷ xs) y d h =
    (ground (arith, find_code-append xs x y, d.0), Distinct-append xs y d.1 (ground arith))

append-IsPlayable :
    (tracks : List ℕ) (id : ℕ)
    → IsPlayable tracks
    → find_code tracks id ≡ false
    → (id == null_id) ≡ false
    → IsPlayable (tracks ++ (id ∷ []))
append-IsPlayable tracks id p h n = record {
  distinct = Distinct-append tracks id p.distinct h;
  no_null = rw (find_code-append tracks null_id id, p.no_null) n;
}

or_left : (a b : Bool) → (a || b) ≡ false → a ≡ false
or_left a b h = ground arith

or_right : (a b : Bool) → (a || b) ≡ false → b ≡ false
or_right a b h = ground arith

module _ (I : SessionInterface) where
  write_playlist_refs-library :
      (playlist : ℕ) (l : Library) (s : I.State) → (write_playlist_refs I playlist (l, s)).1.0 ≡ l
  unfolding write_playlist_refs
  write_playlist_refs-library playlist l s = refl

  -- `AddToPlaylist` keeps a playlist's tracks without repetition and without the null object, on
  -- every way out, the exceptions of the device included.
  pub add_to_playlist-IsPlayable :
      (playlist : Option ℕ) (track_id q : ℕ) (l : Library) (s : I.State)
      → IsPlayable (l.playlist_at q).tracks
      → IsPlayable ((add_to_playlist I playlist track_id (l, s)).1.0.playlist_at q).tracks
  unfolding add_to_playlist write_playlist_refs set_tracks
  add_to_playlist-IsPlayable none track_id q l s h = h
  add_to_playlist-IsPlayable (some p) track_id q l s h =
      elim (Bool-cases ((track_id == null_id) || find_code (l.playlist_at p).tracks track_id)) [
        | inl e ↦ rw (e) h
        | inr e ↦ elim (Bool-cases (q == p)) [
          | inl same ↦
              let q-p : q ≡ p = ground (arith, same) in
              let new : IsPlayable ((l.playlist_at p).tracks ++ (track_id ∷ [])) =
                append-IsPlayable (l.playlist_at p).tracks track_id (rw (q-p) at h) (or_right _ _ e)
                  (or_left _ _ e) in
              rw (e, same) new
          | inr other ↦ rw (e, other) h
        ]
      ]

  -- A new track: the list grows, and the device is asked to take it.
  pub add_to_playlist-new :
      (p track_id : ℕ) (l : Library) (s : I.State)
      → track_id ≢ null_id
      → find_code (l.playlist_at p).tracks track_id ≡ false
      → add_to_playlist I (some p) track_id (l, s)
        ≡ ask
            (I.set_object_references
              (l.playlist_at p).id
              (record { object_handles = (l.playlist_at p).tracks ++ (track_id ∷ []) }))
            (set_tracks p ((l.playlist_at p).tracks ++ (track_id ∷ [])) l, s)
  unfolding add_to_playlist write_playlist_refs set_tracks
  add_to_playlist-new p track_id l s n h = rw (ne→== track_id null_id n, h, eq→== p p refl)

  -- When the device refuses the references, `AddToPlaylist` throws, but its list has the track; so the
  -- next try returns at once and sends nothing.
  pub add_to_playlist-refused :
      (p track_id : ℕ) (l : Library) (s s' : I.State) (x : Error)
      → track_id ≢ null_id
      → find_code (l.playlist_at p).tracks track_id ≡ false
      → I.set_object_references
          (l.playlist_at p).id
          (record { object_handles = (l.playlist_at p).tracks ++ (track_id ∷ []) })
          s
        ≡ (err x, s')
      → (add_to_playlist I (some p) track_id (l, s)
          ≡ (err x, (set_tracks p ((l.playlist_at p).tracks ++ (track_id ∷ [])) l, s')))
        × (add_to_playlist I
              (some p)
              track_id
              (set_tracks p ((l.playlist_at p).tracks ++ (track_id ∷ [])) l, s')
            ≡ (ok tt, (set_tracks p ((l.playlist_at p).tracks ++ (track_id ∷ [])) l, s')))
  unfolding add_to_playlist set_tracks
  add_to_playlist-refused p track_id l s s' x n h e =
      let tracks = (l.playlist_at p).tracks in
      (
        add_to_playlist-new p track_id l s n h
            ∙ ap
                (λ (r : Result (Unit {0}) × I.State).
                  (r.0, (set_tracks p (tracks ++ (track_id ∷ [])) l, r.1)))
                e,
        rw (
          eq→== p p refl,
          find_code-append tracks track_id track_id,
          eq→== track_id track_id refl,
          ne→== track_id null_id n,
          h,
        ),
      )
