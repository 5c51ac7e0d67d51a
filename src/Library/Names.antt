-- ===== src/Library/Names.antt =====
-- What was created is found again by its name.
use zune_sync.Base.{
  ℕ, if◌then◌else◌, ◌≡◌, sym, ap, ◌∙◌, not, true, Bool-cases, Option-cases, inl, inr, List, [],
  none, some, Error, Result, ok, err, arith,
}
use zune_sync.Base.Dict.{equal_bytes, equal_bytes_refl, find, insert, find-insert_new}
use zune_sync.Base.Stateful.{◌>>=◌, throw, lift, bind_inversion, every_way}
use zune_sync.Codes.ObjectFormat
use zune_sync.Session.Objects.{root}
use zune_sync.Library.Interface.{SessionInterface}
use zune_sync.Library.State.{Library, Method, ask, new_playlist}
use zune_sync.Library.Lists.{playlist_properties}
use zune_sync.Library.Playlists.{
  get_playlist, insert_playlist, register_playlist, create_new_playlist, return_or_create,
  create_playlist,
}

module _ (I : SessionInterface) where
  -- The library after a method is the one before it, however the method ends.
  abbrev Leaves {ℓ} : {A : Type ℓ} → Method I A → Type 0
  Leaves m = (w : Library × I.State) → (m w).1.0 ≡ w.0

  Leaves-bind {ℓ κ} :
      {A : Type ℓ} {B : Type κ} (m : Method I A) (f : A → Method I B)
      → Leaves m
      → ((a : A) → Leaves (f a))
      → Leaves (m >>= f)
  Leaves-bind m f hm hf w =
      every_way (λ (u v : Library × I.State). v.0 ≡ u.0) (λ s t u p q. q ∙ p) m f hm hf w

  -- A new playlist is registered under its name.
  register_playlist-found :
      (name : List ℕ) (id playlist : ℕ) (l l' : Library) (s s' : I.State)
      → find equal_bytes name l.playlists ≡ none
      → register_playlist I name id (l, s) ≡ (ok playlist, (l', s'))
      → (get_playlist name l' ≡ some playlist) × (l'.playlists_supported ≡ l.playlists_supported)
  unfolding register_playlist new_playlist insert_playlist get_playlist
  register_playlist-found name id playlist l l' s s' h e =
      let number : ok l.next ≡ ok playlist = ap (λ r. r.0) e in
      let after : insert equal_bytes name l.next l.playlists ≡ l'.playlists =
        ap (λ r. r.1.0.playlists) e in
      (
        rw (← after) (
            find-insert_new equal_bytes name l.next l.playlists (equal_bytes_refl name) h
            ∙ ground (arith, number)),
        sym (ap (λ r. r.1.0.playlists_supported) e),
      )

  create_new_playlist-found :
      (name : List ℕ) (playlist : ℕ) (l l' : Library) (s s' : I.State)
      → find equal_bytes name l.playlists ≡ none
      → create_new_playlist I name (l, s) ≡ (ok playlist, (l', s'))
      → (get_playlist name l' ≡ some playlist) × (l'.playlists_supported ≡ l.playlists_supported)
  unfolding create_new_playlist
  create_new_playlist-found name playlist l l' s s' h e =
      let send : List ℕ → Method I ℕ = λ prop_list.
        ask (I.send_object_prop_list l.storage root ObjectFormat.abstract_av_playlist 0 prop_list)
        >>= λ response. register_playlist I name response.object_id in
      let (listed, e1) =
        bind_inversion (lift (playlist_properties l.playlist_filename_supported name [])) send
          (l, s) (l', s') playlist e in
      let (sent, e2) =
        bind_inversion
          (ask (
            I.send_object_prop_list l.storage root ObjectFormat.abstract_av_playlist 0
              listed.value))
          (λ response. register_playlist I name response.object_id) listed.state (l', s') playlist
          e1 in
      let same : l ≡ sent.state.0 = ap (λ r. r.1.0) listed.path ∙ ap (λ r. r.1.0) sent.path in
      let here : find equal_bytes name sent.state.0.playlists ≡ none =
        ap (λ (m : Library). find equal_bytes name m.playlists) (sym same) ∙ h in
      let found =
        register_playlist-found name sent.value.object_id playlist sent.state.0 l' sent.state.1 s'
          here e2 in
      (found.0, found.1 ∙ ap (λ (m : Library). m.playlists_supported) (sym same))

  create_playlist-supported :
      (name : List ℕ) (l : Library) (s : I.State)
      → l.playlists_supported ≡ true
      → create_playlist I name (l, s) ≡ return_or_create I name (get_playlist name l) (l, s)
  unfolding create_playlist
  create_playlist-supported name l s h =
      ap
        (λ b.
          if◌then◌else◌ {A = Method I ℕ} (not b) (throw Error.no_playlists)
            (return_or_create I name (get_playlist name l)) (l, s))
        h

  create_playlist-known :
      (name : List ℕ) (playlist : ℕ) (l : Library) (s : I.State)
      → l.playlists_supported ≡ true
      → get_playlist name l ≡ some playlist
      → create_playlist I name (l, s) ≡ (ok playlist, (l, s))
  unfolding return_or_create
  create_playlist-known name playlist l s h found =
      create_playlist-supported name l s h ∙ ap (λ o. return_or_create I name o (l, s)) found

  supported_when_created :
      (name : List ℕ) (playlist : ℕ) (l : Library) (s : I.State) (w : Library × I.State)
      → create_playlist I name (l, s) ≡ (ok playlist, w)
      → l.playlists_supported ≡ true
  unfolding create_playlist
  supported_when_created name playlist l s w e = elim (Bool-cases l.playlists_supported) [
    | inl h ↦ h
    | inr h ↦
        let no : (err Error.no_playlists, (l, s)) ≡ (ok playlist, w) =
          ap
            (λ b.
              if◌then◌else◌ {A = Method I ℕ} (not b) (throw Error.no_playlists)
                (return_or_create I name (get_playlist name l)) (l, s))
            (sym h)
          ∙ e in
        absurd (grind (arith, no))
  ]

  -- What `CreatePlaylist` has returned, a second call with the same name returns at once: the library
  -- and the device are left as they are.
  pub create_playlist-again :
      (name : List ℕ) (playlist : ℕ) (l l' : Library) (s s' : I.State)
      → create_playlist I name (l, s) ≡ (ok playlist, (l', s'))
      → create_playlist I name (l', s') ≡ (ok playlist, (l', s'))
  unfolding return_or_create get_playlist
  create_playlist-again name playlist l l' s s' e =
      let h = supported_when_created name playlist l s (l', s') e in
      let ran = sym (create_playlist-supported name l s h) ∙ e in
      elim (Option-cases (get_playlist name l)) [
        | inl new ↦
            let found =
              create_new_playlist-found name playlist l l' s s' new
                (ap (λ o. return_or_create I name o (l, s)) (sym new) ∙ ran) in
            create_playlist-known name playlist l' s' (found.1 ∙ h) found.0
        | inr (q, known) ↦
            let same : (ok q, (l, s)) ≡ (ok playlist, (l', s')) =
              ap (λ o. return_or_create I name o (l, s)) (sym known) ∙ ran in
            let again = create_playlist-known name q l s h known in
            ap (λ (r : Result ℕ × (Library × I.State)). create_playlist I name r.1) (sym same)
            ∙ again
            ∙ same
      ]
