-- ===== src/Library/Loading.antt =====
-- `LoadRefs` reads the tracks of an album once.
use zune_sync.Base.{
  ℕ, eq→==, if◌then◌else◌, ◌≡◌, refl, sym, ap, ◌∙◌, true, false, Bool-cases, inl, inr, some, Result,
  ok,
}
use zune_sync.Base.Stateful.{◌>>=◌, return, bind_inversion}
use zune_sync.Library.Interface.{SessionInterface}
use zune_sync.Library.State.{Library, Platform, Method, ask, modify}
use zune_sync.Library.Albums.{insert_refs, set_refs_loaded, load_tracks, load_refs_now, load_refs}

set_refs_loaded-true :
    (album : ℕ) (l : Library) → ((set_refs_loaded album l).album_at album).refs_loaded ≡ true
unfolding set_refs_loaded
set_refs_loaded-true album l = rw (eq→== album album refl) refl

module _ (platform : Platform) (I : SessionInterface) where
  load_refs_now-loaded :
      (album : ℕ) (l : Library) (s : I.State) (w : Library × I.State)
      → load_refs_now platform I album (l, s) ≡ (ok tt, w)
      → (w.0.album_at album).refs_loaded ≡ true
  unfolding load_refs_now
  load_refs_now-loaded album l s w e =
      let id = (l.album_at album).id in
      let (refs, e1) =
        bind_inversion (ask (I.get_object_references id))
          (λ refs. modify (insert_refs album refs.object_handles) >>= λ _.
            (load_tracks platform I album refs.object_handles >>= λ _.
            modify (set_refs_loaded album)))
          (l, s) w tt e in
      let (tracks, e2) =
        bind_inversion (load_tracks platform I album refs.value.object_handles)
          (λ _. modify (set_refs_loaded album))
          (insert_refs album refs.value.object_handles refs.state.0, refs.state.1) w tt e1 in
      ap (λ (r : Result (Unit {0}) × (Library × I.State)). (r.1.0.album_at album).refs_loaded)
        (sym e2)
      ∙ set_refs_loaded-true album tracks.state.0

  pub load_refs-loaded :
      (album : ℕ) (w : Library × I.State)
      → (w.0.album_at album).refs_loaded ≡ true
      → load_refs platform I (some album) w ≡ (ok tt, w)
  unfolding load_refs
  load_refs-loaded album w h =
      ap
        (λ b.
          if◌then◌else◌ {A = Method I (Unit {0})} b (return tt) (load_refs_now platform I album) w)
        h

  load_refs-new :
      (album : ℕ) (w : Library × I.State)
      → (w.0.album_at album).refs_loaded ≡ false
      → load_refs platform I (some album) w ≡ load_refs_now platform I album w
  unfolding load_refs
  load_refs-new album w h =
      ap
        (λ b.
          if◌then◌else◌ {A = Method I (Unit {0})} b (return tt) (load_refs_now platform I album) w)
        h

  -- Once `LoadRefs` has returned for an album, a second call returns at once: it asks the device for
  -- nothing and inserts no track again.
  load_refs-again :
      (album : ℕ) (l l' : Library) (s s' : I.State)
      → load_refs platform I (some album) (l, s) ≡ (ok tt, (l', s'))
      → load_refs platform I (some album) (l', s') ≡ (ok tt, (l', s'))
  load_refs-again album l l' s s' e = elim (Bool-cases (l.album_at album).refs_loaded) [
    | inl h ↦
        let same = sym (load_refs-loaded album (l, s) h) ∙ e in
        load_refs-loaded album (l', s')
          (ap (λ (r : Result (Unit {0}) × (Library × I.State)). (r.1.0.album_at album).refs_loaded)
              (sym same)
            ∙ h)
    | inr h ↦
        load_refs-loaded album (l', s')
          (load_refs_now-loaded album l s (l', s') (sym (load_refs-new album (l, s) h) ∙ e))
  ]
