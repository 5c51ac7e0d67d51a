-- ===== src/Client/Walk.antt =====
-- `Resolve` walks down the names of a path.
use zune_sync.Base.{
  ℕ, zero, suc, ◌+◌, ◌-◌, ◌==◌, ltb, le→ltb, ◌≡◌, ◌≤◌, ◌<◌, inl, inr, refl, sym, ap, ◌∙◌, ◌||◌,
  Bool, true, false, Bool-cases, if◌then◌else◌, List, [], ◌∷◌, ◌++◌, append_assoc, length, take,
  drop, take-all, drop-all, length-drop, append-nil, ◌⊎◌, Option, none, some, arith,
}
use zune_sync.Base.Dict.{equal_bytes}
use zune_sync.Base.Stateful.{◌>>=◌, return}
use zune_sync.Session.Objects.{root}
use zune_sync.Library.Lists.{is_empty}
use zune_sync.Client.Text.{find_char, find_from, substr, begins_with}
use zune_sync.Client.State.{ClientSession, Client, Method}
use zune_sync.Client.Paths.{dot, slash, next_slash, resolve_entity, resolve_loop, resolve}

-- The texts between the slashes, the first of which `front` begins.
unfoldable pub pieces : List ℕ → List ℕ → List (List ℕ)
pieces front [] = front ∷ []
pieces front (c ∷ cs) = if c == b'/' then front ∷ pieces [] cs else pieces (front ++ (c ∷ [])) cs

-- The names among them: neither empty nor a dot.
unfoldable pub names_of : List (List ℕ) → List (List ℕ)
names_of [] = []
names_of (piece ∷ rest) =
    let names = names_of rest in
    if is_empty piece || equal_bytes piece dot then names else piece ∷ names

-- How the first slash of `s` cuts it.
abbrev Cut : List ℕ → List ℕ → Option ℕ → Type 0
Cut front s none = pieces front s ≡ (front ++ s) ∷ []
Cut front s (some i) =
    (pieces front s ≡ (front ++ take i s) ∷ pieces [] (drop (suc i) s)) × (i < length s)

pieces_slash :
    (front cs : List ℕ) (c : ℕ) → (c == b'/') ≡ true → pieces front (c ∷ cs) ≡ front ∷ pieces [] cs
unfolding pieces
pieces_slash front cs c e =
    ap (λ b. if b then front ∷ pieces [] cs else pieces (front ++ (c ∷ [])) cs) e

pieces_other :
    (front cs : List ℕ) (c : ℕ)
    → (c == b'/') ≡ false
    → pieces front (c ∷ cs) ≡ pieces (front ++ (c ∷ [])) cs
unfolding pieces
pieces_other front cs c e =
    ap (λ b. if b then front ∷ pieces [] cs else pieces (front ++ (c ∷ [])) cs) e

find_char-Cut : (front s : List ℕ) → Cut front s (find_char b'/' s)
unfolding find_char pieces
find_char-Cut front [] = rw (append-nil) (refl {a = front ∷ []})
find_char-Cut front (c ∷ cs) = step (find_char b'/' cs) (find_char-Cut (front ++ (c ∷ [])) cs)
  where
    step :
        (o : Option ℕ)
        → Cut (front ++ (c ∷ [])) cs o
        → Cut front
            (c ∷ cs)
            (if c == b'/' then some 0 else elim o [ none ↦ none | some i ↦ some (suc i) ])
    step none h = elim (Bool-cases (c == b'/')) [
      | inl e ↦ rw (e, append-nil) (pieces_slash front cs c e, omega arith)
      | inr e ↦
          rw e (pieces_other front cs c e ∙ h ∙ ap (λ t. t ∷ []) (append_assoc front (c ∷ []) cs))
    ]
    step (some i) h = elim (Bool-cases (c == b'/')) [
      | inl e ↦ rw (e, append-nil) (pieces_slash front cs c e, omega arith)
      | inr e ↦ rw e (
        pieces_other front cs c e
            ∙ h.0
            ∙ ap (λ t. t ∷ pieces [] (drop (suc i) cs)) (append_assoc front (c ∷ []) (take i cs)),
        omega (arith, h.1),
      )
    ]

drop-drop : (p n : ℕ) (s : List ℕ) → drop n (drop p s) ≡ drop (p + n) s
drop-drop zero n s = let e : n ≡ 0 + n = omega arith in ap (λ k. drop k s) e
drop-drop (suc p) zero [] = let e : suc (p + 0) ≡ suc p + 0 = omega arith in ap (λ k. drop k []) e
drop-drop (suc p) (suc n) [] =
    let e : suc (p + suc n) ≡ suc p + suc n = omega arith in ap (λ k. drop k []) e
drop-drop (suc p) n (x ∷ xs) =
    let e : suc (p + n) ≡ suc p + n = omega arith in drop-drop p n xs ∙ ap (λ k. drop k (x ∷ xs)) e

-- The position behind the name, by where the slash is.
abbrev end_at : ℕ → List ℕ → Option ℕ → ℕ
end_at p path o =
    elim (elim o as (λ _. Option ℕ) [ none ↦ none | some i ↦ some (p + i) ]) as (λ _. ℕ) [
      | none ↦ length path
      | some n ↦ n
    ]

-- The name at `p` and the rest behind it.
next_piece :
    (p : ℕ) (path : List ℕ)
    → p < length path
    → ((pieces [] (drop p path) ≡ substr p (next_slash p path - p) path ∷ [])
        × (drop (next_slash p path + 1) path ≡ [])
        × (p ≤ next_slash p path))
      ⊎ ((pieces [] (drop p path)
            ≡ substr p (next_slash p path - p) path ∷ pieces [] (drop (next_slash p path + 1) path))
          × (p ≤ next_slash p path))
unfolding next_slash find_from
next_piece p path h = cut (find_char b'/' (drop p path)) (find_char-Cut [] (drop p path))
  where
    cut :
        (o : Option ℕ)
        → Cut [] (drop p path) o
        → ((pieces [] (drop p path) ≡ substr p (end_at p path o - p) path ∷ [])
            × (drop (end_at p path o + 1) path ≡ [])
            × (p ≤ end_at p path o))
          ⊎ ((pieces [] (drop p path)
                ≡ substr p (end_at p path o - p) path ∷ pieces [] (drop (end_at p path o + 1) path))
              × (p ≤ end_at p path o))
    cut none c = inl (
      c
          ∙ ap (λ t. t ∷ [])
              (sym (take-all (length path - p) (drop p path) (omega (arith, length-drop p path)))),
      drop-all (length path + 1) path (omega arith),
      omega arith,
    )
    cut (some i) c =
        let count : p + i - p ≡ i = omega arith in
        let behind : p + suc i ≡ p + i + 1 = omega arith in
        inr (
          rw (count) (
              c.0
              ∙ ap (λ t. take i (drop p path) ∷ pieces [] t)
                  (drop-drop p (suc i) path ∙ ap (λ k. drop k path) behind)),
          omega arith,
        )

module _ (C : ClientSession) where
  -- One name after the other.
  unfoldable pub walk : Bool → ℕ → List (List ℕ) → Method C ℕ
  walk create id [] = return id
  walk create id (name ∷ names) =
      resolve_entity C create id name >>= λ child. walk create child names

  bind_ext :
      {A B : Type 0} (m : Method C A) (f g : A → Method C B) (w : Client × C.base.State)
      → ((a : A) (v : Client × C.base.State) → f a v ≡ g a v)
      → ◌>>=◌ m f w ≡ ◌>>=◌ m g w
  bind_ext m f g w h = λ i. ◌>>=◌ m (λ a v. h a v i) w

  resolve_entity-skips :
      (create : Bool) (id : ℕ) (piece : List ℕ)
      → (is_empty piece || equal_bytes piece dot) ≡ true
      → resolve_entity C create id piece ≡ return id
  unfolding resolve_entity
  resolve_entity-skips create id piece e = rw e refl

  walk-names_of :
      (create : Bool) (pieces : List (List ℕ)) (id : ℕ) (w : Client × C.base.State)
      → walk create id pieces w ≡ walk create id (names_of pieces) w
  unfolding walk names_of
  walk-names_of create [] id w = refl
  walk-names_of create (piece ∷ rest) id w =
      elim (Bool-cases (is_empty piece || equal_bytes piece dot)) [
        | inl e ↦ rw (e, resolve_entity-skips create id piece e) (walk-names_of create rest id w)
        | inr e ↦ rw e (
            bind_ext (resolve_entity C create id piece) _ _ w
              (λ child v. walk-names_of create rest child v))
      ]

  resolve_loop-walk :
      (create : Bool) (path : List ℕ) (rounds p id : ℕ) (w : Client × C.base.State)
      → length path ≤ p + rounds
      → resolve_loop C create path (suc rounds) p id w ≡ walk create id (pieces [] (drop p path)) w
  unfolding resolve_loop walk pieces resolve_entity
  resolve_loop-walk create path zero p id w h =
      rw (le→ltb p (length path) (omega (arith, h)), drop-all p path (omega (arith, h))) refl
  resolve_loop-walk create path (suc rounds) p id w h = elim (Bool-cases (ltb p (length path))) [
    | inl e ↦ rw e (
        let next = next_slash p path in
        let piece = substr p (next - p) path in
        elim (next_piece p path (ground (arith, e))) [
          | inl (cut, gone, ahead) ↦
              bind_ext (resolve_entity C create id piece) _ (λ child. walk create child []) w
                (λ child v.
                  resolve_loop-walk create path rounds (next + 1) child v (omega (arith, h, ahead))
                  ∙ ap (λ rest. walk create child (pieces [] rest) v) gone)
              ∙ ap (λ ps. walk create id ps w) (sym cut)
          | inr (cut, ahead) ↦
              bind_ext (resolve_entity C create id piece) _
                (λ child. walk create child (pieces [] (drop (next + 1) path))) w
                (λ child v.
                  resolve_loop-walk create path rounds (next + 1) child v (omega (arith, h, ahead)))
              ∙ ap (λ ps. walk create id ps w) (sym cut)
        ])
    | inr e ↦ rw (e, drop-all p path (ground (arith, e))) refl
  ]

  -- `Resolve` goes from the root, for a path that begins with a slash, or else from the current
  -- directory, through the names of the path in order; empty names and dots are passed over. The rounds
  -- that the loop is given are enough for every path.
  pub resolve-walk :
      (create : Bool) (path : List ℕ) (c : Client) (s : C.base.State)
      → resolve C create path (c, s)
        ≡ walk create
            (if begins_with path slash then root else c.cd)
            (names_of (pieces [] path))
            (c, s)
  unfolding resolve
  resolve-walk create path c s =
      let start = if begins_with path slash then root else c.cd in
      resolve_loop-walk create path (length path) 0 start (c, s) (omega arith)
      ∙ walk-names_of create (pieces [] path) start (c, s)
