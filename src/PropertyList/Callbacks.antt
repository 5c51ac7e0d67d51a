-- ===== src/PropertyList/Callbacks.antt =====
-- The two readings of `Parse`: the calls of its callback, and the entries.
use zune_sync.Base.{ℕ, zero, suc, ◌≡◌, refl, ap, ◌∙◌, List, [], ◌∷◌, Result, ok, err, arith}
use zune_sync.Base.Stateful
use zune_sync.Base.Stateful.{Stateful, for_each}
use zune_sync.Stream.Input.{InputStream, Reader, ◌>>=◌, return, read32, open_stream, run}
use zune_sync.PropertyList.Parser.{
  Property, parse_property, parse_properties, parse, each_property, parse_each,
}

-- A reader that returned, before what follows it.
record Taken {ℓ} {A : Type ℓ} (m : Reader A) (s : InputStream) : Type ℓ where
  value : A
  state : InputStream
  path : m s ≡ ok (value, state)

reader_inversion {ℓ κ} :
    {A : Type ℓ} {B : Type κ} (m : Reader A) (f : A → Reader B) (s s' : InputStream) (b : B)
    → ◌>>=◌ m f s ≡ ok (b, s')
    → (r : Taken m s) × (f r.value r.state ≡ ok (b, s'))
reader_inversion {A = A} {B = B} m f s s' b e = go (m s) refl e
  where
    go :
        (r : Result (A × InputStream))
        → m s ≡ r
        → ◌>>=◌ (λ _. r) f s ≡ ok (b, s')
        → (t : Taken m s) × (f t.value t.state ≡ ok (b, s'))
    go (ok (a, s1)) p q = (record { value = a; state = s1; path = p }, q)
    go (err x) p q = absurd (grind (arith, q))

run_inversion :
    {A : Type 0} (m : Reader A) (bytes : List ℕ) (a : A)
    → run m bytes ≡ ok a
    → (s' : InputStream) × (m (open_stream bytes) ≡ ok (a, s'))
run_inversion {A} m bytes a e = go (m (open_stream bytes)) refl e
  where
    go :
        (r : Result (A × InputStream))
        → m (open_stream bytes) ≡ r
        → run (λ _. r) bytes ≡ ok a
        → (s' : InputStream) × (m (open_stream bytes) ≡ ok (a, s'))
    go (ok (b, s')) p q = (
      s',
      p
          ∙ ap
              (λ x. elim x as (λ _. Result (A × InputStream)) [ ok y ↦ ok (y, s') | err z ↦ err z ])
              q,
    )
    go (err x) p q = absurd (grind (arith, q))

module _ {A : Type 0} {S : Type 0} (parser : ℕ → Reader A)
    (func : Property A → Stateful S (Unit {0})) where
  abbrev taken : Result (List (Property A) × InputStream) → List (Property A)
  taken (ok (entries, s)) = entries
  taken (err e) = []

  each_property-parse_properties :
      (n : ℕ) (s s' : InputStream) (entries : List (Property A))
      → parse_properties parser n s ≡ ok (entries, s')
      → each_property parser func n s ≡ for_each func entries
  unfolding parse_properties each_property
  each_property-parse_properties zero s s' entries e = ap (λ r. for_each func (taken r)) e
  each_property-parse_properties (suc n) s s' entries e =
      let (first, e1) =
        reader_inversion (parse_property parser)
          (λ p. parse_properties parser n >>= λ rest. return (p ∷ rest)) s s' entries e in
      let (rest, e2) =
        reader_inversion (parse_properties parser n) (λ rest. return (first.value ∷ rest))
          first.state s' entries e1 in
      let ih = each_property-parse_properties n first.state rest.state rest.value rest.path in
      ap
        (λ r. elim r as (λ _. Stateful S (Unit {0})) [
          | err x ↦ Stateful.throw x
          | ok (p, u) ↦ Stateful.◌>>◌ (func p) (each_property parser func n u)
        ])
        first.path
      ∙ ap (λ k. Stateful.◌>>◌ (func first.value) k) ih
      ∙ ap (λ r. for_each func (taken r)) e2

  -- Where the list is parsed, the calls are those of a loop over its entries.
  pub parse_each-parse :
      (bytes : List ℕ) (entries : List (Property A))
      → parse parser bytes ≡ ok entries
      → parse_each parser func bytes ≡ for_each func entries
  unfolding parse parse_each
  parse_each-parse bytes entries e =
      let (s', all) = run_inversion (read32 >>= λ n. parse_properties parser n) bytes entries e in
      let (count, e1) =
        reader_inversion read32 (λ n. parse_properties parser n) (open_stream bytes) s' entries
          all in
      ap
        (λ r. elim r as (λ _. Stateful S (Unit {0})) [
          | err x ↦ Stateful.throw x
          | ok (n, u) ↦ each_property parser func n u
        ])
        count.path
      ∙ each_property-parse_properties count.value count.state s' entries e1
