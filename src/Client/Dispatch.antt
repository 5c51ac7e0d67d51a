-- ===== src/Client/Dispatch.antt =====
-- The range of a command's name in `_commands` is what was added under this name, in this order.
use zune_sync.Base.{
  ℕ, ◌≡◌, refl, ap, ◌∙◌, inl, inr, true, false, Bool-cases, if◌then◌else◌, List, [], ◌∷◌, ◌++◌,
  append-nil, append_assoc, All, arith, ◌==◌, length, Option, none, some, Error,
}
use zune_sync.Base.Dict.{equal_bytes, equal_bytes_sound}
use zune_sync.Base.Sorted.{less_bytes}
use zune_sync.Client.Command.{
  Command, add_command, add_all, from_lower_bound, to_upper_bound, execute_first, execute_range,
  process_tokens,
}
use zune_sync.Base.Stateful.{Stateful, throw}

less_bytes_irrefl : (a : List ℕ) → less_bytes a a ≡ false
unfolding less_bytes
less_bytes_irrefl [] = refl
less_bytes_irrefl (x ∷ xs) = ground (arith, less_bytes_irrefl xs)

-- `≤` is transitive, and `<` with `≤` too.
less_bytes_trans :
    (a b c : List ℕ) → less_bytes b a ≡ false → less_bytes c b ≡ false → less_bytes c a ≡ false
unfolding less_bytes
less_bytes_trans [] b [] h k = refl
less_bytes_trans [] [] (z ∷ zs) h k = refl
less_bytes_trans [] (y ∷ ys) (z ∷ zs) h k = refl
less_bytes_trans (x ∷ xs) [] c h k = absurd (grind (arith, h))
less_bytes_trans (x ∷ xs) (y ∷ ys) [] h k = absurd (grind (arith, k))
less_bytes_trans (x ∷ xs) (y ∷ ys) (z ∷ zs) h k = ground (arith, h, k, less_bytes_trans xs ys zs)

less_bytes_asym : (a b : List ℕ) → less_bytes a b ≡ true → less_bytes b a ≡ false
unfolding less_bytes
less_bytes_asym [] [] h = refl
less_bytes_asym [] (y ∷ ys) h = refl
less_bytes_asym (x ∷ xs) [] h = absurd (grind (arith, h))
less_bytes_asym (x ∷ xs) (y ∷ ys) h = ground (arith, h, less_bytes_asym xs ys)

less_bytes_total :
    (a b : List ℕ) → less_bytes a b ≡ false → less_bytes b a ≡ false → equal_bytes a b ≡ true
unfolding less_bytes equal_bytes
less_bytes_total [] [] h k = refl
less_bytes_total [] (y ∷ ys) h k = absurd (grind (arith, h))
less_bytes_total (x ∷ xs) [] h k = absurd (grind (arith, k))
less_bytes_total (x ∷ xs) (y ∷ ys) h k = ground (arith, h, k, less_bytes_total xs ys)

-- No key is behind a greater one.
abbrev Sorted : {S : Type 0} → List (Command S) → Type 0
Sorted {S} [] = Unit
Sorted {S} (c ∷ cs) = All (λ (d : Command S). less_bytes d.name c.name ≡ false) cs × Sorted cs

-- The entries with this name.
unfoldable pub named : {S : Type 0} → List ℕ → List (Command S) → List (Command S)
named name [] = []
named name (c ∷ cs) = let rest = named name cs in if equal_bytes c.name name then c ∷ rest else rest

-- The first that takes this number of arguments.
unfoldable pub first_taking : {S : Type 0} → ℕ → List (Command S) → Option (Command S)
first_taking n [] = none
first_taking n (c ∷ cs) =
    let rest = first_taking n cs in if c.argument_count == n then some c else rest

equal_bytes_less : (a b : List ℕ) → equal_bytes a b ≡ true → less_bytes a b ≡ false
equal_bytes_less a b e =
    let same : a ≡ b = equal_bytes_sound a b e in rw (same) (less_bytes_irrefl b)

less_unequal : (a b : List ℕ) → less_bytes a b ≡ true → equal_bytes a b ≡ false
less_unequal a b h = elim (Bool-cases (equal_bytes a b)) [
  | inl e ↦ absurd (grind (arith, h, equal_bytes_less a b e))
  | inr e ↦ e
]

greater_unequal : (a b : List ℕ) → less_bytes b a ≡ true → equal_bytes a b ≡ false
greater_unequal a b h = elim (Bool-cases (equal_bytes a b)) [
  | inl e ↦
      let same : a ≡ b = equal_bytes_sound a b e in
      let no : less_bytes b a ≡ false = rw (same) (less_bytes_irrefl b) in
      absurd (grind (arith, h, no))
  | inr e ↦ e
]

greater_or_equal :
    (a b c : List ℕ) → less_bytes a b ≡ true → less_bytes c b ≡ false → less_bytes a c ≡ true
greater_or_equal a b c h k = elim (Bool-cases (less_bytes a c)) [
  | inl e ↦ e
  | inr e ↦ absurd (grind (arith, h, less_bytes_trans b c a k e))
]

module _ {S : Type 0} where
  All-not_less :
      (a : List ℕ) (c : Command S) (cs : List (Command S))
      → less_bytes c.name a ≡ false
      → All (λ (d : Command S). less_bytes d.name c.name ≡ false) cs
      → All (λ (d : Command S). less_bytes d.name a ≡ false) cs
  All-not_less a c [] h k = tt
  All-not_less a c (d ∷ ds) h k =
      (less_bytes_trans a c.name d.name h k.0, All-not_less a c ds h k.1)

  All-add :
      (a : List ℕ) (c : Command S) (cs : List (Command S))
      → less_bytes c.name a ≡ false
      → All (λ (d : Command S). less_bytes d.name a ≡ false) cs
      → All (λ (d : Command S). less_bytes d.name a ≡ false) (add_command c cs)
  unfolding add_command
  All-add a c [] h k = (h, tt)
  All-add a c (d ∷ ds) h k = elim (Bool-cases (less_bytes c.name d.name)) [
    | inl e ↦ rw e (h, (k.0, k.1))
    | inr e ↦ rw e (k.0, All-add a c ds h k.1)
  ]

  named-greater :
      (name : List ℕ) (cs : List (Command S))
      → All (λ (d : Command S). less_bytes name d.name ≡ true) cs
      → named name cs ≡ []
  unfolding named
  named-greater name [] h = refl
  named-greater name (c ∷ cs) h =
      rw (greater_unequal c.name name h.0, named-greater name cs h.1) refl

  All-greater :
      (name : List ℕ) (c : Command S) (cs : List (Command S))
      → less_bytes name c.name ≡ true
      → All (λ (d : Command S). less_bytes d.name c.name ≡ false) cs
      → All (λ (d : Command S). less_bytes name d.name ≡ true) cs
  All-greater name c [] h k = tt
  All-greater name c (d ∷ ds) h k =
      (greater_or_equal name c.name d.name h k.0, All-greater name c ds h k.1)

  to_upper_bound-named :
      (name : List ℕ) (cs : List (Command S))
      → Sorted cs
      → All (λ (d : Command S). less_bytes d.name name ≡ false) cs
      → to_upper_bound name cs ≡ named name cs
  unfolding to_upper_bound named
  to_upper_bound-named name [] s h = refl
  to_upper_bound-named name (c ∷ cs) s h = elim (Bool-cases (less_bytes name c.name)) [
    | inl e ↦
        rw (e, greater_unequal c.name name e, named-greater name cs (All-greater name c cs e s.0))
          refl
    | inr e ↦
        rw (e, less_bytes_total c.name name h.0 e)
          (ap (λ t. c ∷ t) (to_upper_bound-named name cs s.1 h.1))
  ]

  range-named :
      (name : List ℕ) (cs : List (Command S))
      → Sorted cs
      → to_upper_bound name (from_lower_bound name cs) ≡ named name cs
  unfolding from_lower_bound to_upper_bound named
  range-named name [] s = refl
  range-named name (c ∷ cs) s = elim (Bool-cases (less_bytes c.name name)) [
    | inl e ↦ rw (e, less_unequal c.name name e) (range-named name cs s.1)
    | inr e ↦ rw e (to_upper_bound-named name (c ∷ cs) s (e, All-not_less name c cs e s.0))
  ]

  named-add :
      (name : List ℕ) (c : Command S) (cs : List (Command S))
      → Sorted cs
      → named name (add_command c cs)
        ≡ named name cs ++ (if equal_bytes c.name name then c ∷ [] else [])
  unfolding named add_command
  named-add name c [] s = refl
  named-add name c (d ∷ ds) s = elim (Bool-cases (less_bytes c.name d.name)) [
    | inl e ↦ rw e (elim (Bool-cases (equal_bytes c.name name)) [
      | inl q ↦
          let same : c.name ≡ name = equal_bytes_sound c.name name q in
          let below : less_bytes name d.name ≡ true = rw same at e in
          let none_left : named name (d ∷ ds) ≡ [] =
            named-greater name (d ∷ ds) (below, All-greater name d ds below s.0) in
          rw (q, none_left) refl
      | inr q ↦ rw (q, append-nil) refl
    ])
    | inr e ↦
        rw (e, named-add name c ds s.1)
          (elim (Bool-cases (equal_bytes d.name name)) [ inl q ↦ rw q refl | inr q ↦ rw q refl ])
  ]

  Sorted-add : (c : Command S) (cs : List (Command S)) → Sorted cs → Sorted (add_command c cs)
  unfolding add_command
  Sorted-add c [] s = (tt, tt)
  Sorted-add c (d ∷ ds) s = elim (Bool-cases (less_bytes c.name d.name)) [
    | inl e ↦
        let below = less_bytes_asym c.name d.name e in
        rw e ((below, All-not_less c.name d ds below s.0), s)
    | inr e ↦ rw e (All-add d.name c ds e s.0, Sorted-add c ds s.1)
  ]

  named-add_all :
      (name : List ℕ) (cs ds : List (Command S))
      → Sorted ds
      → named name (add_all cs ds) ≡ named name ds ++ named name cs
  unfolding named add_all
  named-add_all name [] ds s = rw (append-nil) refl
  named-add_all name (c ∷ cs) ds s =
      named-add_all name cs (add_command c ds) (Sorted-add c ds s)
      ∙ ap (λ t. t ++ named name cs) (named-add name c ds s)
      ∙ append_assoc (named name ds) (if equal_bytes c.name name then c ∷ [] else [])
          (named name cs)
      ∙ ap (λ t. named name ds ++ t)
          (elim (Bool-cases (equal_bytes c.name name)) [ inl e ↦ rw e refl | inr e ↦ rw e refl ])

  Sorted-add_all : (cs ds : List (Command S)) → Sorted ds → Sorted (add_all cs ds)
  unfolding add_all
  Sorted-add_all [] ds s = s
  Sorted-add_all (c ∷ cs) ds s = Sorted-add_all cs (add_command c ds) (Sorted-add c ds s)

  execute_first-first_taking :
      (args : List (List ℕ)) (cs : List (Command S))
      → execute_first args cs
        ≡ (elim (first_taking (length args) cs) as (λ _. Stateful S (Unit {0})) [
          | none ↦ throw Error.invalid_argument_count
          | some c ↦ c.execute args
        ])
  unfolding execute_first first_taking
  execute_first-first_taking args [] = refl
  execute_first-first_taking args (c ∷ cs) = elim (Bool-cases (c.argument_count == length args)) [
    | inl e ↦ rw e refl
    | inr e ↦ rw e (execute_first-first_taking args cs)
  ]

  -- What is to be done about the commands of one name.
  abbrev pub dispatched : List (List ℕ) → List (Command S) → Stateful S (Unit {0})
  dispatched args [] = throw Error.invalid_command
  dispatched args (c ∷ cs) =
      elim (first_taking (length args) (c ∷ cs)) as (λ _. Stateful S (Unit {0})) [
        | none ↦ throw Error.invalid_argument_count
        | some d ↦ d.execute args
      ]

  execute_range-dispatched :
      (args : List (List ℕ)) (cs : List (Command S)) → execute_range args cs ≡ dispatched args cs
  unfolding execute_range
  execute_range-dispatched args [] = refl
  execute_range-dispatched args (c ∷ cs) = execute_first-first_taking args (c ∷ cs)

  -- With the commands added in any order of their names, `ProcessCommand` looks at the commands that were
  -- added under the name, in the order in which they were added: it executes the first that takes as
  -- many arguments as were given, and throws where there is none, by another exception where the name has
  -- no command.
  pub process_tokens-add_all :
      (commands : List (Command S)) (name : List ℕ) (args : List (List ℕ))
      → process_tokens (add_all commands []) (name ∷ args) ≡ dispatched args (named name commands)
  unfolding process_tokens named
  process_tokens-add_all commands name args =
      ap (λ cs. execute_range args cs)
        (range-named name (add_all commands []) (Sorted-add_all commands [] tt)
          ∙ named-add_all name commands [] tt)
      ∙ execute_range-dispatched args (named name commands)
