-- ===== src/Client/Command.antt =====
-- The commands of cli/Session.cpp: the multimap `_commands` and `ProcessCommand`.
use zune_sync.Base.{ℕ, ◌==◌, if◌then◌else◌, List, [], ◌∷◌, length, Error}
use zune_sync.Base.Sorted.{less_bytes}
use zune_sync.Base.Stateful.{Stateful, throw}

-- An entry: the name, `GetArgumentCount` and `Execute`.
pub record Command (S : Type 0) : Type 0 where
  pub name : List ℕ
  pub argument_count : ℕ
  pub execute : List (List ℕ) → Stateful S (Unit {0})

module _ {S : Type 0} where
  -- `AddCommand`: a multimap puts an entry behind those with the same key.
  unfoldable pub add_command : Command S → List (Command S) → List (Command S)
  add_command c [] = c ∷ []
  add_command c (d ∷ ds) =
      let rest = add_command c ds in if less_bytes c.name d.name then c ∷ (d ∷ ds) else d ∷ rest

  -- The calls of `AddCommand`, one after the other.
  unfoldable pub add_all : List (Command S) → List (Command S) → List (Command S)
  add_all [] commands = commands
  add_all (c ∷ cs) commands = add_all cs (add_command c commands)

  -- The entries from `lower_bound(name)` on.
  unfoldable pub from_lower_bound : List ℕ → List (Command S) → List (Command S)
  from_lower_bound name [] = []
  from_lower_bound name (c ∷ cs) =
      let rest = from_lower_bound name cs in if less_bytes c.name name then rest else c ∷ cs

  -- The entries before `upper_bound(name)`.
  unfoldable pub to_upper_bound : List ℕ → List (Command S) → List (Command S)
  to_upper_bound name [] = []
  to_upper_bound name (c ∷ cs) =
      let rest = to_upper_bound name cs in if less_bytes name c.name then [] else c ∷ rest

  -- The loop of `ProcessCommand`, and the exception behind it.
  unfoldable pub execute_first : List (List ℕ) → List (Command S) → Stateful S (Unit {0})
  execute_first args [] = throw Error.invalid_argument_count
  execute_first args (c ∷ cs) =
      let rest = execute_first args cs in
      if c.argument_count == length args then c.execute args else rest

  -- `b == e`, and what follows.
  unfoldable pub execute_range : List (List ℕ) → List (Command S) → Stateful S (Unit {0})
  execute_range args [] = throw Error.invalid_command
  execute_range args (c ∷ cs) = execute_first args (c ∷ cs)

  unfoldable pub process_tokens : List (Command S) → List (List ℕ) → Stateful S (Unit {0})
  process_tokens commands [] = throw Error.no_token
  process_tokens commands (name ∷ args) =
      execute_range args (to_upper_bound name (from_lower_bound name commands))
