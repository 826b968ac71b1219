-- ===== src/Migrations/Order.antt =====
-- `_ordered_steps` of gemstone_py/migrations.py: depth-first search over the dependencies.
pub mod Sound
pub mod Table
pub mod Sorted
pub mod Room
pub mod Fuel
pub mod Total
use gemstone_py.Prelude.{
  ℕ, zero, suc, String, Option, none, some, true, List, [], ◌∷◌, ◌++◌, ◌==◌, contains, string_eq,
  length, if◌then◌else◌,
}
use gemstone_py.Prelude.Dict
use gemstone_py.Prelude.Dict.{Dict}
use gemstone_py.Prelude.Exec.{Result, ok, err, ◌>>=◌}
use gemstone_py.Migrations.{
  MigrationStep, MigrationError, duplicate_id, dependency_cycle, unknown_dependency, out_of_fuel,
}

-- What `visit` closes over. The two sets are lists.
pub record VisitState (C : Type 0) : Type 0 where
  pub ordered : List (MigrationStep C)
  pub visiting : List String
  pub visited : List String

-- `visiting.remove(id)`
pub discard : String → List String → List String
discard k [] = []
discard k (x ∷ xs) = let rest = discard k xs in if k == x then rest else x ∷ rest

module _ {C : Type 0} where
  -- The first loop: the table of the steps by their ids.
  unfoldable pub index_steps :
      List (MigrationStep C)
      → Dict String (MigrationStep C)
      → Result MigrationError (Dict String (MigrationStep C))
  index_steps [] by_id = ok by_id
  index_steps (step ∷ steps) by_id =
      let rest = index_steps steps (Dict.insert step.id step by_id) in
      if contains (Dict.keys by_id) step.id then err (duplicate_id step.id) else rest

  abbrev pub enter : MigrationStep C → VisitState C → VisitState C
  enter step v = record v { visiting = step.id ∷ v.visiting }

  pub leave : MigrationStep C → VisitState C → VisitState C
  leave step v = record {
    ordered = v.ordered ++ step ∷ [];
    visiting = discard step.id v.visiting;
    visited = step.id ∷ v.visited;
  }

  -- The loop over `step.dependencies`, with `go` for the calls of `visit`.
  unfoldable pub visit_dependencies :
      (MigrationStep C → VisitState C → Result MigrationError (VisitState C))
      → Dict String (MigrationStep C)
      → MigrationStep C
      → List String
      → VisitState C
      → Result MigrationError (VisitState C)
  visit_dependencies go by_id step [] v = ok v
  visit_dependencies go by_id step (d ∷ ds) v = elim (Dict.lookup d by_id) [
    | none ↦ err (unknown_dependency step.id d)
    | some s ↦ go s v >>= visit_dependencies go by_id step ds
  ]

  -- The nested function `visit`.
  unfoldable pub visit :
      Dict String (MigrationStep C)
      → ℕ
      → MigrationStep C
      → VisitState C
      → Result MigrationError (VisitState C)
  unfolding visit_dependencies leave discard
  visit by_id zero step v =
      if contains v.visited step.id
      then ok v
      else if contains v.visiting step.id
      then err (dependency_cycle step.id)
      else err out_of_fuel
  visit by_id (suc fuel) step v =
      if contains v.visited step.id
      then ok v
      else if contains v.visiting step.id
      then err (dependency_cycle step.id)
      else (visit_dependencies (visit by_id fuel) by_id step step.dependencies (enter step v)
          >>= λ w. ok (leave step w))

  -- The last loop, over all the steps.
  unfoldable pub visit_all :
      Dict String (MigrationStep C)
      → ℕ
      → List (MigrationStep C)
      → VisitState C
      → Result MigrationError (VisitState C)
  unfolding visit
  visit_all by_id fuel [] v = ok v
  visit_all by_id fuel (step ∷ steps) v = visit by_id fuel step v >>= visit_all by_id fuel steps

  abbrev pub unvisited : VisitState C
  unvisited = record { ordered = []; visiting = []; visited = [] }

  unfoldable pub ordered_steps :
      List (MigrationStep C) → Result MigrationError (List (MigrationStep C))
  unfolding index_steps visit_all
  ordered_steps steps = index_steps steps [] >>= λ by_id.
      visit_all by_id (length steps) steps unvisited >>= λ v. ok v.ordered
