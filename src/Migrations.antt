-- ===== src/Migrations.antt =====
-- gemstone_py/migrations.py: module-style migrations. The data; the algorithms are in the modules
-- below.
pub mod Order
pub mod Plan
pub mod Stored
pub mod Run
pub mod Class
mod Tests
use gemstone_py.Prelude.{String, Option, List, [], ◌∷◌}

-- A step with its two callbacks of type `C`. `source_path` is the path's text.
pub record MigrationStep (C : Type 0) : Type 0 where
  pub id : String
  pub upgrade : C
  pub downgrade : Option C
  pub dependencies : List String
  pub checksum : String
  pub description : String
  pub module_name : String
  pub source_path : Option String

-- Each `raise MigrationError(...)` is a constructor that holds what its message shows.
-- `out_of_fuel` is the model's own: a recursion deeper than the fuel.
pub data MigrationError : Type 0 where
  duplicate_id : String → MigrationError
  dependency_cycle : String → MigrationError
  unknown_dependency : String → String → MigrationError
  unknown_target : String → MigrationError
  target_not_applied : String → MigrationError
  not_in_manifest : List String → MigrationError
  checksum_mismatch : String → String → String → MigrationError
  no_downgrade : List String → MigrationError
  no_callback : String → MigrationError
  lock_held : String → String → MigrationError
  lock_not_ours : String → String → String → MigrationError
  lock_commit_failed : String → MigrationError
  unlock_commit_failed : String → MigrationError
  step_failed : String → MigrationError
  rollback_failed : String → MigrationError
  table_not_a_mapping out_of_fuel : MigrationError

module _ {C : Type 0} where
  abbrev pub ids : List (MigrationStep C) → List String
  ids [] = []
  ids (s ∷ ss) = s.id ∷ ids ss
