-- ===== src/Migrations/Tests.antt =====
-- The ordering and the plans at concrete manifests.
use mathlib.Core.List.{Perm}
use gemstone_py.Prelude.{
  ℕ, ◌≡◌, ◌≢◌, refl, String, none, some, List, [], ◌∷◌, arith, string_eq, All, ◌==◌, if◌then◌else◌,
}
use gemstone_py.Prelude.Dict
use gemstone_py.Prelude.Exec.{ok, err}
use gemstone_py.Migrations.{MigrationStep, out_of_fuel, dependency_cycle}
use gemstone_py.Migrations.Order.{ordered_steps}
use gemstone_py.Migrations.Order.Sound.{InOrder}
use gemstone_py.Migrations.Order.Sorted.{ordered_steps_sorted}
use gemstone_py.Migrations.Order.Fuel.{ordered_steps_terminates}
use gemstone_py.Migrations.Order.Total.{ordered_steps_complete}
use gemstone_py.Migrations.Plan.{
  AppliedRecord, AppliedTable, plan_upgrade, plan_downgrade, validate_migration_state,
}
use gemstone_py.Migrations.Plan.Upgrade.{plan_upgrade_safe}
use gemstone_py.Migrations.Plan.Downgrade.{CanUndo, plan_downgrade_safe}
use gemstone_py.Migrations.Plan.Validate.{Agrees, validate_migration_state_sound}

abbrev step : String → List String → MigrationStep ℕ
step id deps = record {
  id = id;
  upgrade = 0;
  downgrade = some 1;
  dependencies = deps;
  checksum = "c";
  description = "";
  module_name = id;
  source_path = none;
}

abbrev users : MigrationStep ℕ
users = step "users" []

abbrev posts : MigrationStep ℕ
posts = step "posts" ("users" ∷ [])

abbrev tags : MigrationStep ℕ
tags = step "tags" ("posts" ∷ "users" ∷ [])

abbrev manifest : List (MigrationStep ℕ)
manifest = tags ∷ posts ∷ users ∷ []

abbrev in_order : List (MigrationStep ℕ)
in_order = users ∷ posts ∷ tags ∷ []

order_of_manifest : ordered_steps manifest ≡ ok in_order
unfolding ordered_steps Dict.lookup Dict.insert string_eq
order_of_manifest = refl

cycle_found :
    ordered_steps (step "a" ("b" ∷ []) ∷ step "b" ("a" ∷ []) ∷ []) ≡ err (dependency_cycle "a")
unfolding ordered_steps Dict.lookup Dict.insert string_eq
cycle_found = refl

ordered_steps_sorted_example : InOrder [] in_order × Perm in_order manifest
ordered_steps_sorted_example = ordered_steps_sorted manifest in_order order_of_manifest

ordered_steps_terminates_example : ordered_steps manifest ≢ err out_of_fuel
ordered_steps_terminates_example = ordered_steps_terminates manifest

depth : String → ℕ
depth id = if id == "users" then 0 else if id == "posts" then 1 else 2

ordered_steps_complete_example : (out : List (MigrationStep ℕ)) × (ordered_steps manifest ≡ ok out)
unfolding string_eq depth
ordered_steps_complete_example =
    ordered_steps_complete manifest depth (refl, (refl, (refl, tt)))
      (((refl, omega arith), ((refl, omega arith), tt)), (((refl, omega arith), tt), (tt, tt)))

upgrade_rest : plan_upgrade manifest ("users" ∷ []) none ≡ ok (posts ∷ tags ∷ [])
unfolding plan_upgrade ordered_steps Dict.lookup Dict.insert string_eq
upgrade_rest = refl

plan_upgrade_safe_example : InOrder ("users" ∷ []) (posts ∷ tags ∷ [])
plan_upgrade_safe_example =
    plan_upgrade_safe manifest ("users" ∷ []) none (posts ∷ tags ∷ []) upgrade_rest

downgrade_to_users :
    plan_downgrade manifest ("users" ∷ "posts" ∷ "tags" ∷ []) (some "users")
    ≡ ok (tags ∷ posts ∷ [])
unfolding plan_downgrade ordered_steps Dict.lookup Dict.insert string_eq
downgrade_to_users = refl

plan_downgrade_safe_example : CanUndo manifest ("users" ∷ "posts" ∷ "tags" ∷ []) (tags ∷ posts ∷ [])
plan_downgrade_safe_example =
    plan_downgrade_safe manifest ("users" ∷ "posts" ∷ "tags" ∷ []) (some "users")
      (tags ∷ posts ∷ []) downgrade_to_users

abbrev row : String → AppliedRecord
row id = record { id = id; checksum = "c"; applied_at = ""; description = "" }

abbrev table : AppliedTable
table = ("users", row "users") ∷ []

table_is_valid : validate_migration_state manifest table ≡ ok in_order
unfolding validate_migration_state ordered_steps Dict.lookup Dict.insert string_eq
table_is_valid = refl

validate_migration_state_sound_example :
    (ordered_steps manifest ≡ ok in_order) × All (Agrees in_order) table
validate_migration_state_sound_example =
    validate_migration_state_sound manifest table in_order table_is_valid
