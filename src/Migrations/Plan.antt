-- ===== src/Migrations/Plan.antt =====
-- `plan_upgrade`, `plan_downgrade` and `validate_migration_state` of gemstone_py/migrations.py.
-- `applied` is the table of the stone: a record for each applied id.
pub mod Upgrade
pub mod Downgrade
pub mod Validate
use gemstone_py.Prelude.{
  String, Option, none, some, Bool, true, false, ◌&&◌, not, List, [], ◌∷◌, ◌==◌, contains,
  string_eq, reverse, if◌then◌else◌,
}
use gemstone_py.Prelude.Dict
use gemstone_py.Prelude.Dict.{Dict}
use gemstone_py.Prelude.Exec.{Result, ok, err, ◌>>=◌}
use gemstone_py.Migrations.{
  MigrationStep, MigrationError, ids, unknown_target, target_not_applied, not_in_manifest,
  checksum_mismatch,
}
use gemstone_py.Migrations.Order.{ordered_steps}

-- One row of the version table, as `_applied_record` writes it.
pub record AppliedRecord : Type 0 where
  pub id : String
  pub checksum : String
  pub applied_at : String
  pub description : String

abbrev pub AppliedTable : Type 0
AppliedTable = Dict String AppliedRecord

-- `step.id == target`, where `target` may be `None`.
abbrev pub is_target : Option String → String → Bool
is_target none id = false
is_target (some t) id = id == t

-- `if target == "base": target = None`
abbrev pub without_base : Option String → Option String
without_base none = none
without_base (some t) = if t == "base" then none else some t

-- `applied_ids - set(by_id)`, in the order of the table where the source sorts it for the message.
unfoldable pub unknown_ids : List String → List String → List String
unknown_ids [] known = []
unknown_ids (a ∷ applied) known =
    let rest = unknown_ids applied known in if contains known a then rest else a ∷ rest

abbrev pub checksums_differ : String → String → Bool
checksums_differ stored local = not (stored == "") && not (local == "") && not (stored == local)

module _ {C : Type 0} where
  -- The loop of `plan_upgrade`: pending steps up to the target, the target included.
  unfoldable pub pending_steps :
      List String → Option String → List (MigrationStep C) → List (MigrationStep C)
  pending_steps applied target [] = []
  pending_steps applied target (step ∷ steps) =
      let rest = if is_target target step.id then [] else pending_steps applied target steps in
      if contains applied step.id then rest else step ∷ rest

  unfoldable pub plan_upgrade :
      List (MigrationStep C)
      → List String
      → Option String
      → Result MigrationError (List (MigrationStep C))
  unfolding pending_steps
  plan_upgrade steps applied target = ordered_steps steps >>= λ ordered. elim target [
    | none ↦ ok (pending_steps applied none ordered)
    | some t ↦
        if contains (ids ordered) t
        then ok (pending_steps applied (some t) ordered)
        else err (unknown_target t)
  ]

  -- The loop of `plan_downgrade`, over the order reversed: the target itself stays applied.
  unfoldable pub rollback_steps :
      List String → Option String → List (MigrationStep C) → List (MigrationStep C)
  rollback_steps applied target [] = []
  rollback_steps applied target (step ∷ steps) =
      let rest = rollback_steps applied target steps in
      if not (contains applied step.id)
      then rest
      else if is_target target step.id
      then []
      else step ∷ rest

  unfoldable pub rollback_to :
      List String
      → Option String
      → List (MigrationStep C)
      → Result MigrationError (List (MigrationStep C))
  unfolding rollback_steps
  rollback_to applied none ordered = ok (rollback_steps applied none (reverse ordered))
  rollback_to applied (some t) ordered =
      if not (contains (ids ordered) t)
      then err (unknown_target t)
      else if not (contains applied t)
      then err (target_not_applied t)
      else ok (rollback_steps applied (some t) (reverse ordered))

  unfoldable pub plan_downgrade :
      List (MigrationStep C)
      → List String
      → Option String
      → Result MigrationError (List (MigrationStep C))
  unfolding rollback_to
  plan_downgrade steps applied target =
      ordered_steps steps >>= rollback_to applied (without_base target)

  -- `{step.id: step for step in ordered}[id].checksum`, read where the id is known.
  unfoldable pub local_checksum : List (MigrationStep C) → String → String
  local_checksum [] id = ""
  local_checksum (s ∷ ss) id = if id == s.id then s.checksum else local_checksum ss id

  unfoldable pub check_checksums :
      List (MigrationStep C) → AppliedTable → Result MigrationError (Unit {0})
  unfolding local_checksum
  check_checksums ordered [] = ok tt
  check_checksums ordered ((id, row) ∷ rows) =
      let rest = check_checksums ordered rows in
      if checksums_differ row.checksum (local_checksum ordered id)
      then err (checksum_mismatch id row.checksum (local_checksum ordered id))
      else rest

  unfoldable pub check_applied_against_manifest :
      List (MigrationStep C) → AppliedTable → Result MigrationError (Unit {0})
  unfolding unknown_ids check_checksums
  check_applied_against_manifest ordered applied =
      elim (unknown_ids (Dict.keys applied) (ids ordered)) [
        | [] ↦ check_checksums ordered applied
        | a ∷ as' ↦ err (not_in_manifest (a ∷ as'))
      ]

  unfoldable pub validate_migration_state :
      List (MigrationStep C) → AppliedTable → Result MigrationError (List (MigrationStep C))
  unfolding check_applied_against_manifest
  validate_migration_state steps applied = ordered_steps steps >>= λ ordered.
      check_applied_against_manifest ordered applied >>= λ _. ok ordered
