-- ===== src/Migrations/Run/Execute.antt =====
-- `upgrade` and `downgrade` of gemstone_py/migrations.py.
use gemstone_py.Prelude.{
  String, string_eq, Option, none, some, Bool, true, false, List, [], ◌∷◌, ◌++◌, map, if◌then◌else◌,
}
use gemstone_py.Prelude.Dict.{keys, insert, erase}
use gemstone_py.Prelude.Action.{Action, ◌>>=◌, ◌>>◌, pure, raise}
use gemstone_py.Prelude.Exec.{Result, ok, err}
use gemstone_py.Session.{Fault, other_exception}
use gemstone_py.Migrations.{
  MigrationStep, MigrationError, ids, no_downgrade, no_callback, step_failed, rollback_failed,
}
use gemstone_py.Migrations.Plan.{
  AppliedTable, plan_upgrade, plan_downgrade, validate_migration_state,
}
use gemstone_py.Migrations.Stored.{normalize_applied_table, applied_record}
use gemstone_py.Migrations.Run.{
  MigrationLock, MigrationApi, RunOptions, Direction, upward, downward, Operation, comment,
  recorded, MigrationResult, RunError, migration_error, call_raised, lift, returning, guarded,
  acquire_migration_lock, release_migration_lock,
}

module _ {C : Type 0} (api : MigrationApi C) where
  open api use {World, call, rehearse, commit, read_table, write_table, utcnow}

  -- One step of `upgrade`: the callback, the row, the table, and the commit.
  unfoldable pub apply_step :
      String → MigrationStep C → AppliedTable → Action World Fault AppliedTable
  apply_step root_key step applied = call step.upgrade >> utcnow >>= λ stamp.
      write_table root_key (insert step.id (applied_record step stamp) applied)
      >> commit
      >> pure (insert step.id (applied_record step stamp) applied)

  -- `assert step.downgrade is not None`, and the call.
  unfoldable pub call_downgrade : Option C → Action World Fault (Unit {0})
  call_downgrade none = raise (other_exception 0)
  call_downgrade (some callback) = call callback

  -- One step of `downgrade`.
  unfoldable pub undo_step :
      String → MigrationStep C → AppliedTable → Action World Fault AppliedTable
  undo_step root_key step applied =
      call_downgrade step.downgrade
      >> write_table root_key (erase step.id applied)
      >> commit
      >> pure (erase step.id applied)

  -- The loop of both, over the pending steps.
  unfoldable pub run_steps :
      (MigrationStep C → AppliedTable → Action World Fault AppliedTable)
      → (String → MigrationError)
      → List (MigrationStep C)
      → AppliedTable
      → Action World RunError AppliedTable
  run_steps run failure [] applied = pure applied
  run_steps run failure (step ∷ steps) applied =
      guarded api (failure step.id) (run step applied) >>= run_steps run failure steps

  -- The `finally`: after an error of the steps an error of the release is dropped.
  unfoldable pub release_after :
      Option MigrationLock
      → Bool
      → Result RunError AppliedTable × World
      → Result RunError (Unit {0}) × World
  release_after none force (ok t, w) = (ok tt, w)
  release_after none force (err e, w) = (err e, w)
  release_after (some lock) force (ok t, w) = release_migration_lock api lock force w
  release_after (some lock) force (err e, w) = (err e, (release_migration_lock api lock force w).1)

  -- `use_lock and pending`
  unfoldable pub lock_if_pending :
      RunOptions → List (MigrationStep C) → Action World RunError (Option MigrationLock)
  lock_if_pending o [] = pure none
  lock_if_pending o (step ∷ steps) =
      if o.use_lock then (acquire_migration_lock api o >>= λ lock. pure (some lock)) else pure none

  -- The callback of a step in a direction.
  abbrev callback_of : Direction → MigrationStep C → Option C
  callback_of upward step = some step.upgrade
  callback_of downward step = step.downgrade

  unfoldable pub rehearse_step : Direction → String → Option C → Result RunError (List Operation)
  rehearse_step direction id none = err (migration_error (no_callback id))
  rehearse_step direction id (some callback) = elim (rehearse callback) [
    | ok lines ↦ ok (comment direction id ∷ map recorded lines)
    | err e ↦ err (call_raised e)
  ]

  -- `_record_pending_steps`
  unfoldable pub record_pending_steps :
      Direction → List (MigrationStep C) → Result RunError (List Operation)
  record_pending_steps direction [] = ok []
  record_pending_steps direction (step ∷ steps) =
      elim (rehearse_step direction step.id (callback_of direction step)) [
        | err e ↦ err e
        | ok lines ↦ elim (record_pending_steps direction steps) [
          | err e ↦ err e
          | ok rest ↦ ok (lines ++ rest)
        ]
      ]

  -- The `if dry_run` of both.
  unfoldable pub rehearsal :
      Direction → RunOptions → List (MigrationStep C) → Action World RunError MigrationResult
  rehearsal direction o pending w = (
    elim (if o.record_dry_run then record_pending_steps direction pending else ok []) [
      | ok operations ↦ ok (record {
        direction = direction;
        target = o.target;
        step_ids = ids pending;
        dry_run = true;
        operations = operations;
      })
      | err e ↦ err e
    ],
    w,
  )

  -- The rest of both, from the lock on.
  unfoldable pub run_pending :
      Direction
      → RunOptions
      → (List (MigrationStep C) → Action World RunError AppliedTable)
      → List (MigrationStep C)
      → Action World RunError MigrationResult
  run_pending direction o steps pending = lock_if_pending o pending >>= λ lock.
      (λ w. release_after lock o.force_lock (steps pending w))
      >> pure (record {
        direction = direction;
        target = o.target;
        step_ids = ids pending;
        dry_run = false;
        operations = [];
      })

  unfoldable pub read_applied : String → Action World RunError AppliedTable
  read_applied root_key =
      lift api (read_table root_key) >>= λ stored. returning api (normalize_applied_table stored)

  unfoldable pub upgrade :
      RunOptions → List (MigrationStep C) → Action World RunError MigrationResult
  upgrade o steps = read_applied o.root_key >>= λ applied.
      returning api (validate_migration_state steps applied) >>= λ ordered.
      returning api (plan_upgrade ordered (keys applied) o.target) >>= λ pending.
      if o.dry_run
      then rehearsal upward o pending
      else run_pending upward o (λ ss. run_steps (apply_step o.root_key) step_failed ss applied)
          pending

  -- The steps without a `downgrade`.
  unfoldable pub irreversible : List (MigrationStep C) → List String
  irreversible [] = []
  irreversible (step ∷ steps) = elim step.downgrade [
    | none ↦ step.id ∷ irreversible steps
    | some _ ↦ irreversible steps
  ]

  abbrev pub all_reversible : List String → Result MigrationError (Unit {0})
  all_reversible [] = ok tt
  all_reversible (id ∷ missing) = err (no_downgrade (id ∷ missing))

  unfoldable pub downgrade :
      RunOptions → List (MigrationStep C) → Action World RunError MigrationResult
  downgrade o steps = read_applied o.root_key >>= λ applied.
      returning api (validate_migration_state steps applied) >>= λ ordered.
      returning api (plan_downgrade ordered (keys applied) o.target) >>= λ pending.
      returning api (all_reversible (irreversible pending))
      >> (if o.dry_run
          then rehearsal downward o pending
          else run_pending downward o
              (λ ss. run_steps (undo_step o.root_key) rollback_failed ss applied) pending)
