-- ===== src/Migrations/Run/Tests.antt =====
-- Runs over a stone whose world is the version table as committed and as the session sees it, with a
-- lock record beside each.
use gemstone_py.Prelude.{
  String, string_eq, ◌≡◌, refl, ap, sym, Option, none, some, true, false, [], ◌∷◌,
}
use gemstone_py.Prelude.Exec.{ok}
use gemstone_py.Migrations.{MigrationStep, step_failed, rollback_failed}
use gemstone_py.Migrations.Plan.{AppliedTable}
use gemstone_py.Migrations.Stored.{StoredLock, no_table, normalize_lock, default_lock_root}
use gemstone_py.Migrations.Run.{
  MigrationLock, MigrationApi, RunOptions, acquire_migration_lock, lock_blocks, take_lock, guarded,
}
use gemstone_py.Migrations.Run.Execute.{apply_step, undo_step, run_steps}
use gemstone_py.Migrations.Run.Progress.{
  IsTransactional, Progress, Adds, Removes, apply_steps-Progress, undo_steps-Progress,
}
use gemstone_py.Migrations.Run.Guards.{IsFree, acquire_migration_lock_lem}

-- A callback of this stone is a text.
abbrev stone : MigrationApi String
stone = record {
  World = AppliedTable × AppliedTable;
  call = λ c w. (ok tt, w);
  rehearse = λ c. ok (c ∷ []);
  commit = λ w. (ok tt, (w.1, w.1));
  abort = λ w. (ok tt, (w.0, w.0));
  read_table = λ k w. (ok no_table, w);
  write_table = λ k t w. (ok tt, (w.0, t));
  read_lock = λ k w. (ok none, w);
  write_lock = λ l w. (ok tt, w);
  delete_lock = λ k w. (ok tt, w);
  utcnow = λ w. (ok "now", w);
  lock_age = λ text w. (ok none, w);
  default_owner = "host";
}

abbrev users : MigrationStep String
users = record {
  id = "users";
  upgrade = "add";
  downgrade = some "remove";
  dependencies = [];
  checksum = "c";
  description = "";
  module_name = "users";
  source_path = none;
}

abbrev options : RunOptions
options = record {
  target = none;
  dry_run = true;
  root_key = "root";
  use_lock = true;
  lock_key = none;
  lock_owner = none;
  lock_stale_after_seconds = some 3600;
  force_lock = false;
  record_dry_run = true;
}

abbrev empty : AppliedTable × AppliedTable
empty = ([], [])

stone-IsTransactional : IsTransactional stone (λ w. w.0) (λ w. w.1) "root"
stone-IsTransactional = record {
  call-durable = λ c w. refl;
  utcnow-durable = λ w. refl;
  write-durable = λ t w. refl;
  write-current = λ t w w' e. ap (λ p. p.1.1) (sym e);
  abort-durable = λ w. refl;
  commit-durable = λ w w' e. ap (λ p. p.1.0) (sym e);
  commit_raised-durable = λ x w w' e. cc;
}

apply_steps-Progress_example :
    Progress stone
      (λ w. w.0)
      (λ w. w.1)
      (Adds stone (λ w. w.0) (λ w. w.1))
      step_failed
      []
      (users ∷ [])
      (run_steps stone (apply_step stone "root") step_failed (users ∷ []) [] empty)
apply_steps-Progress_example =
    apply_steps-Progress stone (λ w. w.0) (λ w. w.1) "root" stone-IsTransactional (users ∷ []) []
      empty refl

undo_steps-Progress_example :
    Progress stone
      (λ w. w.0)
      (λ w. w.1)
      (Removes stone (λ w. w.0) (λ w. w.1))
      rollback_failed
      []
      (users ∷ [])
      (run_steps stone (undo_step stone "root") rollback_failed (users ∷ []) [] empty)
undo_steps-Progress_example =
    undo_steps-Progress stone (λ w. w.0) (λ w. w.1) "root" stone-IsTransactional (users ∷ []) []
      empty refl

abbrev our_lock : MigrationLock
our_lock = record {
  key = default_lock_root;
  owner = "host";
  acquired_at = "now";
  root_key = "root";
}

locked : acquire_migration_lock stone options empty ≡ (ok our_lock, empty)
unfolding acquire_migration_lock lock_blocks take_lock guarded normalize_lock
locked = refl

acquire_migration_lock_lem_example :
    (stored : Option StoredLock) × (v : AppliedTable × AppliedTable) × (u : AppliedTable
      × AppliedTable)
    × (stone.read_lock default_lock_root empty ≡ (ok stored, v))
    × IsFree stone options (normalize_lock stored) v
    × (stone.commit u ≡ (ok tt, empty))
acquire_migration_lock_lem_example =
    acquire_migration_lock_lem stone options our_lock empty empty locked
