-- ===== src/Migrations/Run.antt =====
-- `upgrade`, `downgrade` and the advisory lock of gemstone_py/migrations.py.
pub mod Execute
pub mod Progress
pub mod Guards
mod Tests
use gemstone_py.Prelude.{
  ℕ, String, string_eq, Option, none, some, Bool, true, false, not, ◌&&◌, List, [], ◌∷◌, ◌++◌, ◌==◌,
  ltb, if◌then◌else◌,
}
use gemstone_py.Prelude.Dict.{Dict, keys, lookup, insert, erase}
use gemstone_py.Prelude.Action.{Action, ◌>>=◌, ◌>>◌, pure, raise}
use gemstone_py.Prelude.Exec.{Result, ok, err}
use gemstone_py.Session.{Fault, other_exception}
use gemstone_py.Migrations.{
  MigrationStep, MigrationError, ids, no_downgrade, no_callback, lock_held, lock_not_ours,
  lock_commit_failed, unlock_commit_failed, step_failed, rollback_failed,
}
use gemstone_py.Migrations.Plan.{
  AppliedTable, plan_upgrade, plan_downgrade, validate_migration_state,
}
use gemstone_py.Migrations.Stored.{
  StoredTable, StoredLock, field_or, normalize_applied_table, normalize_lock, default_lock_root,
  applied_record,
}

pub record MigrationLock : Type 0 where
  pub key : String
  pub owner : String
  pub acquired_at : String
  pub root_key : String

-- The session, what it stores for the migrations, the callbacks of type `C`, and the clock.
-- `lock_age` is the age of a lock from the text of its time, `none` for a text that is no time, and
-- `rehearse` is what a callback writes into a `RecordingMigrationSession`.
pub record MigrationApi (C : Type 0) : Type 1 where
  pub World : Type 0
  pub call : C → Action World Fault (Unit {0})
  pub rehearse : C → Result Fault (List String)
  pub commit : Action World Fault (Unit {0})
  pub abort : Action World Fault (Unit {0})
  pub read_table : String → Action World Fault StoredTable
  pub write_table : String → AppliedTable → Action World Fault (Unit {0})
  pub read_lock : String → Action World Fault (Option StoredLock)
  pub write_lock : MigrationLock → Action World Fault (Unit {0})
  pub delete_lock : String → Action World Fault (Unit {0})
  pub utcnow : Action World Fault String
  pub lock_age : String → Action World Fault (Option ℕ)
  pub default_owner : String

-- The keyword arguments.
pub record RunOptions : Type 0 where
  pub target : Option String
  pub dry_run : Bool
  pub root_key : String
  pub use_lock : Bool
  pub lock_key : Option String
  pub lock_owner : Option String
  pub lock_stale_after_seconds : Option ℕ
  pub force_lock : Bool
  pub record_dry_run : Bool

pub data Direction : Type 0 where
  upward downward : Direction

-- A line that the recorder holds: the comment of a step, or a call.
pub data Operation : Type 0 where
  comment : Direction → String → Operation
  recorded : String → Operation

pub record MigrationResult : Type 0 where
  pub direction : Direction
  pub target : Option String
  pub step_ids : List String
  pub dry_run : Bool
  pub operations : List Operation

pub data RunError : Type 0 where
  migration_error : MigrationError → RunError
  call_raised : Fault → RunError

-- `text or default`
abbrev pub or_text : Option String → String → String
or_text none default = default
or_text (some text) default = if text == "" then default else text

abbrev pub checked : {A : Type 0} → Result MigrationError A → Result RunError A
checked (ok a) = ok a
checked (err e) = err (migration_error e)

module _ {C : Type 0} (api : MigrationApi C) where
  open api use {
    World, call, rehearse, commit, abort, read_table, write_table, read_lock, write_lock,
    delete_lock, utcnow, lock_age, default_owner,
  }

  module _ {A : Type 0} where
    abbrev pub lift : Action World Fault A → Action World RunError A
    lift m w = (elim (m w).0 [ ok a ↦ ok a | err e ↦ err (call_raised e) ], (m w).1)

    abbrev pub returning : Result MigrationError A → Action World RunError A
    returning r w = (checked r, w)

    -- `try: m() except Exception: session.abort(); raise MigrationError(...)`
    unfoldable pub guarded : MigrationError → Action World Fault A → Action World RunError A
    guarded e m w =
        let (r, w1) = m w in
        elim r [
          | ok a ↦ (ok a, w1)
          | err _ ↦
              let (aborted, w2) = abort w1 in
              elim aborted [
                | ok _ ↦ (err (migration_error e), w2)
                | err x ↦ (err (call_raised x), w2)
              ]
        ]

  -- `_lock_is_stale`
  unfoldable pub lock_is_stale : Dict String String → Option ℕ → Action World RunError Bool
  lock_is_stale existing none = pure false
  lock_is_stale existing (some limit) =
      if field_or "acquired_at" "" existing == ""
      then pure false
      else (lift (lock_age (field_or "acquired_at" "" existing)) >>= λ age.
          pure (elim age [ some a ↦ ltb limit a | none ↦ false ]))

  -- Whether the lock that was found keeps others out.
  unfoldable pub lock_blocks : Dict String String → Bool → Option ℕ → Action World RunError Bool
  lock_blocks [] force stale_after = pure false
  lock_blocks (field ∷ fields) true stale_after = pure false
  lock_blocks (field ∷ fields) false stale_after =
      lock_is_stale (field ∷ fields) stale_after >>= λ stale. pure (not stale)

  abbrev pub new_lock : RunOptions → String → String → MigrationLock
  new_lock o key stamp = record {
    key = key;
    owner = or_text o.lock_owner default_owner;
    acquired_at = stamp;
    root_key = o.root_key;
  }

  unfoldable pub take_lock : RunOptions → String → Action World RunError MigrationLock
  take_lock o key = lift utcnow >>= λ stamp.
      lift (write_lock (new_lock o key stamp))
      >> guarded (lock_commit_failed key) commit
      >> pure (new_lock o key stamp)

  unfoldable pub acquire_migration_lock : RunOptions → Action World RunError MigrationLock
  acquire_migration_lock o = lift (read_lock (or_text o.lock_key default_lock_root)) >>= λ stored.
      lock_blocks (normalize_lock stored) o.force_lock o.lock_stale_after_seconds >>= λ blocked.
      if blocked
      then returning (
          err (
            lock_held (or_text o.lock_key default_lock_root)
              (field_or "owner" "unknown" (normalize_lock stored))))
      else take_lock o (or_text o.lock_key default_lock_root)

  abbrev is_owner : MigrationLock → Dict String String → Bool
  is_owner lock existing = elim (lookup "owner" existing) [
    | some o ↦ o == lock.owner
    | none ↦ false
  ]

  unfoldable pub drop_lock :
      MigrationLock → Bool → Dict String String → Action World RunError (Unit {0})
  drop_lock lock force [] = pure tt
  drop_lock lock force (field ∷ fields) =
      if not force && not (is_owner lock (field ∷ fields))
      then returning
          (err (lock_not_ours lock.key (field_or "owner" "unknown" (field ∷ fields)) lock.owner))
      else (lift (delete_lock lock.key) >> guarded (unlock_commit_failed lock.key) commit)

  unfoldable pub release_migration_lock : MigrationLock → Bool → Action World RunError (Unit {0})
  release_migration_lock lock force =
      lift (read_lock lock.key) >>= λ stored. drop_lock lock force (normalize_lock stored)
