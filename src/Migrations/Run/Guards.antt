-- ===== src/Migrations/Run/Guards.antt =====
-- What the lock and a dry run keep from happening.
use gemstone_py.Prelude.{
  String, ◌≡◌, refl, ap, ◌∙◌, ◌⊎◌, inl, inr, true, false, not, List, [], ◌∷◌, Bool-cases,
}
use gemstone_py.Prelude.Dict.{Dict, keys}
use gemstone_py.Prelude.Action.{Action, ◌>>=◌, ◌>>◌, pure, >>=-returns}
use gemstone_py.Prelude.Exec.{Result, ok, Result-cases}
use gemstone_py.Session.{Fault}
use gemstone_py.Migrations.{MigrationStep, MigrationError, lock_commit_failed}
use gemstone_py.Migrations.Plan.{plan_upgrade, plan_downgrade, validate_migration_state}
use gemstone_py.Migrations.Stored.{normalize_applied_table, normalize_lock, default_lock_root}
use gemstone_py.Migrations.Run.{
  MigrationLock, MigrationApi, RunOptions, RunError, or_text, lift, returning, guarded,
  lock_is_stale, lock_blocks, new_lock, take_lock, acquire_migration_lock,
}
use gemstone_py.Migrations.Run.Execute.{
  read_applied, rehearsal, upgrade, downgrade, irreversible, all_reversible,
}

module _ {C : Type 0} (api : MigrationApi C) where
  open api use {World, commit, abort, read_table, read_lock}

  -- An action that leaves the world as it is.
  abbrev IsQuiet : {A : Type 0} → Action World RunError A → Type 0
  IsQuiet m = (w : World) → (m w).1 ≡ w

  >>=-IsQuiet :
      {A B : Type 0} (m : Action World RunError A) (f : A → Action World RunError B)
      → IsQuiet m
      → ((a : A) → IsQuiet (f a))
      → IsQuiet (m >>= f)
  >>=-IsQuiet m f h k w = elim (Result-cases (m w).0) [
    | inl (a, e) ↦ rw e (k a (m w).1 ∙ h w)
    | inr (x, e) ↦ rw e (h w)
  ]

  after_read :
      {B : Type 0} (root_key : String) (f : _ → Action World RunError B)
      → ((t : _) → IsQuiet (f t))
      → (w : World) → ((read_applied api root_key >>= f) w).1 ≡ (read_table root_key w).1
  unfolding read_applied
  after_read root_key f k w = elim (Result-cases (read_table root_key w).0) [
    | inr (x, e) ↦ rw (e, read_applied)
    | inl (stored, e) ↦
        let n = normalize_applied_table stored in
        elim (Result-cases n) [
          | inl (t, d) ↦ rw (e, d, read_applied) (k t (read_table root_key w).1)
          | inr (x, d) ↦ rw (e, d, read_applied)
        ]
  ]

  -- A dry run of `upgrade` or `downgrade`, whatever comes of it, leaves the world that the
  -- read of the version table left: it makes no other call on the session.
  dry_run_reads :
      (o : RunOptions) (steps : List (MigrationStep C)) (w : World)
      → o.dry_run ≡ true
      → ((upgrade api o steps w).1 ≡ (read_table o.root_key w).1)
        × ((downgrade api o steps w).1 ≡ (read_table o.root_key w).1)
  unfolding upgrade downgrade rehearsal
  dry_run_reads o steps w dry = (
    after_read o.root_key _
        (λ t.
          >>=-IsQuiet (returning api (validate_migration_state steps t)) _ (λ v. refl)
            (λ ordered.
              >>=-IsQuiet (returning api (plan_upgrade ordered (keys t) o.target)) _ (λ v. refl)
                (λ pending v. rw dry)))
        w,
    after_read o.root_key _
        (λ t.
          >>=-IsQuiet (returning api (validate_migration_state steps t)) _ (λ v. refl)
            (λ ordered.
              >>=-IsQuiet (returning api (plan_downgrade ordered (keys t) o.target)) _ (λ v. refl)
                (λ pending.
                  >>=-IsQuiet (returning api (all_reversible api (irreversible api pending))) _
                    (λ v. refl) (λ _ v. rw dry))))
        w,
  )

  -- The lock that was found does not keep the caller out: there is none, the caller forces it, or it
  -- is stale.
  abbrev pub IsFree : RunOptions → Dict String String → World → Type 0
  IsFree o existing w =
      (existing ≡ [])
      ⊎ ((o.force_lock ≡ true)
          ⊎ ((w' : World) × (lock_is_stale api existing o.lock_stale_after_seconds w
                ≡ (ok true, w'))))

  lock_blocks-IsFree :
      (o : RunOptions) (existing : Dict String String) (w w' : World)
      → lock_blocks api existing o.force_lock o.lock_stale_after_seconds w ≡ (ok false, w')
      → IsFree o existing w
  unfolding lock_blocks
  lock_blocks-IsFree o [] w w' h = inl refl
  lock_blocks-IsFree o (f ∷ fs) w w' h = elim (Bool-cases o.force_lock) [
    | inl e ↦ inr (inl e)
    | inr e ↦
        let (stale, w1, q, r) =
          >>=-returns (lock_is_stale api (f ∷ fs) o.lock_stale_after_seconds)
            (λ stale. pure (not stale)) w (rw (e, lock_blocks) at h) in
        elim (Bool-cases stale) [ inl d ↦ inr (inr (w1, (rw d at q))) | inr d ↦ cc (rw d at r) ]
  ]

  lift-ok :
      {A : Type 0} (m : Action World Fault A) (w w' : World) (a : A)
      → lift api m w ≡ (ok a, w')
      → m w ≡ (ok a, w')
  lift-ok m w w' a h = elim (Result-cases (m w).0) [
    | inl (b, e) ↦ let q = rw e at h in (λ i. (e i, (m w).1)) ∙ cc
    | inr (x, e) ↦ cc (rw e at h)
  ]

  guarded-ok :
      (x : MigrationError) (w w' : World)
      → guarded api x commit w ≡ (ok tt, w')
      → commit w ≡ (ok tt, w')
  unfolding guarded
  guarded-ok x w w' h = elim (Result-cases (commit w).0) [
    | inl (a, e) ↦ (λ i. (e i, (commit w).1)) ∙ ap back (rw (e, guarded) at h)
    | inr (y, e) ↦ elim (Result-cases (abort (commit w).1).0) [
      | inl (b, d) ↦ cc (rw (e, d, guarded) at h)
      | inr (z, d) ↦ cc (rw (e, d, guarded) at h)
    ]
  ]
    where
      back : Result RunError (Unit {0}) × World → Result Fault (Unit {0}) × World
      back (r, v) = (ok tt, v)

  take_lock-commits :
      (o : RunOptions) (key : String) (lock : MigrationLock) (w w' : World)
      → take_lock api o key w ≡ (ok lock, w')
      → (v : World) × (commit v ≡ (ok tt, w'))
  unfolding take_lock
  take_lock-commits o key lock w w' h =
      let (stamp, w1, clock, r) = >>=-returns (lift api api.utcnow) _ w h in
      let (a, w2, stored, q) =
        >>=-returns
          (lift api (api.write_lock (new_lock api o key stamp))
            >> guarded api (lock_commit_failed key) commit)
          _ w1 r in
      let (b, w3, put, p) =
        >>=-returns (lift api (api.write_lock (new_lock api o key stamp)))
          (λ _. guarded api (lock_commit_failed key) commit) w1 stored in
      (w3, guarded-ok (lock_commit_failed key) w3 w2 p ∙ ap (λ z. (ok tt, z.1)) q)

  -- A lock is returned only if the lock that was found left the way free (there is none, the
  -- caller forces it, or it is stale), and the last call was a commit that succeeded.
  pub acquire_migration_lock_lem :
      (o : RunOptions) (lock : MigrationLock) (w w' : World)
      → acquire_migration_lock api o w ≡ (ok lock, w')
      → (stored : _) × (v : World) × (u : World) × (read_lock
            (or_text o.lock_key default_lock_root)
            w
          ≡ (ok stored, v))
        × IsFree o (normalize_lock stored) v
        × (commit u ≡ (ok tt, w'))
  unfolding acquire_migration_lock
  acquire_migration_lock_lem o lock w w' h =
      let key = or_text o.lock_key default_lock_root in
      let (stored, v, found, r) = >>=-returns (lift api (read_lock key)) _ w h in
      let (blocked, v', asked, q) =
        >>=-returns
          (lock_blocks api (normalize_lock stored) o.force_lock o.lock_stale_after_seconds) _ v r in
      elim (Bool-cases blocked) [
        | inl e ↦ cc (rw e at q)
        | inr e ↦
            let (u, done) = take_lock-commits o key lock v' w' (rw e at q) in
            (
              stored,
              v,
              u,
              lift-ok (read_lock key) w v stored found,
              lock_blocks-IsFree o (normalize_lock stored) v v' (rw e at asked),
              done,
            )
      ]
