-- ===== src/Migrations/Run/Progress.antt =====
-- What the loops of `upgrade` and `downgrade` have made durable when they end, however they end.
use gemstone_py.Prelude.{
  String, string_eq, ◌≡◌, refl, sym, ap, subst, ◌∙◌, ◌⊎◌, inl, inr, Option, none, some, List, [],
  ◌∷◌, ◌++◌,
}
use gemstone_py.Prelude.Dict.{insert, erase}
use gemstone_py.Prelude.Action.{Action, ◌>>◌, pure}
use gemstone_py.Prelude.Exec.{Result, ok, err, Result-cases}
use gemstone_py.Session.{Fault}
use gemstone_py.Migrations.{MigrationStep, MigrationError, step_failed, rollback_failed}
use gemstone_py.Migrations.Plan.{AppliedTable}
use gemstone_py.Migrations.Stored.{applied_record}
use gemstone_py.Migrations.Run.{MigrationApi, RunError, migration_error, call_raised, guarded}
use gemstone_py.Migrations.Run.Execute.{apply_step, undo_step, call_downgrade, run_steps}

module _ {C : Type 0} (api : MigrationApi C) (durable current : api.World → AppliedTable) where
  open api use {World, call, commit, abort, write_table, utcnow}

  -- The version table, as committed and as the session sees it: a commit that returns makes the one
  -- the other, and no other call makes a change durable, a commit that raises neither.
  pub record IsTransactional (root_key : String) : Type 0 where
    pub call-durable : (c : C) (w : World) → durable (call c w).1 ≡ durable w
    pub utcnow-durable : (w : World) → durable (utcnow w).1 ≡ durable w
    pub write-durable :
        (t : AppliedTable) (w : World) → durable (write_table root_key t w).1 ≡ durable w
    pub write-current :
        (t : AppliedTable) (w w' : World) → write_table root_key t w ≡ (ok tt, w') → current w' ≡ t
    pub abort-durable : (w : World) → durable (abort w).1 ≡ durable w
    pub commit-durable : (w w' : World) → commit w ≡ (ok tt, w') → durable w' ≡ current w
    pub commit_raised-durable :
        (e : Fault) (w w' : World) → commit w ≡ (err e, w') → durable w' ≡ durable w

  -- The table after some steps, each of which changed it by `Changes`.
  abbrev Recorded :
      (MigrationStep C → AppliedTable → AppliedTable → Type 0)
      → AppliedTable
      → List (MigrationStep C)
      → AppliedTable
      → Type 0
  Recorded Changes t [] t' = t' ≡ t
  Recorded Changes t (s ∷ ss) t' = (u : AppliedTable) × Changes s t u × Recorded Changes u ss t'

  -- The loop ended with all the steps recorded; or with those before one that failed, which the
  -- error names unless it is the error of the abort.
  abbrev pub Progress :
      (MigrationStep C → AppliedTable → AppliedTable → Type 0)
      → (String → MigrationError)
      → AppliedTable
      → List (MigrationStep C)
      → Result RunError AppliedTable × World
      → Type 0
  Progress Changes failure t ss (ok t', w) = (t' ≡ durable w) × Recorded Changes t ss (durable w)
  Progress Changes failure t ss (err e, w) =
      (done : List (MigrationStep C)) × (s : MigrationStep C) × (rest : List (MigrationStep C))
      × (ss ≡ done ++ s ∷ rest)
      × Recorded Changes t done (durable w)
      × ((e ≡ migration_error (failure s.id)) ⊎ ((x : Fault) × (e ≡ call_raised x)))

  -- A step returned the changed table, which is committed, or it raised, with the old one committed.
  abbrev Ended :
      (MigrationStep C → AppliedTable → AppliedTable → Type 0)
      → MigrationStep C
      → AppliedTable
      → Result Fault AppliedTable × World
      → Type 0
  Ended Changes s t (ok u, w) = Changes s t u × (durable w ≡ u)
  Ended Changes s t (err e, w) = durable w ≡ t

  -- What the body of the loop does for one step.
  abbrev pub Step :
      (MigrationStep C → AppliedTable → AppliedTable → Type 0)
      → (MigrationStep C → AppliedTable → Action World Fault AppliedTable)
      → Type 0
  Step Changes run =
      (s : MigrationStep C) (t : AppliedTable) (w : World)
      → durable w ≡ t
      → Ended Changes s t (run s t w)

  module _ (Changes : MigrationStep C → AppliedTable → AppliedTable → Type 0)
      (failure : String → MigrationError) where
    extend :
        (s : MigrationStep C) (ss : List (MigrationStep C)) (t u : AppliedTable)
        (r : Result RunError AppliedTable × World)
        → Changes s t u
        → Progress Changes failure u ss r
        → Progress Changes failure t (s ∷ ss) r
    extend s ss t u (ok t', w) c (e, h) = (e, (u, c, h))
    extend s ss t u (err x, w) c (done, s', rest, e, h, named) =
        (s ∷ done, s', rest, ap (λ l. s ∷ l) e, (u, c, h), named)

    stopped :
        (s : MigrationStep C) (ss : List (MigrationStep C)) (t : AppliedTable) (x : RunError)
        (w : World)
        → durable w ≡ t
        → (x ≡ migration_error (failure s.id)) ⊎ ((f : Fault) × (x ≡ call_raised f))
        → Progress Changes failure t (s ∷ ss) (err x, w)
    stopped s ss t x w e named = ([], s, ss, refl, e, named)

    run_steps-Progress :
        (run : MigrationStep C → AppliedTable → Action World Fault AppliedTable)
        → ((w : World) → durable (abort w).1 ≡ durable w)
        → Step Changes run
        → (ss : List (MigrationStep C)) (t : AppliedTable) (w : World) → durable w ≡ t
        → Progress Changes failure t ss (run_steps api run failure ss t w)
    unfolding run_steps guarded
    run_steps-Progress run aborts step [] t w e = (sym e, e)
    run_steps-Progress run aborts step (s ∷ ss) t w e =
        let done = step s t w e in
        let w1 = (run s t w).1 in
        elim (Result-cases (run s t w).0) [
          | inl (u, q) ↦
              let (changed, recorded) = rw q at done in
              rw (q, run_steps, guarded)
                (extend s ss t u _ changed (run_steps-Progress run aborts step ss u w1 recorded))
          | inr (x, q) ↦
              let kept = rw q at done in
              elim (Result-cases (abort w1).0) [
                | inl (a, d) ↦
                    rw (q, d, run_steps, guarded) (stopped s ss t _ _ (aborts w1 ∙ kept) (inl refl))
                | inr (y, d) ↦
                    rw (q, d, run_steps, guarded)
                      (stopped s ss t _ _ (aborts w1 ∙ kept) (inr (y, refl)))
              ]
        ]

  -- An applied step adds its row, with some time; an undone step takes its row away.
  abbrev pub Adds : MigrationStep C → AppliedTable → AppliedTable → Type 0
  Adds s t u = (stamp : String) × (u ≡ insert s.id (applied_record s stamp) t)

  abbrev pub Removes : MigrationStep C → AppliedTable → AppliedTable → Type 0
  Removes s t u = u ≡ erase s.id t

  module _ (root_key : String) (law : IsTransactional root_key) where
    -- The write of a table, and its commit.
    store : AppliedTable → Action World Fault AppliedTable
    store u = write_table root_key u >> commit >> pure u

    Stored : AppliedTable → AppliedTable → Result Fault AppliedTable × World → Type 0
    Stored t u (ok v, w) = (v ≡ u) × (durable w ≡ u)
    Stored t u (err e, w) = durable w ≡ t

    store-Stored : (t u : AppliedTable) (w : World) → durable w ≡ t → Stored t u (store u w)
    unfolding store Stored
    store-Stored t u w e = elim (Result-cases (write_table root_key u w).0) [
      | inr (x, q) ↦ rw (q, store) (law.write-durable u w ∙ e)
      | inl (a, q) ↦
          let w1 = (write_table root_key u w).1 in
          let seen = law.write-current u w w1 (λ i. (q i, w1)) in
          elim (Result-cases (commit w1).0) [
            | inr (x, d) ↦
                rw (q, d, store)
                  (law.commit_raised-durable x w1 (commit w1).1 (λ i. (d i, (commit w1).1))
                    ∙ law.write-durable u w
                    ∙ e)
            | inl (b, d) ↦
                rw (q, d, store)
                  (refl, law.commit-durable w1 (commit w1).1 (λ i. (d i, (commit w1).1)) ∙ seen)
          ]
    ]

    -- One step of either loop, as its store ends.
    finish :
        (Changes : MigrationStep C → AppliedTable → AppliedTable → Type 0) (s : MigrationStep C)
        (t u : AppliedTable) (r : Result Fault AppliedTable × World)
        → Changes s t u
        → Stored t u r
        → Ended Changes s t r
    unfolding Stored
    finish Changes s t u (ok v, w) c (p, q) = (subst (Changes s t) (sym p) c, q ∙ sym p)
    finish Changes s t u (err e, w) c h = h

    apply_step-Step : Step Adds (apply_step api root_key)
    unfolding apply_step store
    apply_step-Step s t w e = elim (Result-cases (call s.upgrade w).0) [
      | inr (x, q) ↦ rw (q, apply_step) (law.call-durable s.upgrade w ∙ e)
      | inl (a, q) ↦
          let w1 = (call s.upgrade w).1 in
          let called = law.call-durable s.upgrade w ∙ e in
          elim (Result-cases (utcnow w1).0) [
            | inr (x, d) ↦ rw (q, d, apply_step) (law.utcnow-durable w1 ∙ called)
            | inl (stamp, d) ↦
                let u = insert s.id (applied_record s stamp) t in
                let w2 = (utcnow w1).1 in
                rw (q, d, apply_step)
                  (finish Adds s t u (store u w2) (stamp, refl)
                    (store-Stored t u w2 (law.utcnow-durable w1 ∙ called)))
          ]
    ]

    call_downgrade-durable :
        (c : Option C) (w : World) → durable (call_downgrade api c w).1 ≡ durable w
    unfolding call_downgrade
    call_downgrade-durable none w = refl
    call_downgrade-durable (some c) w = law.call-durable c w

    undo_step-Step : Step Removes (undo_step api root_key)
    unfolding undo_step store
    undo_step-Step s t w e =
        let called = call_downgrade-durable s.downgrade w ∙ e in
        elim (Result-cases (call_downgrade api s.downgrade w).0) [
          | inr (x, q) ↦ rw (q, undo_step) called
          | inl (a, q) ↦
              let w1 = (call_downgrade api s.downgrade w).1 in
              rw (q, undo_step)
                (finish Removes s t (erase s.id t) (store (erase s.id t) w1) refl
                  (store-Stored t (erase s.id t) w1 called))
        ]

    -- However the loop of `upgrade` ends, the version table that is committed holds the rows of a
    -- prefix of the pending steps over the table before: of all of them if the loop returned, and
    -- else of those before the step that failed, which the error names, unless the abort raised too.
    -- The callbacks are taken not to commit.
    pub apply_steps-Progress :
        (pending : List (MigrationStep C)) (applied : AppliedTable) (w : World)
        → durable w ≡ applied
        → Progress Adds step_failed applied pending
            (run_steps api (apply_step api root_key) step_failed pending applied w)
    apply_steps-Progress pending applied w e =
        run_steps-Progress Adds step_failed (apply_step api root_key) law.abort-durable
          apply_step-Step pending applied w e

    -- However the loop of `downgrade` ends, the version table that is committed is the
    -- table before without the rows of a prefix of the pending steps: of all of them if the
    -- loop returned, and else of those before the step that failed, which the error names,
    -- unless the abort raised too. The callbacks are taken not to commit.
    pub undo_steps-Progress :
        (pending : List (MigrationStep C)) (applied : AppliedTable) (w : World)
        → durable w ≡ applied
        → Progress Removes rollback_failed applied pending
            (run_steps api (undo_step api root_key) rollback_failed pending applied w)
    undo_steps-Progress pending applied w e =
        run_steps-Progress Removes rollback_failed (undo_step api root_key) law.abort-durable
          undo_step-Step pending applied w e
