-- ===== src/Migrations/Class/Commits.antt =====
-- What the commit with retries makes durable.
use mathlib.Core.List.{append-nil}
use gemstone_py.Prelude.{ℕ, zero, suc, ◌≡◌, refl, ◌∙◌, List, [], ◌++◌, nat_eq, inl, inr}
use gemstone_py.Prelude.Exec.{Result, ok, err, Result-cases}
use gemstone_py.Prelude.Action.{◌>>◌}
use gemstone_py.Session.{Fault, commit_conflict, gemstone_error, runtime_error, other_exception}
use gemstone_py.Migrations.Class.{
  ClassApi, Migration, Run, call, after_commit, commit_attempts, commit_with_retry,
}

-- The changes of the session, of type `C`: those that a commit has made durable, and those that it has
-- written since the last commit or abort.
pub record Transactions (api : ClassApi) (C : Type 0) : Type 0 where
  pub durable : api.World → List C
  pub pending : api.World → List C
  pub commit_returned :
      (w : api.World)
      → (api.commit w).0 ≡ ok tt
      → (durable (api.commit w).1 ≡ durable w ++ pending w) × (pending (api.commit w).1 ≡ [])
  pub commit_raised :
      (w : api.World) (e : Fault) → (api.commit w).0 ≡ err e → durable (api.commit w).1 ≡ durable w
  pub abort_returned : (w : api.World) → (api.abort w).0 ≡ ok tt → pending (api.abort w).1 ≡ []
  pub abort_durable : (w : api.World) → durable (api.abort w).1 ≡ durable w

module _ (api : ClassApi) {C : Type 0} (t : Transactions api C) where
  -- The action makes nothing durable where nothing is pending.
  abbrev CommitsPending : Run api (Unit {0}) → Type 0
  CommitsPending m = (v : api.World) → t.pending v ≡ [] → t.durable (m v).1 ≡ t.durable v

  retry_after_abort :
      (rest : Run api (Unit {0})) (v : api.World)
      → CommitsPending rest
      → t.durable ((call api api.abort >> rest) v).1 ≡ t.durable v
  unfolding call
  retry_after_abort rest v h = elim (Result-cases (api.abort v).0) [
    | inl (a, e) ↦ rw e (h (api.abort v).1 (t.abort_returned v e) ∙ t.abort_durable v)
    | inr (x, e) ↦ rw e (t.abort_durable v)
  ]

  -- What follows a commit makes nothing durable, since an abort stands before the next one.
  after_commit-durable :
      (n left : ℕ) (rest : Run api (Unit {0}))
      → CommitsPending rest
      → (r : Result Fault (Unit {0})) (v : api.World)
      → t.durable (after_commit api n left rest r v).1 ≡ t.durable v
  unfolding after_commit
  after_commit-durable n left rest h (ok a) v = refl
  after_commit-durable n zero rest h (err (commit_conflict rs ws)) v = refl
  after_commit-durable n (suc left) rest h (err (commit_conflict rs ws)) v =
      retry_after_abort rest v h
  after_commit-durable n zero rest h (err (gemstone_error k)) v = refl
  after_commit-durable n (suc left) rest h (err (gemstone_error k)) v = refl
  after_commit-durable n zero rest h (err runtime_error) v = refl
  after_commit-durable n (suc left) rest h (err runtime_error) v = refl
  after_commit-durable n zero rest h (err (other_exception k)) v = refl
  after_commit-durable n (suc left) rest h (err (other_exception k)) v = refl

  clean_attempts : (n left : ℕ) → CommitsPending (commit_attempts api n left)
  unfolding commit_attempts
  clean_attempts n zero w h = refl
  clean_attempts n (suc left) w h =
      after_commit-durable n left (commit_attempts api n left) (clean_attempts n left)
        (api.commit w).0 (api.commit w).1
      ∙ elim (Result-cases (api.commit w).0) [
        | inl (a, e) ↦ (t.commit_returned w e).0 ∙ rw h (append-nil (t.durable w))
        | inr (x, e) ↦ t.commit_raised w x e
      ]

  -- What the first commit has made of the changes.
  abbrev pub first_commit : api.World → List C
  first_commit w = elim (api.commit w).0 as (λ _. List C) [
    | ok a ↦ t.durable w ++ t.pending w
    | err e ↦ t.durable w
  ]

  attempts_lem :
      (n left : ℕ) (w : api.World)
      → t.durable (commit_attempts api n (suc left) w).1 ≡ first_commit w
  unfolding commit_attempts
  attempts_lem n left w =
      after_commit-durable n left (commit_attempts api n left) (clean_attempts n left)
        (api.commit w).0 (api.commit w).1
      ∙ elim (Result-cases (api.commit w).0) [
        | inl (a, e) ↦ rw (e, first_commit) (t.commit_returned w e).0
        | inr (x, e) ↦ rw (e, first_commit) (t.commit_raised w x e)
      ]

  -- With at least one attempt, the commit with retries of a class-style migration makes the
  -- pending changes durable if its first commit returns, and nothing at all if that raises,
  -- whatever it returns or raises later. A commit is taken to make durable what is pending if
  -- it returns, and an abort to drop it.
  pub commit_with_retry-durable :
      (mig : Migration api) (n : ℕ) (w : api.World)
      → mig.max_retries ≡ suc n
      → t.durable (commit_with_retry api mig w).1 ≡ first_commit w
  unfolding commit_with_retry
  commit_with_retry-durable mig n w h = rw h (attempts_lem (suc n) n w)
