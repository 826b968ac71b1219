-- ===== src/GStore/Commit.antt =====
-- What `_commit_with_retry` has done when it ends.
use gemstone_py.Prelude.{ℕ, zero, suc, ◌<◌, String, ◌≡◌, refl, List, arith, inl, inr}
use gemstone_py.Prelude.Dict.{Dict}
use gemstone_py.Prelude.Action.{Action}
use gemstone_py.Prelude.Exec.{Result, ok, err, Result-cases}
use gemstone_py.Session.{Fault, commit_conflict, gemstone_error, runtime_error, other_exception}
use gemstone_py.GStore.{GStoreError, commit_failed, call_raised, Json, StoneApi}
use gemstone_py.GStore.Store.{write_file, commit_attempts, commit_with_retry, max_retries}

module _ (api : StoneApi) (json : Json) (filename : String) (dirty : Dict String json.Value)
    (deletes : List String) where
  open api use {World, abort, commit}

  abbrev write : Action World Fault (Unit {0})
  write = write_file api json filename dirty deletes

  -- A number of attempts that conflicted: each wrote the file, failed to commit it, and aborted.
  pub data Conflicts : ℕ → World → World → Type 0 where
    no_conflict : (w : World) → Conflicts 0 w w
    conflict :
        {n : ℕ} {w w1 w2 w3 v : World} (ww wd : List ℕ)
        → write w ≡ (ok tt, w1)
        → commit w1 ≡ (err (commit_conflict ww wd), w2)
        → abort w2 ≡ (ok tt, w3)
        → Conflicts n w3 v
        → Conflicts (suc n) w v

  -- The attempts end with a write and a commit of it, after fewer than `n` conflicts.
  abbrev Committed : ℕ → World → World → Type 0
  Committed n w w' =
      (k : ℕ) × (v : World) × (u : World) × (k < n)
      × Conflicts k w v
      × (write v ≡ (ok tt, u))
      × (commit u ≡ (ok tt, w'))

  abbrev pub Attempted : ℕ → World → Result GStoreError (Unit {0}) × World → Type 0
  Attempted n w (ok _, w') = Committed n w w'
  Attempted n w (err commit_failed, w') = Conflicts n w w'
  Attempted n w (err e, w') = (f : Fault) × (e ≡ call_raised f)

  more :
      (n : ℕ) (w w1 w2 w3 : World) (ww wd : List ℕ) (r : Result GStoreError (Unit {0}) × World)
      → write w ≡ (ok tt, w1)
      → commit w1 ≡ (err (commit_conflict ww wd), w2)
      → abort w2 ≡ (ok tt, w3)
      → Attempted n w3 r
      → Attempted (suc n) w r
  more n w w1 w2 w3 ww wd (ok a, w') h c b (k, v, u, l, t, x, y) =
      (suc k, v, u, omega arith, conflict ww wd h c b t, x, y)
  more n w w1 w2 w3 ww wd (err commit_failed, w') h c b t = conflict ww wd h c b t
  more n w w1 w2 w3 ww wd (err GStoreError.not_open, w') h c b t = t
  more n w w1 w2 w3 ww wd (err GStoreError.read_only_transaction, w') h c b t = t
  more n w w1 w2 w3 ww wd (err GStoreError.nested_transaction, w') h c b t = t
  more n w w1 w2 w3 ww wd (err (GStoreError.key_error k), w') h c b t = t
  more n w w1 w2 w3 ww wd (err (call_raised f), w') h c b t = t

  paired :
      (m : Action World Fault (Unit {0})) (w : World) (r : Result Fault (Unit {0}))
      → (m w).0 ≡ r
      → m w ≡ (r, (m w).1)
  paired m w r e = λ i. (e i, (m w).1)

  step-Attempted :
      (n : ℕ) (w : World) (x : Fault) (a : Unit {0})
      → (write w).0 ≡ ok a
      → (commit (write w).1).0 ≡ err x
      → ((v : World) → Attempted n v (commit_attempts api json n filename dirty deletes v))
      → Attempted (suc n) w (commit_attempts api json (suc n) filename dirty deletes w)
  unfolding commit_attempts
  step-Attempted n w (gemstone_error k) a e d rest =
      rw (e, d, commit_attempts) (gemstone_error k, refl)
  step-Attempted n w runtime_error a e d rest = rw (e, d, commit_attempts) (runtime_error, refl)
  step-Attempted n w (other_exception k) a e d rest =
      rw (e, d, commit_attempts) (other_exception k, refl)
  step-Attempted n w (commit_conflict ww wd) a e d rest =
      let w1 = (write w).1 in
      let w2 = (commit w1).1 in
      elim (Result-cases (abort w2).0) [
        | inl (b, f) ↦
            rw (e, d, f, commit_attempts)
              (more n w w1 w2 (abort w2).1 ww wd _ (paired write w _ e) (paired commit w1 _ d)
                (paired abort w2 _ f) (rest (abort w2).1))
        | inr (y, f) ↦ rw (e, d, f, commit_attempts) (y, refl)
      ]

  commit_attempts-Attempted :
      (n : ℕ) (w : World) → Attempted n w (commit_attempts api json n filename dirty deletes w)
  unfolding commit_attempts
  commit_attempts-Attempted zero w = no_conflict w
  commit_attempts-Attempted (suc n) w = elim (Result-cases (write w).0) [
    | inr (x, e) ↦ rw (e, commit_attempts) (x, refl)
    | inl (a, e) ↦ elim (Result-cases (commit (write w).1).0) [
      | inl (b, d) ↦
          rw (e, d, commit_attempts)
            (
              0,
              w,
              (write w).1,
              omega arith,
              no_conflict w,
              paired write w _ e,
              paired commit (write w).1 _ d,
            )
      | inr (x, d) ↦ step-Attempted n w x a e d (commit_attempts-Attempted n)
    ]
  ]

  -- The commit with retries returns only if its last attempt wrote the file and committed it, after
  -- fewer than ten attempts that conflicted and were aborted. It gives up only after ten such
  -- attempts, and any other error is that of a call.
  pub commit_with_retry_lem :
      (w : World) → Attempted max_retries w (commit_with_retry api json filename dirty deletes w)
  unfolding commit_with_retry
  commit_with_retry_lem w = commit_attempts-Attempted max_retries w
