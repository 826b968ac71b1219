-- ===== src/Concurrency/Levels.antt =====
-- The nested level behind nested_transaction of gemstone_py/concurrency.py.
use gemstone_py.Prelude.{
  ℕ, suc, ◌≡◌, ◌≤◌, Bool, true, false, [], ◌∙◌, refl, ◌⊎◌, inl, inr, Bool-cases,
}
use gemstone_py.Prelude.Exec.{Result, ok, err}
use gemstone_py.Prelude.Action.{raise, ◌>>=◌}
use gemstone_py.Prelude.Texts.{Text, codes}
use gemstone_py.Client.{Gci, Client, ClientError}
use gemstone_py.Client.Marshal.{Marshalled, eval}
use gemstone_py.Concurrency.{
  Raised, session_error, commit_conflict, no_oop, body_exception, interrupt, Helper, session_result,
  evaluate, is_true, or_text, conflict_unless, end_level, nested_transaction,
}

module _ (g : Gci) (E : Type 0) (me : ℕ) (float_is_true : g.Float → Bool) (level : g.World → ℕ)
    (Ready : Client g → Type 0)
    (begins : (c : Client g) (value : Marshalled g.Float)
      → Ready c
      → (evaluate g E me float_is_true (codes "System beginNestedTransaction") c).0 ≡ ok value
      → Ready (evaluate g E me float_is_true (codes "System beginNestedTransaction") c).1
        × (level (evaluate g E me float_is_true (codes "System beginNestedTransaction") c).1.world
            ≡ suc (level c.world)))
    (aborts : (c : Client g) (n : ℕ) (value : Marshalled g.Float)
      → Ready c
      → level c.world ≡ suc n
      → 1 ≤ n
      → (evaluate g E me float_is_true (codes "System abortTransaction") c).0 ≡ ok value
      → level (evaluate g E me float_is_true (codes "System abortTransaction") c).1.world ≡ n)
    (commits : (c : Client g) (n : ℕ) (value : Marshalled g.Float)
      → Ready c
      → level c.world ≡ suc n
      → 1 ≤ n
      → (evaluate g E me float_is_true (codes "System commitTransaction") c).0 ≡ ok value
      → is_true g E me float_is_true value ≡ true
      → level (evaluate g E me float_is_true (codes "System commitTransaction") c).1.world
        ≡ n) where
  abbrev Outcome : Type 0 → Type 0
  Outcome A = Result (Raised g.Float E) A × Client g

  -- A block that raised is aborted and goes on raising; or the abort raised in its place.
  abbrev Aborted : {A : Type 0} → ℕ → Raised g.Float E → Client g → Outcome A → Type 0
  Aborted n e d out =
      ((out.0 ≡ err e) × (level out.1.world ≡ n))
      ⊎ ((x : ClientError) × ((evaluate g E me float_is_true (codes "System abortTransaction") d).0
            ≡ err (session_error x))
          × (out.0 ≡ err (session_error x)))

  -- The commit raised, or it was refused and the block raises.
  abbrev NotCommitted : {A : Type 0} → Client g → Outcome A → Type 0
  NotCommitted d out =
      ((x : ClientError) × ((evaluate g E me float_is_true (codes "System commitTransaction") d).0
          ≡ err (session_error x))
        × (out.0 ≡ err (session_error x)))
      ⊎ ((value : Marshalled g.Float) × ((evaluate g E me float_is_true
              (codes "System commitTransaction") d).0
            ≡ ok value)
          × (is_true g E me float_is_true value ≡ false)
          × ((e : Raised g.Float E) × (out.0 ≡ err e)))

  -- What a block comes to that found the level at `n`, by what its body came to in the session `d`.
  abbrev pub Ended : {A : Type 0} → ℕ → Result (Raised g.Float E) A → Client g → Outcome A → Type 0
  Ended n (ok a) d out = ((out.0 ≡ ok a) × (level out.1.world ≡ n)) ⊎ NotCommitted d out
  Ended n (err (interrupt e)) d out = (out.0 ≡ err (interrupt e)) × (level out.1.world ≡ suc n)
  Ended n (err (body_exception e)) d out = Aborted n (body_exception e) d out
  Ended n (err (session_error e)) d out = Aborted n (session_error e) d out
  Ended n (err (commit_conflict report ww wd)) d out =
      Aborted n (commit_conflict report ww wd) d out
  Ended n (err no_oop) d out = Aborted n no_oop d out

  session_result_cases :
      {A : Type 0} (x : Result ClientError A × Client g)
      → ((a : A) × ((session_result g E me float_is_true x).0 ≡ ok a))
        ⊎ ((e : ClientError) × ((session_result g E me float_is_true x).0 ≡ err (session_error e)))
  unfolding session_result
  session_result_cases (ok a, c) = inl (a, refl)
  session_result_cases (err e, c) = inr (e, refl)

  evaluate_cases :
      (source : Text) (c : Client g)
      → ((value : Marshalled g.Float) × ((evaluate g E me float_is_true source c).0 ≡ ok value))
        ⊎ ((e : ClientError) × ((evaluate g E me float_is_true source c).0 ≡ err (session_error e)))
  evaluate_cases source c = session_result_cases (eval g me source c)

  conflict_raised :
      {A : Type 0} (f : Unit {0} → Helper g E me float_is_true A) (d : Client g)
      → (e : Raised g.Float E) × (((conflict_unless g E me float_is_true false >>= f) d).0 ≡ err e)
  unfolding conflict_unless
  conflict_raised f d = elim (evaluate_cases (codes "System conflictReportString") d) [
    | inl (report, p) ↦ (
      commit_conflict (or_text g E me float_is_true report (codes "Nested commit conflict")) [] [],
      rw p refl,
    )
    | inr (e, p) ↦ (session_error e, rw p refl)
  ]

  end_level_ok :
      {A : Type 0} (a : A) (n : ℕ) (d : Client g)
      → Ready d
      → level d.world ≡ suc n
      → 1 ≤ n
      → Ended n (ok a) d (end_level g E me float_is_true (ok a) d)
  unfolding end_level
  end_level_ok a n d ready at in_one = elim (evaluate_cases (codes "System commitTransaction") d) [
    | inl (value, p) ↦ elim (Bool-cases (is_true g E me float_is_true value)) [
      | inl committed ↦
          inl (
            rw (p, committed, conflict_unless)
              (refl, commits d n value ready at in_one p committed))
      | inr refused ↦ inr (inr (value, p, refused, rw (p, refused) (conflict_raised _ _)))
    ]
    | inr (e, p) ↦ inr (inl (e, p, rw p refl))
  ]

  -- The abort behind an exception of the body.
  aborted_lem :
      (A : Type 0) (e : Raised g.Float E) (n : ℕ) (d : Client g)
      → Ready d
      → level d.world ≡ suc n
      → 1 ≤ n
      → Aborted {A = A} n e d
          ((evaluate g E me float_is_true (codes "System abortTransaction") >>= λ _. raise e) d)
  aborted_lem A e n d ready at in_one = elim (evaluate_cases (codes "System abortTransaction") d) [
    | inl (value, p) ↦ inl (rw p (refl, aborts d n value ready at in_one p))
    | inr (x, p) ↦ inr (x, p, rw p refl)
  ]

  end_level_lem :
      {A : Type 0} (r : Result (Raised g.Float E) A) (n : ℕ) (d : Client g)
      → Ready d
      → level d.world ≡ suc n
      → 1 ≤ n
      → Ended n r d (end_level g E me float_is_true r d)
  unfolding end_level
  end_level_lem (ok a) n d ready at one = end_level_ok a n d ready at one
  end_level_lem (err (interrupt e)) n d ready at one = (refl, at)
  end_level_lem (err (body_exception e)) n d ready at one =
      aborted_lem _ (body_exception e) n d ready at one
  end_level_lem (err (session_error e)) n d ready at one =
      aborted_lem _ (session_error e) n d ready at one
  end_level_lem (err (commit_conflict report ww wd)) n d ready at one =
      aborted_lem _ (commit_conflict report ww wd) n d ready at one
  end_level_lem (err no_oop) n d ready at one = aborted_lem _ no_oop n d ready at one

  -- The begin raised, and the body was not run; or the block ended, by what its body came to.
  abbrev pub Nested : {A : Type 0} → Helper g E me float_is_true A → Client g → Outcome A → Type 0
  Nested body c out =
      let begun = evaluate g E me float_is_true (codes "System beginNestedTransaction") c in
      ((x : ClientError) × (begun.0 ≡ err (session_error x))
        × (out ≡ (err (session_error x), begun.1)))
      ⊎ Ended (level c.world) (body begun.1).0 (body begun.1).1 out

  -- Where a begin raises the level, an abort and a commit that succeeds lower a nested one, and
  -- the body keeps the level, a nested transaction begun inside a transaction ends at the level
  -- that it found if it returns, or goes on raising an exception of the body after its abort; a
  -- body that was interrupted, by a KeyboardInterrupt say, leaves it one level higher.
  -- Otherwise the begin, the abort or the commit raised, and so does the block, or the commit
  -- was refused, and the block raises.
  pub nested_transaction_level :
      {A : Type 0} (body : Helper g E me float_is_true A)
      → ((c : Client g) → Ready c → Ready (body c).1 × (level (body c).1.world ≡ level c.world))
      → (c : Client g) → Ready c
      → 1 ≤ level c.world
      → Nested body c (nested_transaction g E me float_is_true body c)
  unfolding nested_transaction
  nested_transaction_level body keeps c ready in_one =
      elim (evaluate_cases (codes "System beginNestedTransaction") c) [
        | inl (value, p) ↦
            let begun = begins c value ready p in
            let kept = keeps _ begun.0 in
            inr (rw p (end_level_lem _ _ _ kept.0 (kept.1 ∙ begun.1) in_one))
        | inr (e, p) ↦ inl (e, p, rw p refl)
      ]
