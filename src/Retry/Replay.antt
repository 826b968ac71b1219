-- ===== src/Retry/Replay.antt =====
-- What a retried transaction has done when it returns.
use gemstone_py.Prelude.{
  ℕ, zero, suc, ◌+◌, ◌<◌, ◌≡◌, ap, subst, ◌∙◌, Option, none, some, true, ltb, arith, inl, inr,
  Bool-cases, if◌then◌else◌, Option-cases,
}
use gemstone_py.Prelude.Action.{Action, ◌>>=◌, ◌>>◌, pure, raise, >>=-returns}
use gemstone_py.Prelude.Exec.{Result, ok, err, Result-cases}
use gemstone_py.Session.{
  Fault, commit_conflict, gemstone_error, runtime_error, other_exception, SessionApi,
}
use gemstone_py.Scope.{manual}
use gemstone_py.Retry.{
  TransactionRetry, RetryError, exit_policy, exit_session, close_session, with_session,
  notify_conflict, work_and_commit, recover, try_once, run_attempts, run_on_existing_session,
  run_on_owned_sessions,
}

module _ (api : SessionApi) {A : Type 0} (work : api.Session → Action api.World Fault A)
    (on_conflict : Option (TransactionRetry → Action api.World Fault (Unit {0}))) where
  open api use {World, Session, commit, abort, logout}

  -- Rounds of the loop, from a given attempt, that went on with the next.
  pub data Rounds (once : ℕ → Action World Fault (Option A)) : ℕ → ℕ → World → World → Type 0 where
    no_round : (attempt : ℕ) (w : World) → Rounds once 0 attempt w w
    round :
        {n : ℕ} (attempt : ℕ) {w w1 v : World}
        → once attempt w ≡ (ok none, w1)
        → Rounds once n (attempt + 1) w1 v
        → Rounds once (suc n) attempt w v

  -- The loop returned a value of its last round, after fewer than `n` others.
  abbrev Replayed : (ℕ → Action World Fault (Option A)) → ℕ → ℕ → World → A → World → Type 0
  Replayed once n attempt w a w' =
      (k : ℕ) × (v : World) × (k < n)
      × Rounds once k attempt w v
      × (once (attempt + k) v ≡ (ok (some a), w'))

  pub paired :
      {B : Type 0} (m : Action World Fault B) (w : World) (r : Result Fault B)
      → (m w).0 ≡ r
      → m w ≡ (r, (m w).1)
  paired m w r e = λ i. (e i, (m w).1)

  as_round : Result RetryError A × World → Result Fault (Option A) × World
  as_round (ok a, w) = (ok (some a), w)
  as_round (err e, w) = (err runtime_error, w)

  run_attempts-Replayed :
      (once : ℕ → Action World Fault (Option A)) (n attempt : ℕ) (w : World) (a : A) (w' : World)
      → run_attempts api work on_conflict once n attempt w ≡ (ok a, w')
      → Replayed once n attempt w a w'
  unfolding run_attempts as_round
  run_attempts-Replayed once zero attempt w a w' h = cc
  run_attempts-Replayed once (suc n) attempt w a w' h = elim (Result-cases (once attempt w).0) [
    | inr (x, e) ↦ cc (rw (e, run_attempts) at h)
    | inl (o, e) ↦ elim (Option-cases o) [
      | inl q ↦
          let r =
            run_attempts-Replayed once n (attempt + 1) (once attempt w).1 a w'
              (rw (e, q, run_attempts) at h) in
          let (k, v, l, rounds, last) = r in
          (
            suc k,
            v,
            omega arith,
            round attempt (paired (once attempt) w _ e ∙ ap (λ p. (ok p, (once attempt w).1)) q)
                rounds,
            subst (λ m. once m v ≡ (ok (some a), w')) (omega arith) last,
          )
      | inr (b, q) ↦ (
        0,
        w,
        omega arith,
        no_round attempt w,
        subst (λ m. once m w ≡ (ok (some a), w')) (omega arith)
            (paired (once attempt) w _ e
              ∙ ap (λ p. (ok p, (once attempt w).1)) q
              ∙ ap as_round (rw (e, q, run_attempts) at h)),
      )
    ]
  ]

  -- The handlers return only to go on with the loop, and not after the last attempt.
  pub recover-none :
      (s : Session) (attempts attempt : ℕ) (x : Fault) (w w' : World) (o : Option A)
      → recover api work on_conflict s attempts attempt x w ≡ (ok o, w')
      → (o ≡ none) × (ltb attempt attempts ≡ true)
  unfolding recover
  recover-none s attempts attempt (commit_conflict ww wd) w w' o h =
      let retry : TransactionRetry = record {
        attempt = attempt;
        attempts = attempts;
        ww_oops = ww;
        wd_oops = wd;
      } in
      let (u, w1, aborted, r) =
        >>=-returns (notify_conflict api work on_conflict retry >> abort s)
          (λ _. if ltb attempt attempts then pure none else raise (commit_conflict ww wd)) w h in
      elim (Bool-cases (ltb attempt attempts)) [
        | inl e ↦ (ground (arith, rw e at r), e)
        | inr e ↦ cc (rw e at r)
      ]
  recover-none s attempts attempt (gemstone_error k) w w' o h =
      let (u, w1, aborted, r) = >>=-returns (abort s) _ w h in cc
  recover-none s attempts attempt runtime_error w w' o h =
      let (u, w1, aborted, r) = >>=-returns (abort s) _ w h in cc
  recover-none s attempts attempt (other_exception k) w w' o h =
      let (u, w1, aborted, r) = >>=-returns (abort s) _ w h in cc

  try_once-some :
      (s : Session) (attempts attempt : ℕ) (w w' : World) (a : A)
      → try_once api work on_conflict attempts attempt s w ≡ (ok (some a), w')
      → (u : World) × (work s w ≡ (ok a, u)) × (commit s u ≡ (ok tt, w'))
  unfolding try_once work_and_commit
  try_once-some s attempts attempt w w' a h =
      elim (Result-cases (work_and_commit api work on_conflict s w).0) [
        | inr (x, e) ↦
            let (empty, l) =
              recover-none s attempts attempt x (work_and_commit api work on_conflict s w).1 w'
                (some a) (rw (e, try_once) at h) in
            cc
        | inl (b, e) ↦
            let (c, u, worked, r) =
              >>=-returns (work s) (λ a. commit s >> pure a) w
                (paired (work_and_commit api work on_conflict s) w _ e) in
            let (d, v, committed, r') = >>=-returns (commit s) (λ _. pure c) u r in
            let q = rw (e, try_once) at h in (u, cc, cc)
      ]

  -- The work returned the value and its commit succeeded, from the world `v` to the world `w'`.
  abbrev pub Commits : Session → World → A → World → Type 0
  Commits s v a w' = (u : World) × (work s v ≡ (ok a, u)) × (commit s u ≡ (ok tt, w'))

  -- On an existing session, a value that is returned is that of a run of the work that the
  -- session committed, last of all; fewer than `attempts` runs came before it, each of which
  -- ended without a value or an error.
  existing_session_returned :
      (s : Session) (attempts : ℕ) (w w' : World) (a : A)
      → run_on_existing_session api work on_conflict s attempts w ≡ (ok a, w')
      → (k : ℕ) × (v : World) × (k < attempts)
        × Rounds (λ n. try_once api work on_conflict attempts n s) k 1 w v
        × Commits s v a w'
  unfolding run_on_existing_session
  existing_session_returned s attempts w w' a h =
      let once : ℕ → Action World Fault (Option A) =
        λ n. try_once api work on_conflict attempts n s in
      let (k, v, l, rounds, last) = run_attempts-Replayed once attempts 1 w a w' h in
      (k, v, l, rounds, try_once-some s attempts (1 + k) v w' a last)

  close_session-ok :
      (s : Session) (r : Result Fault (Option A) × World) (w' : World) (o : Option A)
      → close_session api manual s r ≡ (ok o, w')
      → (v : World) × (r ≡ (ok o, v)) × (logout s v ≡ (ok tt, w'))
  unfolding close_session exit_session exit_policy
  close_session-ok s (ok b, v) w' o h = elim (Result-cases (logout s v).0) [
    | inl (c, e) ↦
        let q = rw (e, close_session, exit_session, exit_policy) at h in
        let p = paired (logout s) v _ e in (v, cc, cc)
    | inr (x, e) ↦ cc (rw (e, close_session, exit_session, exit_policy) at h)
  ]
  close_session-ok s (err b, v) w' o h = elim (Result-cases (logout s (abort s v).1).0) [
    | inl (c, e) ↦ cc (rw (e, close_session, exit_session, exit_policy) at h)
    | inr (x, e) ↦ cc (rw (e, close_session, exit_session, exit_policy) at h)
  ]

  pub with_session-ok :
      (factory : Action World Fault Session) (attempts attempt : ℕ) (w w' : World) (o : Option A)
      → with_session api factory manual (try_once api work on_conflict attempts attempt) w
        ≡ (ok o, w')
      → (s : Session) × (v : World) × (u : World) × (try_once api work on_conflict attempts attempt
            s v
          ≡ (ok o, u))
        × (logout s u ≡ (ok tt, w'))
  unfolding with_session
  with_session-ok factory attempts attempt w w' o h =
      let (s, v, entered, r) =
        >>=-returns (factory >>= λ s. api.login s >> pure s)
          (λ s w. close_session api manual s (try_once api work on_conflict attempts attempt s w)) w
          h in
      let (u, tried, left) = close_session-ok s _ w' o r in (s, v, u, tried, left)

  -- With sessions of its own, a value that is returned is that of a run of the work whose
  -- session committed it and then logged out, last of all; fewer than `attempts` runs came
  -- before it, each of which ended without a value or an error.
  pub owned_sessions_returned :
      (factory : Action World Fault Session) (attempts : ℕ) (w w' : World) (a : A)
      → run_on_owned_sessions api work on_conflict factory attempts w ≡ (ok a, w')
      → (k : ℕ) × (v : World) × (k < attempts)
        × Rounds
            (λ n. with_session api factory manual (try_once api work on_conflict attempts n))
            k
            1
            w
            v
        × (s : Session) × (v' : World) × (u : World) × Commits s v' a u
        × (logout s u ≡ (ok tt, w'))
  unfolding run_on_owned_sessions
  owned_sessions_returned factory attempts w w' a h =
      let once : ℕ → Action World Fault (Option A) =
        λ n. with_session api factory manual (try_once api work on_conflict attempts n) in
      let (k, v, l, rounds, last) = run_attempts-Replayed once attempts 1 w a w' h in
      let (s, v', u, tried, left) = with_session-ok factory attempts (1 + k) v w' (some a) last in
      (k, v, l, rounds, s, v', u, try_once-some s attempts (1 + k) v' u a tried, left)
