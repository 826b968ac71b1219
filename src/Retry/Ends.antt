-- ===== src/Retry/Ends.antt =====
-- How the loops of a retried transaction end.
use gemstone_py.Prelude.{
  ℕ, zero, suc, ◌+◌, ◌<◌, ◌≡◌, ◌≢◌, ap, subst, ◌∙◌, Option, none, arith, inl, inr, Option-cases,
}
use gemstone_py.Prelude.Action.{Action}
use gemstone_py.Prelude.Exec.{ok, err, Result-cases}
use gemstone_py.Session.{Fault, SessionApi}
use gemstone_py.Scope.{manual}
use gemstone_py.Retry.{
  TransactionRetry, unreachable, with_session, work_and_commit, try_once, run_attempts,
  run_on_existing_session, run_on_owned_sessions,
}
use gemstone_py.Retry.Replay.{paired, recover-none, with_session-ok}

module _ (api : SessionApi) {A : Type 0} (work : api.Session → Action api.World Fault A)
    (on_conflict : Option (TransactionRetry → Action api.World Fault (Unit {0}))) where
  open api use {World, Session, commit, abort, logout}

  run_attempts-reached :
      (once : ℕ → Action World Fault (Option A)) (attempts : ℕ)
      → ((w w' : World) → once attempts w ≢ (ok none, w'))
      → (n attempt : ℕ) (w : World) → attempt + n ≡ attempts + 1
      → 0 < n
      → (run_attempts api work on_conflict once n attempt w).0 ≢ err unreachable
  unfolding run_attempts
  run_attempts-reached once attempts last zero attempt w m l = omega arith
  run_attempts-reached once attempts last (suc zero) attempt w m l =
      elim (Result-cases (once attempt w).0) [
        | inr (x, e) ↦ rw (e, run_attempts) (λ p. cc)
        | inl (o, e) ↦ elim (Option-cases o) [
          | inr (b, q) ↦ rw (e, q, run_attempts) (λ p. cc)
          | inl q ↦ absurd (
              last w (once attempt w).1 (
                subst (λ k. once k w ≡ (ok none, (once attempt w).1)) (omega arith)
                  (paired api work on_conflict (once attempt) w _ (e ∙ ap ok q))))
        ]
      ]
  run_attempts-reached once attempts last (suc (suc n)) attempt w m l =
      elim (Result-cases (once attempt w).0) [
        | inr (x, e) ↦ rw (e, run_attempts) (λ p. cc)
        | inl (o, e) ↦ elim (Option-cases o) [
          | inr (b, q) ↦ rw (e, q, run_attempts) (λ p. cc)
          | inl q ↦
              rw (e, q, run_attempts)
                (run_attempts-reached once attempts last (suc n) (attempt + 1) (once attempt w).1
                  (omega arith) (omega arith))
        ]
      ]

  try_once-last :
      (s : Session) (attempts : ℕ) (w w' : World)
      → try_once api work on_conflict attempts attempts s w ≢ (ok none, w')
  unfolding try_once
  try_once-last s attempts w w' h =
      elim (Result-cases (work_and_commit api work on_conflict s w).0) [
        | inl (b, e) ↦ cc (rw (e, try_once) at h)
        | inr (x, e) ↦
            let (empty, l) =
              recover-none api work on_conflict s attempts attempts x
                (work_and_commit api work on_conflict s w).1 w' none (rw (e, try_once) at h) in
            ground (arith, l)
      ]

  -- With at least one attempt the `RuntimeError` after the loops is never raised: the last attempt
  -- returns or raises, on an existing session and on owned ones.
  retry_ends :
      (s : Session) (factory : Action World Fault Session) (attempts : ℕ) (w : World)
      → 0 < attempts
      → ((run_on_existing_session api work on_conflict s attempts w).0 ≢ err unreachable)
        × ((run_on_owned_sessions api work on_conflict factory attempts w).0 ≢ err unreachable)
  unfolding run_on_existing_session run_on_owned_sessions
  retry_ends s factory attempts w l = (
    run_attempts-reached (λ n. try_once api work on_conflict attempts n s) attempts
        (λ v v' e. try_once-last s attempts v v' e) attempts 1 w (omega arith) l,
    run_attempts-reached
        (λ n. with_session api factory manual (try_once api work on_conflict attempts n)) attempts
        (λ v v' e.
          let (t, x, u, tried, left) =
            with_session-ok api work on_conflict factory attempts attempts v v' none e in
          try_once-last t attempts x u tried)
        attempts 1 w (omega arith) l,
  )
