-- ===== src/Pool/Capacity.antt =====
-- The capacity of the pool, and the methods that discard or put back sessions.
pub mod Wait
pub mod Sweep
pub mod Warm
pub mod Lease
use gemstone_py.Prelude.{
  ℕ, suc, ◌+◌, ◌-◌, ◌≤◌, ◌≡◌, refl, Option, none, some, Bool, true, false, List, [], ◌∷◌, length,
  arith, ltb, if◌then◌else◌, Bool-cases, inl, inr, Option-cases,
}
use gemstone_py.Prelude.Exec.{Result, ok, err}
use gemstone_py.Pool.{
  Session, Reason, unhealthy, reset_failed, discard_requested, provider_closed, Config, Env,
  session_released, PoolError,
}
use gemstone_py.Pool.Provider.{Local, session_recycle_reason, session_is_healthy, reset_session}
use gemstone_py.Pool.Methods.{
  Pool, emit, snapshot, discard_session, put_nowait, return_session, release_recycle,
  release_health, release_reset, release, discard_all, close, count, count_discard,
}

module _ {env : Env} where
  -- The caller holds `held` sessions of the pool. They and the idle ones are counted, and the count
  -- is within the limit.
  pub record Holds (held : ℕ) (p : Pool env) : Type 0 where
    pub counted : length p.available + held ≤ p.created
    pub bounded : p.created ≤ p.config.maxsize

  pub Holds-less : {k : ℕ} {p : Pool env} → Holds (suc k) p → Holds k p
  Holds-less h = omega arith

  Holds-locals :
      {k : ℕ} {p : Pool env} (l : Local env) → Holds k p → Holds k (record p { locals = l })
  Holds-locals l h = record { counted = h.counted; bounded = h.bounded }

  -- A discarded session gives its slot back.
  pub discard_session-Holds :
      (k : ℕ) (s : Session) (r : Reason) (p : Pool env)
      → Holds (suc k) p
      → Holds k (discard_session env s r p)
  unfolding discard_session
  discard_session-Holds k s r p h = ground arith

  -- `queue.Full` is never raised for a session that comes back to a pool within its capacity:
  -- there is room for it, and it goes on top of the queue.
  put_nowait-room :
      (k : ℕ) (s : Session) (p : Pool env)
      → Holds (suc k) p
      → put_nowait env s p ≡ some (record p { available = s ∷ p.available })
  put_nowait-room k s p h = ground arith

  return_session-Holds :
      (k : ℕ) (s : Session) (p : Pool env) → Holds (suc k) p → Holds k (return_session env s p).1
  unfolding return_session
  return_session-Holds k s p h = ground arith

  release_recycle-Holds :
      (k : ℕ) (s : Session) (p : Pool env) → Holds (suc k) p → Holds k (release_recycle env s p).1
  unfolding release_recycle
  release_recycle-Holds k s p h =
      let (reason, l) = session_recycle_reason env p.config s p.locals in
      elim (Option-cases reason) [
        | inl e ↦ rw (e, release_recycle) (return_session-Holds k s _ (Holds-locals l h))
        | inr (r, e) ↦ rw (e, release_recycle) (discard_session-Holds k s r _ (Holds-locals l h))
      ]

  release_health-Holds :
      (k : ℕ) (s : Session) (p : Pool env) → Holds (suc k) p → Holds k (release_health env s p).1
  unfolding release_health
  release_health-Holds k s p h =
      let (healthy, s1, l) = session_is_healthy env p.config s p.locals in
      elim (Bool-cases healthy) [
        | inl e ↦ rw (e, release_health) (release_recycle-Holds k s1 _ (Holds-locals l h))
        | inr e ↦ rw (e, release_health) (discard_session-Holds k s1 unhealthy _ (Holds-locals l h))
      ]

  release_reset-Holds :
      (k : ℕ) (s : Session) (clean : Bool) (p : Pool env)
      → Holds (suc k) p
      → Holds k (release_reset env s clean p).1
  unfolding release_reset
  release_reset-Holds k s true p h = release_health-Holds k s p h
  release_reset-Holds k s false p h =
      let (done, l) = reset_session env s p.locals in
      elim (Bool-cases done) [
        | inl e ↦ rw (e, release_reset) (release_health-Holds k s _ (Holds-locals l h))
        | inr e ↦
            rw (e, release_reset) (discard_session-Holds k s reset_failed _ (Holds-locals l h))
      ]

  if-Holds :
      (k : ℕ) (b : Bool) (x y : Result PoolError (Unit {0}) × Pool env)
      → Holds k x.1
      → Holds k y.1
      → Holds k (if b then x else y).1
  if-Holds k true x y hx hy = hx
  if-Holds k false x y hx hy = hy

  -- `release`, with any flags and on every path, keeps the pool within its capacity, with one session
  -- less in the caller's hands.
  pub release-Holds :
      (k : ℕ) (s : Session) (discard clean : Bool) (p : Pool env)
      → Holds (suc k) p
      → Holds k (release env (some s) discard clean p).1
  unfolding release
  release-Holds k s true clean p h =
      discard_session-Holds k s discard_requested _ (Holds-locals _ h)
  release-Holds k s false clean p h =
      if-Holds k p.closed _ _ (discard_session-Holds k s provider_closed _ (Holds-locals _ h))
        (release_reset-Holds k s clean _ (Holds-locals _ h))

  discard_all-Holds :
      (k : ℕ) (ss : List Session) (p : Pool env)
      → Holds (length ss + k) p
      → Holds k (discard_all env ss p)
  unfolding discard_all
  discard_all-Holds k [] p h = omega arith
  discard_all-Holds k (s ∷ ss) p h =
      discard_all-Holds k ss _
        (discard_session-Holds (length ss + k) s provider_closed p (omega arith))

  abbrev drain : Pool env → Pool env
  drain p = record (count env (λ c. record c { close_calls = c.close_calls + 1 }) p) {
    closed = true;
    available = [];
  }

  -- `close` keeps the pool within its capacity, whatever the logouts do.
  close-Holds : (k : ℕ) (p : Pool env) → Holds k p → Holds k (close env p)
  unfolding close
  close-Holds k p h =
      let emptied : Holds (length p.available + k) (drain p) = record {
        counted = omega (arith, h.counted);
        bounded = h.bounded;
      } in
      let q = discard_all-Holds k p.available (drain p) emptied in
      record { counted = q.counted; bounded = q.bounded }
