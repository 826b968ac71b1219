-- ===== src/Pool/Methods.antt =====
-- `GemStoneSessionPool`: its state, `_discard_session`, `release`, `close` and the statistics.
use gemstone_py.Prelude.{
  ℕ, ◌+◌, ◌-◌, Option, none, some, Bool, true, List, [], ◌∷◌, length, ltb, if◌then◌else◌,
}
use gemstone_py.Prelude.Exec.{Result, ok, err}
use gemstone_py.Pool.{
  Session, Reason, max_age, max_uses, idle_timeout, unhealthy, reset_failed, discard_requested,
  provider_closed, queue_full, Stats, Config, Env, Snapshot, EventName, session_released,
  session_discarded, closed_event, Event, PoolError, call_failed,
}
use gemstone_py.Pool.Provider.{
  Local, now, reset_session, session_is_healthy, session_recycle_reason,
}

module _ (env : Env) where
  -- `available` is the LIFO queue, its top first. `events` is what the listener was told, newest
  -- first.
  pub record Pool : Type 0 where
    pub config : Config
    pub locals : Local env
    pub available : List Session
    pub created : ℕ
    pub closed : Bool
    pub events : List Event

  -- `_provider_snapshot`, with the truncated subtraction for `max(created - available, 0)`.
  unfoldable pub snapshot : Pool → Snapshot
  snapshot p = record {
    maxsize = p.config.maxsize;
    minsize = p.config.minsize;
    created = p.created;
    available = length p.available;
    in_use = p.created - length p.available;
    counters = p.locals.stats;
    closed = p.closed;
  }

  abbrev pub emit : EventName → Option ℕ → Option Reason → Pool → Pool
  emit name session_id reason p = record p {
    events =
        record { name = name; session_id = session_id; reason = reason; snapshot = snapshot p }
        ∷ p.events;
  }

  abbrev pub count : (Stats → Stats) → Pool → Pool
  count f p = record p { locals = record p.locals { stats = f p.locals.stats } }

  -- The counters of one discard.
  unfoldable pub count_discard : Reason → Stats → Stats
  count_discard max_age c = record c {
    discard_calls = c.discard_calls + 1;
    recycle_age_discards = c.recycle_age_discards + 1;
  }
  count_discard max_uses c = record c {
    discard_calls = c.discard_calls + 1;
    recycle_use_discards = c.recycle_use_discards + 1;
  }
  count_discard idle_timeout c = record c {
    discard_calls = c.discard_calls + 1;
    idle_timeout_discards = c.idle_timeout_discards + 1;
  }
  count_discard _ c = record c { discard_calls = c.discard_calls + 1 }

  -- A raise of `logout` is swallowed; the slot is freed either way.
  unfoldable pub discard_session : Session → Reason → Pool → Pool
  discard_session s reason p =
      let (gone, w) = env.logout s p.locals.world in
      emit session_discarded (some s.ident) (some reason) (record p {
        locals = record { stats = count_discard reason p.locals.stats; world = w };
        created = if ltb 0 p.created then p.created - 1 else p.created;
      })

  -- `_available.put_nowait`: `none` stands for `queue.Full`.
  abbrev pub put_nowait : Session → Pool → Option Pool
  put_nowait s p =
      if ltb (length p.available) p.config.maxsize
      then some (record p { available = s ∷ p.available })
      else none

  -- The last part of `release`: mark the session, give up its thread, and put it back.
  unfoldable pub return_session : Session → Pool → Result PoolError (Unit {0}) × Pool
  return_session s p =
      let (t, l) = now env p.locals in
      let (freed, w) = env.unclaim s l.world in
      let p1 : Pool = record p { locals = record l { world = w } } in
      elim freed [
        | err e ↦ (err (call_failed e), p1)
        | ok _ ↦ elim (put_nowait (record s { last_used_at = t }) p1) [
          | some p2 ↦ (ok tt, emit session_released (some s.ident) none p2)
          | none ↦ (ok tt, discard_session s queue_full p1)
        ]
      ]

  unfoldable pub release_recycle : Session → Pool → Result PoolError (Unit {0}) × Pool
  release_recycle s p =
      let (reason, l) = session_recycle_reason env p.config s p.locals in
      elim reason [
        | some r ↦ (ok tt, discard_session s r (record p { locals = l }))
        | none ↦ return_session s (record p { locals = l })
      ]

  unfoldable pub release_health : Session → Pool → Result PoolError (Unit {0}) × Pool
  release_health s p =
      let (healthy, s1, l) = session_is_healthy env p.config s p.locals in
      if healthy
      then release_recycle s1 (record p { locals = l })
      else (ok tt, discard_session s1 unhealthy (record p { locals = l }))

  unfoldable pub release_reset : Session → Bool → Pool → Result PoolError (Unit {0}) × Pool
  release_reset s clean p =
      if clean
      then release_health s p
      else (let (done, l) = reset_session env s p.locals in
          if done
          then release_health s (record p { locals = l })
          else (ok tt, discard_session s reset_failed (record p { locals = l })))

  unfoldable pub release : Option Session → Bool → Bool → Pool → Result PoolError (Unit {0}) × Pool
  release none discard clean p = (ok tt, p)
  release (some s) discard clean p =
      let p1 = count (λ c. record c { release_calls = c.release_calls + 1 }) p in
      if discard
      then (ok tt, discard_session s discard_requested p1)
      else if p1.closed
      then (ok tt, discard_session s provider_closed p1)
      else release_reset s clean p1

  -- `for session in drained: self._discard_session(session, reason="provider_closed")`
  unfoldable pub discard_all : List Session → Pool → Pool
  discard_all [] p = p
  discard_all (s ∷ ss) p = discard_all ss (discard_session s provider_closed p)

  unfoldable pub close : Pool → Pool
  close p =
      let drained = p.available in
      emit closed_event none none (
        discard_all drained (record (count (λ c. record c { close_calls = c.close_calls + 1 }) p) {
          closed = true;
          available = [];
        }))

  -- `GemStoneSessionPoolStats`
  pub record PoolStats : Type 0 where
    pub in_use : ℕ
    pub idle : ℕ
    pub created_total : ℕ
    pub evicted_total : ℕ
    pub validation_failures : ℕ
    pub acquire_waits_total : ℕ
    pub acquire_wait_seconds_total : ℕ
    pub current_capacity : ℕ

  unfoldable pub stats : Pool → PoolStats
  stats p = record {
    in_use = (snapshot p).in_use;
    idle = (snapshot p).available;
    created_total = (snapshot p).counters.created_total;
    evicted_total = (snapshot p).counters.discard_calls;
    validation_failures = (snapshot p).counters.healthcheck_failures;
    acquire_waits_total = (snapshot p).counters.acquire_calls;
    acquire_wait_seconds_total = (snapshot p).counters.acquire_wait_seconds;
    current_capacity = (snapshot p).created;
  }
