-- ===== src/Pool/Provider.antt =====
-- The methods of `GemStoneSessionProvider` that look at one session.
use gemstone_py.Prelude.{
  ℕ, ◌+◌, Option, none, some, Bool, true, false, not, ◌&&◌, leb, if◌then◌else◌,
}
use gemstone_py.Prelude.Exec.{Result, ok, err}
use gemstone_py.Session.{Fault}
use gemstone_py.Pool.{
  Session, Reason, max_age, max_uses, idle_timeout, unhealthy, Stats, Config, Env,
}

-- The outcome of `_prepare_session_for_checkout`, or the exception that went through it.
pub data Checkout : Type 0 where
  ready : Session → Checkout
  refused : Session → Reason → Checkout
  raised : Fault → Checkout

module _ (env : Env) where
  open env use {World}

  -- The counters and the world outside: all that these methods change.
  pub record Local : Type 0 where
    pub stats : Stats
    pub world : World

  -- `time.monotonic()`
  abbrev pub now : Local → ℕ × Local
  now l = let (t, w) = env.monotonic l.world in (t, record l { world = w })

  abbrev fail_health : Local → Local
  fail_health l = record l {
    stats = record l.stats { healthcheck_failures = l.stats.healthcheck_failures + 1 };
  }

  abbrev mark_checked_out : Session → Session
  mark_checked_out s = record s { use_count = s.use_count + 1 }

  abbrev uses_reason : Config → Session → Option Reason
  uses_reason c s = elim c.max_session_uses [
    | none ↦ none
    | some uses ↦ if leb uses s.use_count then some max_uses else none
  ]

  unfoldable pub session_recycle_reason : Config → Session → Local → Option Reason × Local
  session_recycle_reason c s l = elim c.max_session_age [
    | none ↦ (uses_reason c s, l)
    | some age ↦
        let (t, l') = now l in
        (if leb (s.created_at + age) t then some max_age else uses_reason c s, l')
  ]

  unfoldable pub session_idle_timeout_reason : Config → Session → Local → Option Reason × Local
  session_idle_timeout_reason c s l = elim c.idle_timeout_seconds [
    | none ↦ (none, l)
    | some idle ↦
        if leb s.last_used_at 0
        then (some idle_timeout, l)
        else (let (t, l') = now l in
            (if leb (s.last_used_at + idle) t then some idle_timeout else none, l'))
  ]

  unfoldable pub session_needs_validation : Config → Session → Local → Bool × Local
  session_needs_validation c s l =
      if not c.has_healthcheck && not c.has_validation_query
      then (false, l)
      else elim c.validation_interval_seconds [
        | none ↦ (true, l)
        | some interval ↦
            if leb s.validated_at 0
            then (true, l)
            else (let (t, l') = now l in (leb (s.validated_at + interval) t, l'))
      ]

  -- The health check, or the validation query.
  abbrev run_check : Config → Session → Local → Bool × Local
  run_check c s l =
      let (good, w) =
        (if c.has_healthcheck then env.healthcheck s l.world else env.validation s l.world) in
      (good, record l { world = w })

  unfoldable pub session_is_healthy : Config → Session → Local → Bool × Session × Local
  session_is_healthy c s l =
      if not (env.logged_in s l.world)
      then (false, s, fail_health l)
      else (let (needed, l1) = session_needs_validation c s l in
          if not needed
          then (true, s, l1)
          else (let (good, l2) = run_check c s l1 in
              if good
              then (let (t, l3) = now l2 in (true, record s { validated_at = t }, l3))
              else (false, s, fail_health l2)))

  -- `_reset_session`
  unfoldable pub reset_session : Session → Local → Bool × Local
  reset_session s l =
      let (done, w) = env.abort s l.world in
      if done then (true, record l { world = w }) else (
        false,
        record {
          world = w;
          stats = record l.stats {
            reset_failures = l.stats.reset_failures + 1;
            healthcheck_failures = l.stats.healthcheck_failures + 1;
          };
        },
      )

  unfoldable pub checkout_health : Config → Session → Local → Checkout × Local
  checkout_health c s l =
      let (healthy, s1, l1) = session_is_healthy c s l in
      if not healthy
      then (refused s1 unhealthy, l1)
      else (let (reason, l2) = session_recycle_reason c s1 l1 in
          elim reason [ some r ↦ (refused s1 r, l2) | none ↦ (ready (mark_checked_out s1), l2) ])

  unfoldable pub prepare_session_for_checkout : Config → Session → Local → Checkout × Local
  prepare_session_for_checkout c s l =
      let (claimed, w) = env.claim s l.world in
      let l1 : Local = record l { world = w } in
      elim claimed [
        | err e ↦ (raised e, l1)
        | ok _ ↦
            let (reason, l2) = session_idle_timeout_reason c s l1 in
            elim reason [ some r ↦ (refused s r, l2) | none ↦ checkout_health c s l2 ]
      ]

  -- `_create_session`: the factory and the login, then the marks of a new session.
  unfoldable pub create_session : Local → Result Fault Session × Local
  create_session l =
      let (made, w) = env.create l.world in
      elim made [
        | err e ↦ (
          err e,
          record {
            world = w;
            stats = record l.stats { create_failures = l.stats.create_failures + 1 };
          },
        )
        | ok ident ↦
            let (t, l1) = now (record l { world = w }) in
            (
              ok (record {
                ident = ident;
                created_at = t;
                use_count = 0;
                last_used_at = t;
                validated_at = 0;
              }),
              record l1 { stats = record l1.stats { created_total = l1.stats.created_total + 1 } },
            )
      ]
