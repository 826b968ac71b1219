-- ===== src/Pool/Release.antt =====
-- What becomes of a session that is released.
use gemstone_py.Prelude.{
  ◌+◌, ◌-◌, ◌≡◌, refl, ap, ◌∙◌, ◌⊎◌, Option, none, some, Bool, true, false, ◌∷◌, length, arith, ltb,
  if◌then◌else◌, Bool-cases, inl, inr, Option-cases,
}
use gemstone_py.Prelude.Exec.{Result, ok, err, Result-cases}
use gemstone_py.Pool.{
  Session, Reason, Env, unhealthy, reset_failed, discard_requested, provider_closed, queue_full,
  PoolError, EventName, Event, session_discarded, session_released,
}
use gemstone_py.Pool.Provider.{
  Local, now, session_recycle_reason, session_is_healthy, session_needs_validation, reset_session,
}
use gemstone_py.Pool.Methods.{
  Pool, discard_session, count_discard, return_session, release_recycle, release_health,
  release_reset, release,
}

module _ {env : Env} where
  -- The listener was told one thing more, about the session.
  abbrev Told : EventName → Session → Option Reason → Pool env → Pool env → Type 0
  Told name s reason p q =
      (e : Event) × (q.events ≡ e ∷ p.events)
      × (e.name ≡ name)
      × (e.session_id ≡ some s.ident)
      × (e.reason ≡ reason)

  -- The session left the pool: its slot is free, the last call was its logout, and the listener was
  -- told so, with the reason.
  pub record IsDiscarded (s : Session) (p q : Pool env) : Type 0 where
    pub ended_by_logout :
        (t : Session) × (w : env.World) × (t.ident ≡ s.ident)
        × (q.locals.world ≡ (env.logout t w).1)
    pub told : (r : Reason) × Told session_discarded s (some r) p q
    pub slot_freed : q.created ≡ p.created - 1
    pub idle_kept : q.available ≡ p.available
    pub counted : q.locals.stats.discard_calls ≡ p.locals.stats.discard_calls + 1

  -- The session is idle again, on top of the queue, and the slot stays taken.
  pub record IsReturned (s : Session) (p q : Pool env) : Type 0 where
    pub slot_kept : q.created ≡ p.created
    pub on_top : (t : Session) × (q.available ≡ t ∷ p.available) × (t.ident ≡ s.ident)
    pub told : Told session_released s none p q
    pub not_counted : q.locals.stats.discard_calls ≡ p.locals.stats.discard_calls

  -- The session is lost to the pool: an exception of its thread check went through `release`, and
  -- the slot stays taken.
  pub record IsLost (p q : Pool env) : Type 0 where
    pub slot_kept : q.created ≡ p.created
    pub idle_kept : q.available ≡ p.available
    pub not_counted : q.locals.stats.discard_calls ≡ p.locals.stats.discard_calls

  abbrev pub Released : Session → Pool env → Result PoolError (Unit {0}) × Pool env → Type 0
  Released s p (ok _, q) = IsReturned s p q ⊎ IsDiscarded s p q
  Released s p (err e, q) = IsLost p q

  discard_session-IsDiscarded :
      (s : Session) (r : Reason) (p : Pool env) → IsDiscarded s p (discard_session env s r p)
  unfolding discard_session count_discard
  discard_session-IsDiscarded s r p = record {
    slot_freed = ground arith;
    idle_kept = refl;
    counted = ground arith;
    ended_by_logout = (s, p.locals.world, refl, refl);
    told = (r, (_, refl, refl, refl, refl));
  }

  recycle-discard_calls :
      (p : Pool env) (s : Session)
      → (session_recycle_reason env p.config s p.locals).1.stats.discard_calls
        ≡ p.locals.stats.discard_calls
  unfolding session_recycle_reason
  recycle-discard_calls p s = ground arith

  healthy-discard_calls :
      (p : Pool env) (s : Session)
      → ((session_is_healthy env p.config s p.locals).2.stats.discard_calls
          ≡ p.locals.stats.discard_calls)
        × ((session_is_healthy env p.config s p.locals).1.ident ≡ s.ident)
  unfolding session_is_healthy session_needs_validation
  healthy-discard_calls p s = ground arith

  reset-discard_calls :
      (p : Pool env) (s : Session)
      → (reset_session env s p.locals).1.stats.discard_calls ≡ p.locals.stats.discard_calls
  unfolding reset_session
  reset-discard_calls p s = ground arith

  Told-before :
      (s s' : Session) (p : Pool env) (l : Local env) (q : Pool env) {name : EventName}
      {reason : Option Reason}
      → s'.ident ≡ s.ident
      → Told name s' reason (record p { locals = l }) q
      → Told name s reason p q
  Told-before s s' p l q i (e, new, named, about, why) = (e, new, named, about ∙ ap some i, why)

  -- The same session, judged against the pool before a check changed the counters.
  Released-before :
      (s s' : Session) (p : Pool env) (l : Local env) (r : Result PoolError (Unit {0}) × Pool env)
      → l.stats.discard_calls ≡ p.locals.stats.discard_calls
      → s'.ident ≡ s.ident
      → Released s' (record p { locals = l }) r
      → Released s p r
  Released-before s s' p l (ok a, q) e i (inl h) = inl (record {
    slot_kept = h.slot_kept;
    on_top = (h.on_top.0, h.on_top.1, h.on_top.2 ∙ i);
    told = Told-before s s' p l q i h.told;
    not_counted = h.not_counted ∙ e;
  })
  Released-before s s' p l (ok a, q) e i (inr h) = inr (record {
    slot_freed = h.slot_freed;
    idle_kept = h.idle_kept;
    counted = h.counted ∙ ap (λ n. n + 1) e;
    ended_by_logout =
        (h.ended_by_logout.0, h.ended_by_logout.1, h.ended_by_logout.2 ∙ i, h.ended_by_logout.3);
    told = (h.told.0, Told-before s s' p l q i h.told.1);
  })
  Released-before s s' p l (err x, q) e i h = record {
    slot_kept = h.slot_kept;
    idle_kept = h.idle_kept;
    not_counted = h.not_counted ∙ e;
  }

  return_session-Released : (s : Session) (p : Pool env) → Released s p (return_session env s p)
  unfolding return_session
  return_session-Released s p =
      let (t, l) = now env p.locals in
      let (freed, w) = env.unclaim s l.world in
      let p1 : Pool env = record p { locals = record l { world = w } } in
      elim (Result-cases freed) [
        | inr (x, e) ↦
            rw (e, return_session)
              (record { slot_kept = refl; idle_kept = refl; not_counted = refl })
        | inl (a, e) ↦ elim (Bool-cases (ltb (length p.available) p.config.maxsize)) [
          | inl room ↦
              rw (e, room, return_session)
                (inl (record {
                  slot_kept = refl;
                  on_top = (record s { last_used_at = t }, refl, refl);
                  told = (_, refl, refl, refl, refl);
                  not_counted = refl;
                }))
          | inr full ↦
              rw (e, full, return_session)
                (inr (
                  let d = discard_session-IsDiscarded s queue_full p1 in
                  record {
                    slot_freed = d.slot_freed;
                    idle_kept = d.idle_kept;
                    counted = d.counted;
                    ended_by_logout = d.ended_by_logout;
                    told = d.told;
                  }))
        ]
      ]

  release_recycle-Released : (s : Session) (p : Pool env) → Released s p (release_recycle env s p)
  unfolding release_recycle
  release_recycle-Released s p =
      let (reason, l) = session_recycle_reason env p.config s p.locals in
      Released-before s s p l _ (recycle-discard_calls p s) refl (elim (Option-cases reason) [
        | inl e ↦ rw (e, release_recycle) (return_session-Released s (record p { locals = l }))
        | inr (r, e) ↦
            rw (e, release_recycle)
              (inr (discard_session-IsDiscarded s r (record p { locals = l })))
      ])

  release_health-Released : (s : Session) (p : Pool env) → Released s p (release_health env s p)
  unfolding release_health
  release_health-Released s p =
      let (healthy, s1, l) = session_is_healthy env p.config s p.locals in
      let (same, named) = healthy-discard_calls p s in
      Released-before s s1 p l _ same named (elim (Bool-cases healthy) [
        | inl e ↦ rw (e, release_health) (release_recycle-Released s1 (record p { locals = l }))
        | inr e ↦
            rw (e, release_health)
              (inr (discard_session-IsDiscarded s1 unhealthy (record p { locals = l })))
      ])

  release_reset-Released :
      (s : Session) (clean : Bool) (p : Pool env) → Released s p (release_reset env s clean p)
  unfolding release_reset
  release_reset-Released s true p = release_health-Released s p
  release_reset-Released s false p =
      let (done, l) = reset_session env s p.locals in
      Released-before s s p l _ (reset-discard_calls p s) refl (elim (Bool-cases done) [
        | inl e ↦ rw (e, release_reset) (release_health-Released s (record p { locals = l }))
        | inr e ↦
            rw (e, release_reset)
              (inr (discard_session-IsDiscarded s reset_failed (record p { locals = l })))
      ])

  if-Released :
      (s : Session) (p : Pool env) (b : Bool) (x y : Result PoolError (Unit {0}) × Pool env)
      → Released s p x
      → Released s p y
      → Released s p (if b then x else y)
  if-Released s p true x y hx hy = hx
  if-Released s p false x y hx hy = hy

  -- A released session goes back on top of the queue with its slot, or it is discarded: its
  -- slot is freed, the last call is its logout, and it is counted once. In both cases the
  -- listener is told so in one event, of a discard with the reason. Only if an exception goes
  -- through release is it neither: then the slot stays taken and the session is not in the
  -- queue.
  pub release-Released :
      (s : Session) (discard clean : Bool) (p : Pool env)
      → Released s p (release env (some s) discard clean p)
  unfolding release
  release-Released s discard clean p =
      let l : Local env = record p.locals {
        stats = record p.locals.stats { release_calls = p.locals.stats.release_calls + 1 };
      } in
      let p1 : Pool env = record p { locals = l } in
      Released-before s s p l _ refl refl (
        if-Released s p1 discard _ _ (inr (discard_session-IsDiscarded s discard_requested p1)) (
          if-Released s p1 p.closed _ _ (inr (discard_session-IsDiscarded s provider_closed p1))
            (release_reset-Released s clean p1)))
