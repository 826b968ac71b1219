-- ===== src/Pool/Ends.antt =====
-- When the loop of `acquire` ends.
use gemstone_py.Prelude.{
  ℕ, zero, suc, ◌+◌, ◌<◌, ◌≡◌, ◌≢◌, refl, sym, subst, Option, none, some, Bool, true, false, List,
  [], ◌∷◌, length, leb, ltb, arith, if◌then◌else◌, inl, inr,
}
use gemstone_py.Prelude.Exec.{Result, ok, err, Result-cases}
use gemstone_py.Pool.{
  Session, Reason, Config, Env, PoolError, pool_closed, timed_out, blocked, out_of_fuel,
  call_failed,
}
use gemstone_py.Pool.Provider.{
  Local, Checkout, ready, refused, raised, prepare_session_for_checkout, create_session, now,
}
use gemstone_py.Pool.Methods.{Pool, count, discard_session}
use gemstone_py.Pool.Checkout.{
  Attempt, handed, failed, again, attempt, attempt_create, attempt_wait, attempt_full,
  acquire_round, acquire_loop, acquire, or_default, hand_out, time_out,
}

module _ (env : Env) where
  -- A session that was just created passes the checks of its checkout, or they raise.
  abbrev pub IsReadyFresh : Config → Type 0
  IsReadyFresh c =
      (l : Local env) (s : Session)
      → (create_session env l).0 ≡ ok s
      → (s' : Session) (r : Reason)
      → (prepare_session_for_checkout env c s (create_session env l).1).0 ≢ refused s' r

  -- An exception of the source, or a wait that no deadline ends.
  abbrev IsEnd : Option ℕ → PoolError → Type 0
  IsEnd deadline e = (e ≢ out_of_fuel) × (e ≡ blocked → deadline ≡ none)

  -- A round hands a session out, fails, or goes on with one idle session less.
  abbrev Shrinks : Option ℕ → Config → ℕ → Attempt env → Type 0
  Shrinks deadline c n (handed s q) = Unit
  Shrinks deadline c n (failed e q) = IsEnd deadline e
  Shrinks deadline c n (again q) = (n ≡ suc (length q.available)) × (q.config ≡ c)

  attempt-Shrinks :
      (deadline : Option ℕ) (started_at : ℕ) (s : Session) (p : Pool env)
      → Shrinks deadline p.config (suc (length p.available)) (attempt env started_at s p)
  unfolding attempt discard_session
  attempt-Shrinks deadline started_at s p =
      by_checkout (prepare_session_for_checkout env p.config s p.locals)
    where
      by_checkout :
          (c : Checkout × Local env)
          → Shrinks deadline p.config (suc (length p.available)) (elim c.0 [
            | ready s' ↦ handed s' (hand_out env started_at s' (record p { locals = c.1 }))
            | refused s' reason ↦ again (discard_session env s' reason (record p { locals = c.1 }))
            | raised e ↦ failed (call_failed e) (record p { locals = c.1 })
          ])
      by_checkout (ready s', l) = tt
      by_checkout (refused s' r, l) = (refl, refl)
      by_checkout (raised e, l) = (λ h. cc, λ h. cc)

  if-Shrinks :
      (deadline : Option ℕ) (c : Config) (n : ℕ) (b : Bool) (x y : Attempt env)
      → Shrinks deadline c n x
      → Shrinks deadline c n y
      → Shrinks deadline c n (if b then x else y)
  if-Shrinks deadline c n true x y h k = h
  if-Shrinks deadline c n false x y h k = k

  attempt-fresh :
      (deadline : Option ℕ) (started_at : ℕ) (s : Session) (p : Pool env) (c : Config) (n : ℕ)
      → ((s' : Session) (r : Reason)
          → (prepare_session_for_checkout env p.config s p.locals).0 ≢ refused s' r)
      → Shrinks deadline c n (attempt env started_at s p)
  unfolding attempt
  attempt-fresh deadline started_at s p c n fresh =
      by_checkout (prepare_session_for_checkout env p.config s p.locals) fresh
    where
      by_checkout :
          (k : Checkout × Local env)
          → ((s' : Session) (r : Reason) → k.0 ≢ refused s' r)
          → Shrinks deadline c n (elim k.0 [
            | ready s' ↦ handed s' (hand_out env started_at s' (record p { locals = k.1 }))
            | refused s' reason ↦ again (discard_session env s' reason (record p { locals = k.1 }))
            | raised e ↦ failed (call_failed e) (record p { locals = k.1 })
          ])
      by_checkout (ready s', l) h = tt
      by_checkout (refused s' r, l) h = absurd (h s' r refl)
      by_checkout (raised e, l) h = (λ q. cc, λ q. cc)

  attempt_create-Shrinks :
      (deadline : Option ℕ) (started_at : ℕ) (p : Pool env) (n : ℕ)
      → IsReadyFresh p.config
      → Shrinks deadline p.config n (attempt_create env started_at p)
  unfolding attempt_create
  attempt_create-Shrinks deadline started_at p n fresh =
      elim (Result-cases (create_session env p.locals).0) [
        | inl (s, e) ↦
            rw (e, attempt_create)
              (attempt-fresh deadline started_at s _ p.config n (fresh p.locals s e))
        | inr (x, e) ↦ rw (e, attempt_create) (λ q. cc, λ q. cc)
      ]

  -- With no other thread, a wait on an empty queue ends the loop, or never ends.
  attempt_wait-Shrinks :
      (started_at : ℕ) (deadline : Option ℕ) (p : Pool env) (c : Config)
      → p.available ≡ []
      → Shrinks deadline c 0 (attempt_wait env (λ q. q) started_at deadline p)
  unfolding attempt_wait
  attempt_wait-Shrinks started_at deadline p c = by_queue deadline p.available
    where
      by_queue :
          (deadline : Option ℕ) (xs : List Session)
          → xs ≡ []
          → Shrinks deadline c 0 (elim xs [
            | s ∷ rest ↦ attempt env started_at s (record p { available = rest })
            | [] ↦ elim deadline [
              | none ↦ failed blocked p
              | some d ↦ failed timed_out (time_out env p)
            ]
          ])
      by_queue deadline (s ∷ rest) h = cc
      by_queue none [] h = (λ q. cc, λ q. refl)
      by_queue (some d) [] h = (λ q. cc, λ q. cc)

  attempt_full-Shrinks :
      (started_at : ℕ) (deadline : Option ℕ) (p : Pool env) (c : Config)
      → p.available ≡ []
      → Shrinks deadline c 0 (attempt_full env (λ q. q) started_at deadline p)
  unfolding attempt_full
  attempt_full-Shrinks started_at none p c e = attempt_wait-Shrinks started_at none p c e
  attempt_full-Shrinks started_at (some d) p c e =
      let (t, l) = now env p.locals in
      if-Shrinks (some d) c 0 (leb d t) _ _ (λ q. cc, λ q. cc)
        (attempt_wait-Shrinks started_at (some d) (record p { locals = l }) c e)

  acquire_round-Shrinks :
      (started_at : ℕ) (deadline : Option ℕ) (p : Pool env)
      → IsReadyFresh p.config
      → Shrinks deadline p.config
          (length p.available)
          (acquire_round env (λ q. q) started_at deadline p)
  unfolding acquire_round
  acquire_round-Shrinks started_at deadline p fresh = by_queue p.available refl
    where
      by_queue :
          (xs : List Session)
          → p.available ≡ xs
          → Shrinks deadline p.config (length xs) (elim xs [
            | s ∷ rest ↦ attempt env started_at s (record p { available = rest })
            | [] ↦
                if p.closed
                then failed pool_closed p
                else if ltb p.created p.config.maxsize
                then attempt_create env started_at p
                else attempt_full env (λ q. q) started_at deadline p
          ])
      by_queue (s ∷ rest) e = attempt-Shrinks deadline started_at s (record p { available = rest })
      by_queue [] e =
          if-Shrinks deadline p.config 0 p.closed _ _ (λ q. cc, λ q. cc)
            (if-Shrinks deadline p.config 0 (ltb p.created p.config.maxsize) _ _
              (attempt_create-Shrinks deadline started_at p 0 fresh)
              (attempt_full-Shrinks started_at deadline p p.config e))

  -- The fuel was enough, and only without a deadline is the wait one that nothing ends.
  abbrev pub Terminates : Option ℕ → Result PoolError Session × Pool env → Type 0
  Terminates deadline (ok s, q) = Unit
  Terminates deadline (err e, q) = IsEnd deadline e

  acquire_loop-ends :
      (started_at : ℕ) (deadline : Option ℕ) (fuel : ℕ) (p : Pool env)
      → IsReadyFresh p.config
      → length p.available < fuel
      → Terminates deadline (acquire_loop env (λ q. q) started_at deadline fuel p)
  unfolding acquire_loop
  acquire_loop-ends started_at deadline zero p fresh l = absurd (omega arith)
  acquire_loop-ends started_at deadline (suc fuel) p fresh l =
      by_round (acquire_round env (λ q. q) started_at deadline p)
        (acquire_round-Shrinks started_at deadline p fresh)
        (λ q c m. acquire_loop-ends started_at deadline fuel q (subst IsReadyFresh (sym c) fresh) m)
    where
      by_round :
          (a : Attempt env)
          → Shrinks deadline p.config (length p.available) a
          → ((q : Pool env)
              → q.config ≡ p.config
              → length q.available < fuel
              → Terminates deadline (acquire_loop env (λ q. q) started_at deadline fuel q))
          → Terminates deadline (elim a as (λ _. Result PoolError Session × Pool env) [
            | handed s q ↦ (ok s, q)
            | failed e q ↦ (err e, q)
            | again q ↦ acquire_loop env (λ q. q) started_at deadline fuel q
          ])
      by_round (handed s q) h ih = tt
      by_round (failed e q) h ih = h
      by_round (again q) (n, c) ih = ih q c (omega (arith, n, l))

  if-Terminates :
      (limit : Option ℕ) (b : Bool) (x y : Result PoolError Session × Pool env)
      → Terminates limit x
      → Terminates limit y
      → Terminates limit (if b then x else y)
  if-Terminates limit true x y h k = h
  if-Terminates limit false x y h k = k

  -- A deadline is there just when there is a time limit.
  limited :
      (d limit : ℕ) (x : Result PoolError Session × Pool env)
      → Terminates (some d) x
      → Terminates (some limit) x
  limited d limit (ok s, q) h = tt
  limited d limit (err e, q) (a, b) = (a, λ w. cc (b w))

  -- With no other thread at work, and where a session that was just created passes the checks
  -- of its checkout or they raise, acquire comes to a session or to an exception of the source
  -- within one round for each idle session and one more, or without a time limit to a wait that
  -- nothing ends; with a time limit it never waits like that.
  pub acquire_ends :
      (fuel : ℕ) (timeout : Option ℕ) (p : Pool env)
      → IsReadyFresh p.config
      → length p.available < fuel
      → Terminates
          (or_default env timeout p.config.acquire_timeout)
          (acquire env (λ q. q) fuel timeout p)
  unfolding acquire
  acquire_ends fuel timeout p fresh l = by_limit (or_default env timeout p.config.acquire_timeout)
    where
      started : ℕ × Local env
      started = now env p.locals

      p1 : Pool env
      p1 =
          count env (λ c. record c { acquire_calls = c.acquire_calls + 1 })
            (record p { locals = started.1 })

      by_limit :
          (limit : Option ℕ)
          → Terminates limit (elim limit as (λ _. Result PoolError Session × Pool env) [
            | none ↦
                if p1.closed
                then (err pool_closed, p1)
                else acquire_loop env (λ q. q) started.0 none fuel p1
            | some limit ↦
                let (t, l2) = now env p1.locals in
                let p2 : Pool env = record p1 { locals = l2 } in
                if p2.closed
                then (err pool_closed, p2)
                else acquire_loop env (λ q. q) started.0 (some (t + limit)) fuel p2
          ])
      by_limit none =
          if-Terminates none p1.closed _ _ (λ z. cc, λ z. cc)
            (acquire_loop-ends started.0 none fuel p1 fresh l)
      by_limit (some limit) =
          let (t, l2) = now env p1.locals in
          if-Terminates (some limit) p1.closed _ _ (λ z. cc, λ z. cc)
            (limited (t + limit) limit _ (
              acquire_loop-ends started.0 (some (t + limit)) fuel (record p1 { locals = l2 }) fresh
                l))
