-- ===== src/Pool/Capacity/Warm.antt =====
-- The capacity of the pool during `warm`.
use gemstone_py.Prelude.{
  ℕ, zero, suc, ◌+◌, ◌<◌, ◌≡◌, refl, Option, Bool, true, false, length, arith, ltb, leb,
  if◌then◌else◌, Bool-cases, inl, inr,
}
use gemstone_py.Prelude.Exec.{Result, ok, err, Result-cases}
use gemstone_py.Session.{Fault}
use gemstone_py.Pool.{Session, Env, PoolError, call_failed, unhealthy, queue_full}
use gemstone_py.Pool.Provider.{Local, session_is_healthy, create_session}
use gemstone_py.Pool.Methods.{Pool}
use gemstone_py.Pool.Upkeep.{
  Warmed, stop, warmed_one, discarded, warm_session, warm_round, warm_loop, warm_target,
  warm_result, warm,
}
use gemstone_py.Pool.Capacity.{Holds, Holds-less, Holds-locals, discard_session-Holds}

module _ {env : Env} (k : ℕ) where
  abbrev WarmedHolds : Warmed env → Type 0
  WarmedHolds (stop r q) = Holds k q
  WarmedHolds (warmed_one q) = Holds k q
  WarmedHolds (discarded q) = Holds k q

  warm_session-Holds :
      (s : Session) (p : Pool env) → Holds (suc k) p → WarmedHolds (warm_session env s p)
  unfolding warm_session
  warm_session-Holds s p h =
      let (healthy, s1, l) = session_is_healthy env p.config s p.locals in
      let (freed, w) = env.unclaim s1 l.world in
      elim (Bool-cases healthy) [
        | inr e ↦ rw (e, warm_session) (discard_session-Holds k s1 unhealthy _ (Holds-locals l h))
        | inl e ↦ elim (Result-cases freed) [
          | inr (x, f) ↦ rw (e, f, warm_session) (Holds-less (Holds-locals _ h))
          | inl (a, f) ↦ elim (Bool-cases (ltb (length p.available) p.config.maxsize)) [
            | inl room ↦
                rw (e, f, room, warm_session)
                  (record { counted = omega (arith, h.counted); bounded = h.bounded })
            | inr full ↦
                rw (e, f, full, warm_session)
                  (discard_session-Holds k s1 queue_full _ (Holds-locals _ h))
          ]
        ]
      ]

  if-WarmedHolds :
      (b : Bool) (x y : Warmed env)
      → (b ≡ true → WarmedHolds x)
      → (b ≡ false → WarmedHolds y)
      → WarmedHolds (if b then x else y)
  if-WarmedHolds true x y hx hy = hx refl
  if-WarmedHolds false x y hx hy = hy refl

  created-Holds :
      (made : Result Fault Session) (l : Local env) (p : Pool env)
      → Holds k p
      → p.created < p.config.maxsize
      → WarmedHolds (elim made [
        | err e ↦ stop (err (call_failed e)) (record p { locals = l })
        | ok s ↦ warm_session env s (record p { locals = l; created = p.created + 1 })
      ])
  created-Holds (err e) l p h room = Holds-locals l h
  created-Holds (ok s) l p h room =
      warm_session-Holds s _ (record { counted = omega (arith, h.counted); bounded = omega arith })

  next_round :
      (fuel target warmed : ℕ)
      → ((n : ℕ) (q : Pool env) → Holds k q → Holds k (warm_loop env fuel target n q).1)
      → (r : Warmed env) → WarmedHolds r
      → Holds k
          (elim r as (λ _. Result PoolError ℕ × Pool env) [
            | stop r q ↦ (warm_result env warmed r, q)
            | warmed_one q ↦ warm_loop env fuel target (warmed + 1) q
            | discarded q ↦ warm_loop env fuel target warmed q
          ]).1
  next_round fuel target warmed rest (stop r q) h = h
  next_round fuel target warmed rest (warmed_one q) h = rest (warmed + 1) q h
  next_round fuel target warmed rest (discarded q) h = rest warmed q h

  warm_round-Holds : (p : Pool env) → Holds k p → WarmedHolds (warm_round env p)
  unfolding warm_round
  warm_round-Holds p h =
      let (made, l) = create_session env p.locals in
      if-WarmedHolds p.closed _ _ (λ _. h)
        (λ _.
          if-WarmedHolds (leb p.config.maxsize p.created) _ _ (λ _. h)
            (λ room. created-Holds made l p h (ground arith)))

  warm_loop-Holds :
      (fuel target warmed : ℕ) (p : Pool env)
      → Holds k p
      → Holds k (warm_loop env fuel target warmed p).1
  unfolding warm_loop
  warm_loop-Holds zero target warmed p h = ground arith
  warm_loop-Holds (suc fuel) target warmed p h = elim (Bool-cases (ltb warmed target)) [
    | inr done ↦ rw (done, warm_loop) h
    | inl on ↦
        rw (on, warm_loop)
          (next_round fuel target warmed (warm_loop-Holds fuel target) (warm_round env p)
            (warm_round-Holds p h))
  ]

  -- `warm` keeps the pool within its capacity, however many sessions are asked for and
  -- whatever the fuel.
  warm-Holds : (fuel : ℕ) (n : Option ℕ) (p : Pool env) → Holds k p → Holds k (warm env fuel n p).1
  unfolding warm
  warm-Holds fuel n p h =
      warm_loop-Holds fuel (warm_target env n p.config.maxsize) 0 _
        (record { counted = h.counted; bounded = h.bounded })
