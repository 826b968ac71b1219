-- ===== src/Pool/Capacity/Lease.antt =====
-- The capacity of the pool during `lease`.
use gemstone_py.Prelude.{ℕ, suc, none, some, Bool, false, inl, inr}
use gemstone_py.Prelude.Exec.{Result, ok, err, Result-cases}
use gemstone_py.Pool.{Session, Env, PoolError}
use gemstone_py.Pool.Methods.{Pool, release}
use gemstone_py.Pool.Checkout.{acquire}
use gemstone_py.Pool.Upkeep.{abort_after_failure, end_lease, lease}
use gemstone_py.Pool.Capacity.{Holds, Holds-locals, release-Holds}
use gemstone_py.Pool.Capacity.Wait.{AcquireHolds, acquire-Holds}

module _ {env : Env} (k : ℕ) {A : Type 0} where
  end_lease-Holds :
      (s : Session) (discard clean : Bool) (r : Result PoolError A) (p : Pool env)
      → Holds (suc k) p
      → Holds k (end_lease env s discard clean r p).1
  unfolding end_lease
  end_lease-Holds s discard clean r p h =
      let g = release-Holds k s discard clean p h in
      elim (Result-cases (release env (some s) discard clean p).0) [
        | inl (a, e) ↦ rw (e, end_lease) g
        | inr (x, e) ↦ rw (e, end_lease) g
      ]

  failed_body :
      (s : Session) (r : Result PoolError A) (p : Pool env)
      → Holds (suc k) p
      → Holds k
          (let ((discard, clean), q) = abort_after_failure env s p in
            end_lease env s discard clean r q).1
  unfolding abort_after_failure
  failed_body s r p h = end_lease-Holds s _ _ r _ (Holds-locals _ h)

  leased :
      (body : Session → Pool env → Result PoolError A × Pool env)
      → ((s : Session) (q : Pool env) → Holds (suc k) q → Holds (suc k) (body s q).1)
      → (got : Result PoolError Session) (p : Pool env) → AcquireHolds k (got, p)
      → Holds k
          (elim got as (λ _. Result PoolError A × Pool env) [
            | err e ↦ (err e, p)
            | ok s ↦
                let (r, p2) = body s p in
                elim r [
                  | ok a ↦ end_lease env s false false (ok a) p2
                  | err e ↦
                      let ((discard, clean), p3) = abort_after_failure env s p2 in
                      end_lease env s discard clean (err e) p3
                ]
          ]).1
  leased body keeps (err e) p h = h
  leased body keeps (ok s) p h = elim (Result-cases (body s p).0) [
    | inl (a, e) ↦ rw e (end_lease-Holds s false false (ok a) _ (keeps s p h))
    | inr (x, e) ↦ rw e (failed_body s (err x) (body s p).1 (keeps s p h))
  ]

  -- A lease keeps the pool within its capacity, whether its body returns or raises and whatever
  -- `acquire`, the abort and `release` meet, where the body and the other threads keep it.
  pub lease-Holds :
      (others : Pool env → Pool env)
      → ((q : Pool env) → Holds k q → Holds k (others q))
      → (fuel : ℕ) (body : Session → Pool env → Result PoolError A × Pool env)
      → ((s : Session) (q : Pool env) → Holds (suc k) q → Holds (suc k) (body s q).1)
      → (p : Pool env) → Holds k p
      → Holds k (lease env others fuel body p).1
  unfolding lease
  lease-Holds others rely fuel body keeps p h =
      leased body keeps (acquire env others fuel none p).0 (acquire env others fuel none p).1
        (acquire-Holds k others rely fuel none p h)
