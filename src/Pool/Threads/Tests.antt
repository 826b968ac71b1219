-- ===== src/Pool/Threads/Tests.antt =====
-- Two threads on a pool of one session: one gives its session back while the other closes the pool.
use gemstone_py.Prelude.{ℕ, refl, Bool, true, false, List, [], ◌∷◌, arith, nat_eq}
use gemstone_py.Pool.Threads.{
  Pc, outside, returning, Shared, start_acquire, queue_empty, reserve, create, ready, release_keep,
  put_nowait, close, close_empty, discarded, System, pick, Reach, start, next,
}
use gemstone_py.Pool.Threads.Capacity.{IsBounded, Reach-IsBounded}
use gemstone_py.Pool.Threads.Places.{InOnePlace, Reach-InOnePlace}

abbrev shared : List ℕ → ℕ → Bool → List ℕ → Shared
shared available created closed made = record {
  available = available;
  created = created;
  maxsize = 1;
  minsize = 0;
  closed = closed;
  made = made;
}

abbrev state : Shared → Pc → Pc → System
state m p q = record { mem = m; threads = p ∷ q ∷ [] }

-- The first thread has passed the test of `_closed` in `release`.
giving_back : Reach 2 1 0 (state (shared [] 1 false (7 ∷ [])) (returning 7) outside)
unfolding nat_eq
giving_back =
    next
      (next
        (next
          (next
            (next (next start (pick [] (outside ∷ []) refl (start_acquire refl)))
              (pick [] (outside ∷ []) refl (queue_empty refl)))
            (pick [] (outside ∷ []) refl (reserve refl (omega arith))))
          (pick [] (outside ∷ []) refl (create 7 refl)))
        (pick [] (outside ∷ []) refl ready))
      (pick [] (outside ∷ []) refl (release_keep refl))

-- The pool is closed, no thread is in it, and its queue holds a session that is logged in.
left_behind : Reach 2 1 0 (state (shared (7 ∷ []) 1 true (7 ∷ [])) outside outside)
left_behind =
    next
      (next
        (next (next giving_back (pick (returning 7 ∷ []) [] refl close))
          (pick (returning 7 ∷ []) [] refl (close_empty refl)))
        (pick (returning 7 ∷ []) [] refl discarded))
      (pick [] (outside ∷ []) refl (put_nowait (omega arith)))

Reach-IsBounded_example : IsBounded (state (shared [] 1 false (7 ∷ [])) (returning 7) outside)
Reach-IsBounded_example = Reach-IsBounded giving_back

Reach-InOnePlace_example : InOnePlace (state (shared (7 ∷ []) 1 true (7 ∷ [])) outside outside)
Reach-InOnePlace_example = Reach-InOnePlace left_behind
