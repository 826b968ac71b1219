-- ===== src/Pool/Threads/Places.antt =====
-- Where a session is, in every state that the threads can reach.
use gemstone_py.Prelude.{
  ℕ, zero, suc, ◌+◌, ◌≤◌, ◌≡◌, refl, ap, List, [], ◌∷◌, ◌++◌, arith, if◌then◌else◌, nat_eq, ◌==◌,
  contains,
}
use gemstone_py.Pool.Threads.{
  Shared, Pc, outside, using, acquiring, looking, reserved, waiting, checking, returning, warming,
  dropping, closing, sweeping, judging, evicting, restoring, Move, start_acquire, get_nowait, get,
  close_get, sweep_get, create, warm_create, warm_unhealthy, System, Step, pick, Reach, start, next,
  all_outside,
}

-- How often the session stands in the list.
abbrev occurrences : ℕ → List ℕ → ℕ
occurrences x [] = 0
occurrences x (y ∷ ys) = (if x == y then 1 else 0) + occurrences x ys

-- How often the thread has it.
abbrev pub held : ℕ → Pc → ℕ
held x outside = 0
held x (using s) = occurrences x (s ∷ [])
held x acquiring = 0
held x looking = 0
held x reserved = 0
held x waiting = 0
held x (checking s) = occurrences x (s ∷ [])
held x (returning s) = occurrences x (s ∷ [])
held x warming = 0
held x (dropping ss) = occurrences x ss
held x (closing ss) = occurrences x ss
held x (sweeping ss) = occurrences x ss
held x (judging ss kept) = occurrences x ss + occurrences x kept
held x (evicting s ss kept) = occurrences x (s ∷ ss) + occurrences x kept
held x (restoring ss) = occurrences x ss

abbrev all_held : ℕ → List Pc → ℕ
all_held x [] = 0
all_held x (p ∷ ps) = held x p + all_held x ps

all_held-append : (x : ℕ) (ps qs : List Pc) → all_held x (ps ++ qs) ≡ all_held x ps + all_held x qs
all_held-append x [] qs = omega arith
all_held-append x (p ∷ ps) qs = omega (arith, all_held-append x ps qs)

focus :
    (x : ℕ) (before behind : List Pc) (p : Pc)
    → all_held x (before ++ p ∷ behind) ≡ held x p + (all_held x before + all_held x behind)
focus x before behind p = omega (arith, all_held-append x before (p ∷ behind))

-- `others` places are with other threads.
Once : ℕ → ℕ → Shared → Pc → Type 0
Once x others m p =
    occurrences x m.available + held x p + others ≤ (if contains m.made x then 1 else 0)

Move-Once :
    {m m' : Shared} {p q : Pc} (x others : ℕ)
    → Move m p m' q
    → Once x others m p
    → Once x others m' q
unfolding Once
Move-Once x others (start_acquire h) w = w
Move-Once x others (get_nowait h) w = ground (arith, ap (occurrences x) h)
Move-Once x others (get h) w = ground (arith, ap (occurrences x) h)
Move-Once x others (close_get h) w = ground (arith, ap (occurrences x) h)
Move-Once x others (sweep_get h) w = ground (arith, ap (occurrences x) h)
Move-Once x others (create s h) w = ground arith
Move-Once x others (warm_create s h) w = ground arith
Move-Once x others (warm_unhealthy s h) w = ground arith
Move-Once x others _ w = ground arith

-- A session is in the queue or with one thread, or nowhere.
abbrev pub InOnePlace : System → Type 0
InOnePlace s = (x : ℕ) → occurrences x s.mem.available + all_held x s.threads ≤ 1

MadeOnce : System → Type 0
MadeOnce s =
    (x : ℕ)
    → occurrences x s.mem.available + all_held x s.threads
      ≤ (if contains s.mem.made x then 1 else 0)

Step-MadeOnce : {s t : System} → Step s t → MadeOnce s → MadeOnce t
unfolding Once MadeOnce
Step-MadeOnce {s} (pick {m = m} {p = p} {q = q} before behind e v) h x =
    let w : Once x (all_held x before + all_held x behind) s.mem p =
      omega (arith, h x, ap (all_held x) e, focus x before behind p) in
    omega (arith, Move-Once x (all_held x before + all_held x behind) v w, focus x before behind q)

all_held-outside : (x n : ℕ) → all_held x (all_outside n) ≡ 0
all_held-outside x zero = refl
all_held-outside x (suc n) = omega (arith, all_held-outside x n)

Reach-MadeOnce : {n maxsize minsize : ℕ} {s : System} → Reach n maxsize minsize s → MadeOnce s
unfolding MadeOnce
Reach-MadeOnce {n} start x = omega (arith, all_held-outside x n)
Reach-MadeOnce (next r st) x = Step-MadeOnce st (Reach-MadeOnce r) x

-- However threads interleave their calls on a new pool, at every moment a session stands once in
-- the queue or is with one thread, or neither.
pub Reach-InOnePlace :
    {n maxsize minsize : ℕ} {s : System} → Reach n maxsize minsize s → InOnePlace s
unfolding MadeOnce
Reach-InOnePlace r x = ground (arith, Reach-MadeOnce r x)
