-- ===== src/Pool/Threads/Capacity.antt =====
-- The limit on sessions, in every state that the threads can reach.
use gemstone_py.Prelude.{
  ℕ, zero, suc, ◌+◌, ◌≤◌, ◌<◌, ◌≡◌, refl, ap, List, [], ◌∷◌, ◌++◌, length, arith,
}
use gemstone_py.Pool.Threads.{
  Shared, Pc, outside, using, acquiring, looking, reserved, waiting, checking, returning, warming,
  dropping, closing, sweeping, judging, evicting, restoring, Move, start_acquire, get_nowait, get,
  reserve, warm_reserve, close_get, sweep_get, System, Step, pick, Reach, start, next, all_outside,
}

-- The slots that a thread holds.
abbrev slots : Pc → ℕ
slots outside = 0
slots (using s) = 1
slots acquiring = 0
slots looking = 0
slots reserved = 1
slots waiting = 0
slots (checking s) = 1
slots (returning s) = 1
slots warming = 1
slots (dropping ss) = length ss
slots (closing ss) = length ss
slots (sweeping ss) = length ss
slots (judging ss kept) = length ss + length kept
slots (evicting s ss kept) = 1 + length ss + length kept
slots (restoring ss) = length ss

abbrev all_slots : List Pc → ℕ
all_slots [] = 0
all_slots (p ∷ ps) = slots p + all_slots ps

all_slots-append : (ps qs : List Pc) → all_slots (ps ++ qs) ≡ all_slots ps + all_slots qs
all_slots-append [] qs = omega arith
all_slots-append (p ∷ ps) qs = omega (arith, all_slots-append ps qs)

-- `others` slots are with other threads.
Within : ℕ → Shared → Pc → Type 0
Within others m p = (length m.available + slots p + others ≤ m.created) × (m.created ≤ m.maxsize)

Move-Within :
    {m m' : Shared} {p q : Pc} (others : ℕ) → Move m p m' q → Within others m p → Within others m' q
unfolding Within
Move-Within others (start_acquire h) w = w
Move-Within others (get_nowait h) w = ground (arith, ap length h)
Move-Within others (get h) w = ground (arith, ap length h)
Move-Within others (close_get h) w = ground (arith, ap length h)
Move-Within others (sweep_get h) w = ground (arith, ap length h)
Move-Within others (reserve h room) w = ground arith
Move-Within others (warm_reserve h room) w = ground arith
Move-Within others _ w = ground arith

-- The idle sessions and those of the threads have slots, and there are at most `maxsize` slots.
pub record IsBounded (s : System) : Type 0 where
  pub counted : length s.mem.available + all_slots s.threads ≤ s.mem.created
  pub bounded : s.mem.created ≤ s.mem.maxsize

focus :
    (before behind : List Pc) (p : Pc)
    → all_slots (before ++ p ∷ behind) ≡ slots p + (all_slots before + all_slots behind)
focus before behind p = omega (arith, all_slots-append before (p ∷ behind))

Within-of-IsBounded :
    (s : System) (before behind : List Pc) (p : Pc)
    → s.threads ≡ before ++ p ∷ behind
    → IsBounded s
    → Within (all_slots before + all_slots behind) s.mem p
unfolding Within
Within-of-IsBounded s before behind p e b =
    (omega (arith, b.counted, ap all_slots e, focus before behind p), b.bounded)

IsBounded-of-Within :
    (m : Shared) (before behind : List Pc) (q : Pc)
    → Within (all_slots before + all_slots behind) m q
    → IsBounded (record { mem = m; threads = before ++ q ∷ behind })
unfolding Within
IsBounded-of-Within m before behind q w = record {
  counted = omega (arith, w.0, focus before behind q);
  bounded = w.1;
}

Step-IsBounded : {s t : System} → Step s t → IsBounded s → IsBounded t
Step-IsBounded {s} (pick {m = m} {p = p} {q = q} before behind e v) b =
    IsBounded-of-Within m before behind q (
      Move-Within (all_slots before + all_slots behind) v
        (Within-of-IsBounded s before behind p e b))

all_slots-outside : (n : ℕ) → all_slots (all_outside n) ≡ 0
all_slots-outside zero = refl
all_slots-outside (suc n) = omega (arith, all_slots-outside n)

-- However threads interleave their calls of acquire, release, warm, sweep_idle and close on a new
-- pool, at every moment the idle sessions and those that a thread has are at most the sessions
-- that are counted as created, and these are at most maxsize.
pub Reach-IsBounded : {n maxsize minsize : ℕ} {s : System} → Reach n maxsize minsize s → IsBounded s
Reach-IsBounded {n} start = record {
  counted = omega (arith, all_slots-outside n);
  bounded = omega arith;
}
Reach-IsBounded (next r st) = Step-IsBounded st (Reach-IsBounded r)

-- However threads interleave their calls on a new pool, whenever a thread has a session or a slot
-- the queue has room, so that no put_nowait of its session raises queue.Full.
queue_has_room :
    {n maxsize minsize : ℕ} {s : System} (p : Pc) (before behind : List Pc)
    → Reach n maxsize minsize s
    → s.threads ≡ before ++ p ∷ behind
    → 0 < slots p
    → length s.mem.available < s.mem.maxsize
unfolding Within
queue_has_room {s = s} p before behind r e some_slot =
    let w = Within-of-IsBounded s before behind p e (Reach-IsBounded r) in omega (arith, w.0, w.1)
