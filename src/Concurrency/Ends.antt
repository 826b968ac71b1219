-- ===== src/Concurrency/Ends.antt =====
-- The ends of the `with` blocks of gemstone_py/concurrency.py.
use gemstone_py.Prelude.{ℕ, ◌≡◌, refl, inl, inr, Bool}
use gemstone_py.Prelude.Exec.{Result, Result-cases, ok, err}
use gemstone_py.Client.{Gci, Client}
use gemstone_py.Client.Marshal.{Marshalled}
use gemstone_py.Concurrency.{
  interrupt, Helper, nested_transaction, Raised, finish, lock_source, remove_lock, lock, locked,
  coerce_oop, proxy, evaluate, end_level,
}
use gemstone_py.Prelude.Texts.{codes}

module _ (g : Gci) (E : Type 0) (me : ℕ) (float_is_true : g.Float → Bool) where
  -- A body that is interrupted leaves the nested level as it is: nothing is evaluated after it.
  interrupted_level_left :
      {A : Type 0} (body : Helper g E me float_is_true A) (c : Client g)
      {begun : Marshalled g.Float} {d d' : Client g} (e : E)
      → evaluate g E me float_is_true (codes "System beginNestedTransaction") c ≡ (ok begun, d)
      → body d ≡ (err (interrupt e), d')
      → nested_transaction g E me float_is_true body c ≡ (err (interrupt e), d')
  unfolding nested_transaction end_level
  interrupted_level_left body c e begin raised = rw (begin, raised) refl

  finish_state :
      {A : Type 0} (r : Result (Raised g.Float E) A)
      (m : Helper g E me float_is_true (Marshalled g.Float)) (c : Client g)
      → (finish g E me float_is_true r m c).1 ≡ (m c).1
  unfolding finish
  finish_state (ok a) m c = elim (Result-cases (m c).0) [
    | inl (v, p) ↦ rw p refl
    | inr (e, p) ↦ rw p refl
  ]
  finish_state (err e) m c = elim (Result-cases (m c).0) [
    | inl (v, p) ↦ rw p refl
    | inr (x, p) ↦ rw p refl
  ]

  -- However the body of a lock ends, the evaluation that removes the lock is the last.
  lock_removed :
      {A : Type 0} (body : Helper g E me float_is_true A) (oop : ℕ) (c : Client g)
      {taken : Marshalled g.Float} {d : Client g}
      → evaluate g E me float_is_true (lock_source g E me float_is_true (codes "writeLock") oop) c
        ≡ (ok taken, d)
      → (lock g E me float_is_true (proxy oop) body c).1
        ≡ (remove_lock g E me float_is_true oop (body d).1).1
  unfolding lock locked coerce_oop
  lock_removed body oop c {d = d} taken =
      rw taken (finish_state (body d).0 (remove_lock g E me float_is_true oop) (body d).1)
