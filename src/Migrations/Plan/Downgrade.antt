-- ===== src/Migrations/Plan/Downgrade.antt =====
-- What a rollback plan promises.
use mathlib.Core.List.{Mem, reverse-cons, reverse-reverse}
use mathlib.Core.List.Perm
use mathlib.Core.HLevel.{Π_prop}
use gemstone_py.Prelude.{
  ◌≡◌, refl, sym, ◌∙◌, String, Option, none, some, true, false, List, [], ◌∷◌, ◌++◌, arith, ◌==◌,
  contains, string_eq, All, All-append, All-map, All-zip, All-intro, Bool-cases, inl, inr, reverse,
}
use gemstone_py.Prelude.Exec.{ok, ok-injective, >>=-eq-ok}
use gemstone_py.Migrations.{MigrationStep}
use gemstone_py.Migrations.Order.{discard, ordered_steps}
use gemstone_py.Migrations.Order.Sound.{InOrder, contains-discard}
use gemstone_py.Migrations.Order.Table.{Bool-set}
use gemstone_py.Migrations.Order.Sorted.{ordered_steps_sorted, mem-All}
use gemstone_py.Migrations.Plan.{
  is_target, without_base, rollback_steps, rollback_to, plan_downgrade,
}

absent_of_seen :
    (seen ds : List String) (k : String)
    → All (λ d. contains seen d ≡ true) ds
    → contains seen k ≡ false
    → contains ds k ≡ false
absent_of_seen seen [] k a h = refl
absent_of_seen seen (d ∷ ds) k a h = ground (arith, absent_of_seen seen ds k a.1)

module _ {C : Type 0} where
  -- Each step of the plan is applied when its turn comes, and no applied step of `all` depends on it.
  abbrev pub CanUndo : List (MigrationStep C) → List String → List (MigrationStep C) → Type 0
  CanUndo all applied [] = Unit {0}
  CanUndo all applied (s ∷ plan) =
      (contains applied s.id ≡ true)
      × ((u : MigrationStep C)
          → Mem u all
          → contains u.dependencies s.id ≡ true
          → contains applied u.id ≡ false)
      × CanUndo all (discard s.id applied) plan

  -- The order read backwards: neither a step nor what follows it here depends on it.
  abbrev Backwards : List (MigrationStep C) → Type 0
  Backwards [] = Unit {0}
  Backwards (s ∷ ss) =
      All (λ u. contains u.dependencies s.id ≡ false) (s ∷ ss)
      × All (λ u. (u.id == s.id) ≡ false) ss
      × Backwards ss

  Backwards-snoc :
      (ss : List (MigrationStep C)) (x : MigrationStep C)
      → Backwards ss
      → All (λ s. (contains x.dependencies s.id ≡ false) × ((x.id == s.id) ≡ false)) ss
      → contains x.dependencies x.id ≡ false
      → Backwards (ss ++ x ∷ [])
  Backwards-snoc [] x b a d = ((d, tt), tt, tt)
  Backwards-snoc (s ∷ ss) x b a d = (
    (b.0.0, All-append _ ss (x ∷ []) b.0.1 (a.0.0, tt)),
    All-append _ ss (x ∷ []) b.1 (a.0.1, tt),
    Backwards-snoc ss x b.2 a.1 d,
  )

  -- What comes later in the order is not among the dependencies of `x`.
  later_absent :
      (seen : List String) (x : MigrationStep C) (now : List String) (ss : List (MigrationStep C))
      → All (λ d. contains seen d ≡ true) x.dependencies
      → ((k : String) → contains (x.id ∷ seen) k ≡ true → contains now k ≡ true)
      → InOrder now ss
      → All (λ s. (contains x.dependencies s.id ≡ false) × ((x.id == s.id) ≡ false)) ss
  later_absent seen x now [] a h o = tt
  later_absent seen x now (s ∷ ss) a h o = (
    (absent_of_seen seen x.dependencies s.id a (ground (arith, h s.id)), ground (arith, h s.id)),
    later_absent seen x (s.id ∷ now) ss a (λ k p. ground (arith, h k)) o.2,
  )

  All-reverse :
      (P : MigrationStep C → Type 0) (ss : List (MigrationStep C)) → All P ss → All P (reverse ss)
  All-reverse P [] a = tt
  All-reverse P (s ∷ ss) a =
      rw (reverse-cons s ss) (All-append P (reverse ss) (s ∷ []) (All-reverse P ss a.1) (a.0, tt))

  All-unreverse :
      (P : MigrationStep C → Type 0) (ss : List (MigrationStep C)) → All P (reverse ss) → All P ss
  All-unreverse P ss a = rw (reverse-reverse ss) at (All-reverse P (reverse ss) a)

  InOrder-Backwards :
      (seen : List String) (ss : List (MigrationStep C)) → InOrder seen ss → Backwards (reverse ss)
  InOrder-Backwards seen [] o = tt
  InOrder-Backwards seen (s ∷ ss) o = rw (reverse-cons s ss) (
      Backwards-snoc (reverse ss) s (InOrder-Backwards (s.id ∷ seen) ss o.2)
        (All-reverse _ ss (later_absent seen s (s.id ∷ seen) ss o.0 (λ k h. h) o.2))
        (absent_of_seen seen s.dependencies s.id o.0 o.1))

  -- `now` is what is still applied when the loop has passed the steps `gone`.
  rollback-CanUndo :
      (all : List (MigrationStep C)) (applied now : List String) (target : Option String)
      (ss gone : List (MigrationStep C))
      → ((P : MigrationStep C → Type 0)
          → ((u : MigrationStep C) → IsProp (P u))
          → All P ss
          → All P gone
          → (u : MigrationStep C) → Mem u all
          → P u)
      → Backwards ss
      → All (λ u. contains now u.id ≡ contains applied u.id) ss
      → All (λ u. contains now u.id ≡ false) gone
      → CanUndo all now (rollback_steps applied target ss)
  unfolding rollback_steps
  rollback-CanUndo all applied now target [] gone cover b same off = tt
  rollback-CanUndo all applied now target (s ∷ ss) gone cover b same off =
      elim (Bool-cases (contains applied s.id)) [
        | inl held ↦ elim (Bool-cases (is_target target s.id)) [
          | inl stop ↦ rw (held, stop) tt
          | inr on ↦
              rw (held, on)
                (
                  same.0 ∙ held,
                  cover (λ u. contains u.dependencies s.id ≡ true → contains now u.id ≡ false)
                      (λ u. Π_prop (λ _. Bool-set _ _)) (All-map _ _ (s ∷ ss) (λ u e h. cc) b.0)
                      (All-map _ _ gone (λ u e h. e) off),
                  rollback-CanUndo all applied (discard s.id now) target ss (s ∷ gone)
                      (λ P p a g. cover P p (g.0, a) g.1) b.2
                      (All-zip _ _ _ ss (λ u ne e. ground (arith, contains-discard u.id s.id now))
                        b.1 same.1)
                      (
                        ground (arith, contains-discard s.id s.id now),
                        All-map _ _ gone (λ u e. ground (arith, contains-discard u.id s.id now))
                            off,
                      ),
                )
        ]
        | inr free ↦ rw free (
            rollback-CanUndo all applied now target ss (s ∷ gone)
              (λ P p a g. cover P p (g.0, a) g.1) b.2 same.1 (same.0 ∙ free, off))
      ]

  rollback_to-ok :
      (applied : List String) (goal : Option String) (out plan : List (MigrationStep C))
      → rollback_to applied goal out ≡ ok plan
      → plan ≡ rollback_steps applied goal (reverse out)
  unfolding rollback_to
  rollback_to-ok applied none out plan h = sym (ok-injective h)
  rollback_to-ok applied (some t) out plan h = ground arith

  plan_downgrade-ok :
      (steps : List (MigrationStep C)) (applied : List String) (target : Option String)
      (plan : List (MigrationStep C))
      → plan_downgrade steps applied target ≡ ok plan
      → (out : List (MigrationStep C)) × (goal : Option String) × (ordered_steps steps ≡ ok out)
        × (plan ≡ rollback_steps applied goal (reverse out))
  unfolding plan_downgrade
  plan_downgrade-ok steps applied target plan h =
      let (out, e, r) =
        >>=-eq-ok (ordered_steps steps) (rollback_to applied (without_base target)) h in
      (out, without_base target, e, rollback_to-ok applied (without_base target) out plan r)

  -- In a rollback plan every step is applied when its turn comes, and by then no applied step of the
  -- manifest depends on it.
  pub plan_downgrade_safe :
      (steps : List (MigrationStep C)) (applied : List String) (target : Option String)
      (plan : List (MigrationStep C))
      → plan_downgrade steps applied target ≡ ok plan
      → CanUndo steps applied plan
  plan_downgrade_safe steps applied target plan h =
      let (out, goal, e, r) = plan_downgrade-ok steps applied target plan h in
      let (o, same) = ordered_steps_sorted steps out e in
      rw r (
        rollback-CanUndo steps applied applied goal (reverse out) []
          (λ P p a g u m. mem-All P p out u (All-unreverse P out a) ((Perm.mem_iff same).1 m))
          (InOrder-Backwards [] out o) (All-intro _ (reverse out) (λ u. refl)) tt)
