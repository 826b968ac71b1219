-- ===== src/Migrations/Plan/Upgrade.antt =====
-- What an upgrade plan promises.
use mathlib.Core.List.{Mem, mem-cons, mem-cons_self, mem-cons_of_mem, not-mem-nil, Mem-prop}
use mathlib.Core.HLevel.{×_prop}
use mathlib.Core.List.Perm
use mathlib.Core.Logic.Or
use gemstone_py.Prelude.{
  ◌≡◌, sym, ap, ◌∙◌, ◌↔◌, String, Option, none, some, Bool, true, false, ◌||◌, List, [], ◌∷◌, arith,
  contains, string_eq, All, if◌then◌else◌, Bool-cases, inl, inr, ◌⊎◌,
}
use gemstone_py.Prelude.Exec.{ok, err, ok-injective, >>=-eq-ok}
use gemstone_py.Migrations.{MigrationStep, ids, unknown_target}
use gemstone_py.Migrations.Order.{ordered_steps}
use gemstone_py.Migrations.Order.Sound.{InOrder}
use gemstone_py.Migrations.Order.Table.{Bool-set}
use gemstone_py.Migrations.Order.Sorted.{ordered_steps_sorted}
use gemstone_py.Migrations.Plan.{is_target, pending_steps, plan_upgrade}

All-grow :
    (xs ys ds : List String)
    → ((x : String) → contains xs x ≡ true → contains ys x ≡ true)
    → All (λ d. contains xs d ≡ true) ds
    → All (λ d. contains ys d ≡ true) ds
All-grow xs ys [] h a = tt
All-grow xs ys (d ∷ ds) h a = (h d a.0, All-grow xs ys ds h a.1)

module _ {C : Type 0} where
  InOrder-stop :
      (b : Bool) (seen : List String) (ss : List (MigrationStep C))
      → InOrder seen ss
      → InOrder seen (if b then [] else ss)
  InOrder-stop true seen ss o = tt
  InOrder-stop false seen ss o = o

  -- `now` is what is applied when the loop has passed the steps `seen`.
  pending-InOrder :
      (applied seen now : List String) (target : Option String) (ss : List (MigrationStep C))
      → ((x : String) → contains now x ≡ (contains applied x || contains seen x))
      → InOrder seen ss
      → InOrder now (pending_steps applied target ss)
  unfolding pending_steps
  pending-InOrder applied seen now target [] h o = tt
  pending-InOrder applied seen now target (s ∷ ss) h o = elim (Bool-cases (contains applied s.id)) [
    | inl done ↦ rw done (
        InOrder-stop (is_target target s.id) now (pending_steps applied target ss)
          (pending-InOrder applied (s.id ∷ seen) now target ss (λ x. ground (arith, h x)) o.2))
    | inr due ↦ rw due (
      All-grow seen now s.dependencies (λ x k. ground (arith, h x)) o.0,
      ground (arith, h s.id),
      InOrder-stop (is_target target s.id) (s.id ∷ now) (pending_steps applied target ss) (
          pending-InOrder applied (s.id ∷ seen) (s.id ∷ now) target ss (λ x. ground (arith, h x))
            o.2),
    )
  ]

  -- Without a target the loop drops the applied steps, and nothing else.
  pending-mem :
      (applied : List String) (ss : List (MigrationStep C)) (s : MigrationStep C)
      → Mem s (pending_steps applied none ss) ↔ (Mem s ss × (contains applied s.id ≡ false))
  unfolding pending_steps
  pending-mem applied [] s = (λ m. absurd (not-mem-nil m), λ p. absurd (not-mem-nil p.0))
  pending-mem applied (t ∷ ss) s = elim (Bool-cases (contains applied t.id)) [
    | inl done ↦ rw done (
      λ m. let r = (pending-mem applied ss s).0 m in (mem-cons_of_mem t r.0, r.1),
      λ p.
          Or.elim Mem-prop (mem-cons.0 p.0) (λ e. cc (ap (λ z. contains applied z.id) e, done, p.1))
            (λ m. (pending-mem applied ss s).1 (m, p.1)),
    )
    | inr due ↦ rw due (
      λ m.
          Or.elim (×_prop Mem-prop (Bool-set _ _)) (mem-cons.0 m)
            (λ e. (rw e mem-cons_self, ap (λ z. contains applied z.id) e ∙ due))
            (λ k. let r = (pending-mem applied ss s).0 k in (mem-cons_of_mem t r.0, r.1)),
      λ p.
          Or.elim Mem-prop (mem-cons.0 p.0) (λ e. rw e mem-cons_self)
            (λ k. mem-cons_of_mem t ((pending-mem applied ss s).1 (k, p.1))),
    )
  ]

  plan_upgrade-ok :
      (steps : List (MigrationStep C)) (applied : List String) (target : Option String)
      (plan : List (MigrationStep C))
      → plan_upgrade steps applied target ≡ ok plan
      → (out : List (MigrationStep C)) × (ordered_steps steps ≡ ok out)
        × (plan ≡ pending_steps applied target out)
  unfolding plan_upgrade
  plan_upgrade-ok steps applied none plan h =
      let (out, e, r) =
        >>=-eq-ok (ordered_steps steps) (λ o. ok (pending_steps applied none o)) h in
      (out, e, sym (ok-injective r))
  plan_upgrade-ok steps applied (some t) plan h =
      let (out, e, r) =
        >>=-eq-ok (ordered_steps steps)
          (λ o.
            if contains (ids o) t
            then ok (pending_steps applied (some t) o)
            else err (unknown_target t))
          h in
      (out, e, ground arith)

  -- Each step of an upgrade plan is not applied yet, stands in the plan once, and all its
  -- dependencies are applied or stand before it in the plan.
  pub plan_upgrade_safe :
      (steps : List (MigrationStep C)) (applied : List String) (target : Option String)
      (plan : List (MigrationStep C))
      → plan_upgrade steps applied target ≡ ok plan
      → InOrder applied plan
  plan_upgrade_safe steps applied target plan h =
      let (out, e, r) = plan_upgrade-ok steps applied target plan h in
      rw r (
        pending-InOrder applied [] applied target out (λ x. ground arith)
          (ordered_steps_sorted steps out e).0)

  -- With no target the plan holds exactly the steps of the manifest that are not applied.
  plan_upgrade_complete :
      (steps : List (MigrationStep C)) (applied : List String) (plan : List (MigrationStep C))
      → plan_upgrade steps applied none ≡ ok plan
      → (s : MigrationStep C) → Mem s plan ↔ (Mem s steps × (contains applied s.id ≡ false))
  plan_upgrade_complete steps applied plan h s =
      let (out, e, r) = plan_upgrade-ok steps applied none plan h in
      let same = (ordered_steps_sorted steps out e).1 in
      rw r (
        λ m. let p = (pending-mem applied out s).0 m in ((Perm.mem_iff same).0 p.0, p.1),
        λ p. (pending-mem applied out s).1 ((Perm.mem_iff same).1 p.0, p.1),
      )

  target-pending :
      (applied : List String) (t : String) (ss : List (MigrationStep C))
      → contains (ids ss) t ≡ true
      → (contains applied t || contains (ids (pending_steps applied (some t) ss)) t) ≡ true
  unfolding pending_steps
  target-pending applied t [] h = cc
  target-pending applied t (s ∷ ss) h = ground (arith, target-pending applied t ss)

  -- After an upgrade to a target, the target is applied or was applied before; a target that the
  -- manifest lacks is refused.
  plan_upgrade_target :
      (steps : List (MigrationStep C)) (applied : List String) (t : String)
      (out : List (MigrationStep C))
      → ordered_steps steps ≡ ok out
      → ((plan : List (MigrationStep C)) × (plan_upgrade steps applied (some t) ≡ ok plan)
          × ((contains applied t || contains (ids plan) t) ≡ true))
        ⊎ ((plan_upgrade steps applied (some t) ≡ err (unknown_target t))
            × (contains (ids out) t ≡ false))
  unfolding plan_upgrade
  plan_upgrade_target steps applied t out h = elim (Bool-cases (contains (ids out) t)) [
    | inl here ↦ inl (
      pending_steps applied (some t) out,
      rw (h, here, plan_upgrade),
      target-pending applied t out here,
    )
    | inr gone ↦ inr (rw (h, gone, plan_upgrade), gone)
  ]
