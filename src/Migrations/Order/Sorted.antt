-- ===== src/Migrations/Order/Sorted.antt =====
-- The order that `_ordered_steps` returns.
use mathlib.Core.List.{Mem, Perm, mem-cons, not-mem-nil, perm_ext_iff_of_Nodup, Mem-prop}
use mathlib.Core.Logic.Or
use gemstone_py.Prelude.{ℕ, ◌≡◌, sym, subst, String, some, List, [], ◌∷◌, string_eq, All, length}
use gemstone_py.Prelude.Dict
use gemstone_py.Prelude.Dict.{Dict}
use gemstone_py.Prelude.Exec.{ok, ◌>>=◌, >>=-eq-ok, ok-injective}
use gemstone_py.Migrations.{MigrationStep}
use gemstone_py.Migrations.Order.{
  VisitState, index_steps, visit, visit_all, unvisited, ordered_steps,
}
use gemstone_py.Migrations.Order.Sound.{
  InOrder, IsTable, IsVisit, Extends, Extends-refl, Extends-trans, visit-Visits, unvisited-IsVisit,
}
use gemstone_py.Migrations.Order.Table.{
  Distinct, Distinct-Nodup, index_steps-Distinct, index_steps-All, steps-IsTable,
}

module _ {C : Type 0} where
  InOrder-Distinct :
      (seen : List String) (ss : List (MigrationStep C)) → InOrder seen ss → Distinct seen ss
  InOrder-Distinct seen [] h = tt
  InOrder-Distinct seen (s ∷ ss) h = (h.1, InOrder-Distinct (s.id ∷ seen) ss h.2)

  pub mem-All :
      (P : MigrationStep C → Type 0)
      → ((s : MigrationStep C) → IsProp (P s))
      → (ss : List (MigrationStep C)) (s : MigrationStep C) → All P ss
      → Mem s ss
      → P s
  mem-All P prop [] s h m = absurd (not-mem-nil m)
  mem-All P prop (t ∷ ss) s h m =
      Or.elim (prop s) (mem-cons.0 m) (λ e. subst P (sym e) h.0) (mem-All P prop ss s h.1)

  module _ (P : MigrationStep C → Type 0) (by_id : Dict String (MigrationStep C)) where
    visit_all-Extends :
        (fuel : ℕ) (ss : List (MigrationStep C)) (v w : VisitState C)
        → IsTable P by_id
        → All (λ s. Dict.lookup s.id by_id ≡ some s) ss
        → IsVisit P by_id v
        → visit_all by_id fuel ss v ≡ ok w
        → IsVisit P by_id w × Extends P by_id v w × All (λ s. Mem s w.ordered) ss
    unfolding visit_all
    visit_all-Extends fuel [] v w t k i h =
        subst (λ u. IsVisit P by_id u × Extends P by_id v u × Unit {0}) (ok-injective h)
          (i, Extends-refl P by_id v, tt)
    visit_all-Extends fuel (s ∷ ss) v w t k i h =
        let (u, first, rest) = >>=-eq-ok (visit by_id fuel s v) (visit_all by_id fuel ss) h in
        let (iu, xu, du) = visit-Visits P by_id t fuel s v u k.0 i first in
        let (iw, xw, dw) = visit_all-Extends fuel ss u w t k.1 iu rest in
        (iw, Extends-trans P by_id xu xw, (iw.placed s k.0 (xw.grows s.id du), dw))

  sorted_of_visit_all :
      (steps : List (MigrationStep C)) (by_id : Dict String (MigrationStep C)) (w : VisitState C)
      → index_steps steps [] ≡ ok by_id
      → visit_all by_id (length steps) steps unvisited ≡ ok w
      → InOrder [] w.ordered × Perm w.ordered steps
  sorted_of_visit_all steps by_id w indexed visited =
      let Given : MigrationStep C → Type 0 = λ s. Mem s steps in
      let table = steps-IsTable Given steps by_id (λ s m. m) indexed in
      let (iw, xw, placed) =
        visit_all-Extends Given by_id (length steps) steps unvisited w table
          (index_steps-All steps [] by_id indexed) (unvisited-IsVisit Given by_id) visited in
      (
        iw.in_order,
        (perm_ext_iff_of_Nodup
              (Distinct-Nodup [] w.ordered (InOrder-Distinct [] w.ordered iw.in_order))
              (Distinct-Nodup [] steps (index_steps-Distinct steps [] by_id indexed))).1
            (λ s. (
              mem-All Given (λ x. Mem-prop) w.ordered s iw.known,
              mem-All (λ x. Mem x w.ordered) (λ x. Mem-prop) steps s placed,
            )),
      )

  -- When the ordering succeeds, it is a permutation of the steps in which every dependency of a step
  -- stands before the step.
  pub ordered_steps_sorted :
      (steps out : List (MigrationStep C))
      → ordered_steps steps ≡ ok out
      → InOrder [] out × Perm out steps
  unfolding ordered_steps
  ordered_steps_sorted steps out h =
      let (by_id, indexed, rest) =
        >>=-eq-ok (index_steps steps [])
          (λ by_id. visit_all by_id (length steps) steps unvisited >>= λ v. ok v.ordered) h in
      let (w, visited, done) =
        >>=-eq-ok (visit_all by_id (length steps) steps unvisited) (λ v. ok v.ordered) rest in
      subst (λ o. InOrder [] o × Perm o steps) (ok-injective done)
        (sorted_of_visit_all steps by_id w indexed visited)
