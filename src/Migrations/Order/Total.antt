-- ===== src/Migrations/Order/Total.antt =====
-- When `_ordered_steps` finds an order.
use gemstone_py.Prelude.{
  ℕ, zero, suc, ◌≤◌, ◌<◌, ◌≡◌, refl, ap, sym, ◌∙◌, String, some, true, false, List, [], ◌∷◌, arith,
  contains, string_eq, length, All, All-prop, Bool-cases, inl, inr,
}
use native.Mathlib.Bridge.{le_prop}
use gemstone_py.Migrations.Order.Sorted.{mem-All}
use gemstone_py.Prelude.Dict
use gemstone_py.Prelude.Dict.{Dict}
use gemstone_py.Prelude.Exec.{Result, ok, ◌>>=◌, >>=-ok}
use gemstone_py.Migrations.{MigrationStep, MigrationError, ids}
use gemstone_py.Migrations.Order.{
  VisitState, index_steps, enter, leave, visit_dependencies, visit, visit_all, unvisited,
  ordered_steps,
}
use gemstone_py.Migrations.Order.Sound.{
  IsTable, IsVisit, Visits, visit-Visits, enter-IsVisit, unvisited-IsVisit,
}
use gemstone_py.Migrations.Order.Room.{room, room-same, room-cons-lt, room-index_steps}
use gemstone_py.Migrations.Order.Table.{
  Bool-set, Distinct, index_steps-All, index_steps-total, steps-IsTable, lookup_of_ids,
}

module _ {C : Type 0} (rank : String → ℕ) (known : List String) where
  -- The dependencies of a step are known, and of a lower rank.
  abbrev IsRanked : MigrationStep C → Type 0
  IsRanked s = All (λ d. (contains known d ≡ true) × (rank d < rank s.id)) s.dependencies

  module _ (by_id : Dict String (MigrationStep C)) where
    abbrev Held : Type 0
    Held =
        (k : String)
        → contains known k ≡ true
        → (s : MigrationStep C) × (Dict.lookup k by_id ≡ some s)

    -- All that is on the path has a rank above `n`.
    abbrev Above : ℕ → List String → Type 0
    Above n path = (x : String) → contains path x ≡ true → n < rank x

    abbrev Succeeds :
        ℕ → (MigrationStep C → VisitState C → Result MigrationError (VisitState C)) → Type 0
    Succeeds n go =
        (s : MigrationStep C) (v : VisitState C)
        → Dict.lookup s.id by_id ≡ some s
        → IsVisit IsRanked by_id v
        → Above (rank s.id) v.visiting
        → room by_id v.visiting ≤ n
        → (w : VisitState C) × (go s v ≡ ok w)

    visit_dependencies-Succeeds :
        (go : MigrationStep C → VisitState C → Result MigrationError (VisitState C)) (n : ℕ)
        → Visits IsRanked by_id go
        → Succeeds n go
        → IsTable IsRanked by_id
        → Held
        → (s : MigrationStep C) (ds : List String) (v : VisitState C)
        → All (λ d. (contains known d ≡ true) × (rank d < rank s.id)) ds
        → IsVisit IsRanked by_id v
        → ((x : String) → contains v.visiting x ≡ true → rank s.id ≤ rank x)
        → room by_id v.visiting ≤ n
        → (w : VisitState C) × (visit_dependencies go by_id s ds v ≡ ok w)
    unfolding visit_dependencies
    visit_dependencies-Succeeds go n each runs t held s [] v a i up r = (v, refl)
    visit_dependencies-Succeeds go n each runs t held s (d ∷ ds) v a i up r =
        let (x, e) = held d a.0.0 in
        let (named, px) = t d x e in
        let found : Dict.lookup x.id by_id ≡ some x = simp named e in
        rw (e, visit_dependencies)
          (>>=-ok (go x v) (visit_dependencies go by_id s ds)
            (runs x v found i (λ y h. omega (arith, a.0.1, up y h, ap rank named)) r)
            (λ u h.
              let (iu, xu, du) = each x v u found i h in
              visit_dependencies-Succeeds go n each runs t held s ds u a.1 iu
                (λ y k. up y (sym (xu.path y) ∙ k))
                (rw (room-same by_id u.visiting v.visiting xu.path) r)))

    visit-Succeeds : IsTable IsRanked by_id → Held → (fuel : ℕ) → Succeeds fuel (visit by_id fuel)
    unfolding visit
    visit-Succeeds t held zero s v k i up r = elim (Bool-cases (contains v.visited s.id)) [
      | inl old ↦ rw (old, visit) (v, refl)
      | inr new ↦ elim (Bool-cases (contains v.visiting s.id)) [
        | inl cycle ↦ absurd (omega (arith, up s.id cycle))
        | inr off ↦ absurd (omega (arith, room-cons-lt by_id s.id s v.visiting k off))
      ]
    ]
    visit-Succeeds t held (suc fuel) s v k i up r = elim (Bool-cases (contains v.visited s.id)) [
      | inl old ↦ rw (old, visit) (v, refl)
      | inr new ↦ elim (Bool-cases (contains v.visiting s.id)) [
        | inl cycle ↦ absurd (omega (arith, up s.id cycle))
        | inr off ↦
            rw (new, off, visit)
              (>>=-ok (visit_dependencies (visit by_id fuel) by_id s s.dependencies (enter s v))
                (λ w. ok (leave s w))
                (visit_dependencies-Succeeds (visit by_id fuel) fuel
                  (visit-Visits IsRanked by_id t fuel) (visit-Succeeds t held fuel) t held s
                  s.dependencies (enter s v) (t s.id s k).1 (enter-IsVisit IsRanked by_id s v i new)
                  (λ y h. ground (arith, up y))
                  (omega (arith, room-cons-lt by_id s.id s v.visiting k off)))
                (λ w e. (leave s w, refl)))
      ]
    ]

    visit_all-Succeeds :
        IsTable IsRanked by_id
        → Held
        → (fuel : ℕ) (ss : List (MigrationStep C)) (v : VisitState C)
        → All (λ s. Dict.lookup s.id by_id ≡ some s) ss
        → IsVisit IsRanked by_id v
        → ((x : String) → contains v.visiting x ≡ false)
        → room by_id v.visiting ≤ fuel
        → (w : VisitState C) × (visit_all by_id fuel ss v ≡ ok w)
    unfolding visit_all
    visit_all-Succeeds t held fuel [] v k i off r = (v, refl)
    visit_all-Succeeds t held fuel (s ∷ ss) v k i off r =
        >>=-ok (visit by_id fuel s v) (visit_all by_id fuel ss)
          (visit-Succeeds t held fuel s v k.0 i (λ x h. cc (off x)) r)
          (λ u h.
            let (iu, xu, du) = visit-Visits IsRanked by_id t fuel s v u k.0 i h in
            visit_all-Succeeds t held fuel ss u k.1 iu (λ x. xu.path x ∙ off x)
              (rw (room-same by_id u.visiting v.visiting xu.path) r))

module _ {C : Type 0} where
  IsRanked-prop :
      (rank : String → ℕ) (known : List String) (s : MigrationStep C)
      → IsProp (IsRanked rank known s)
  IsRanked-prop rank known s = All-prop _ (λ d. hlevel (le_prop, Bool-set)) s.dependencies

  -- If no two steps share an id, every dependency is the id of a step, and the dependencies of each
  -- step have a lower rank (so that there is no cycle), then the ordering succeeds.
  pub ordered_steps_complete :
      (steps : List (MigrationStep C)) (rank : String → ℕ)
      → Distinct [] steps
      → All (IsRanked rank (ids steps)) steps
      → (out : List (MigrationStep C)) × (ordered_steps steps ≡ ok out)
  unfolding ordered_steps
  ordered_steps_complete steps rank distinct ranked =
      >>=-ok (index_steps steps [])
        (λ by_id. visit_all by_id (length steps) steps unvisited >>= λ v. ok v.ordered)
        (index_steps-total steps [] distinct)
        (λ by_id h.
          >>=-ok (visit_all by_id (length steps) steps unvisited) (λ v. ok v.ordered)
            (visit_all-Succeeds rank (ids steps) by_id
              (steps-IsTable (IsRanked rank (ids steps)) steps by_id
                (λ s.
                  mem-All (IsRanked rank (ids steps)) (IsRanked-prop rank (ids steps)) steps s
                    ranked)
                h)
              (λ k c. lookup_of_ids steps by_id k (index_steps-All steps [] by_id h) c)
              (length steps) steps unvisited (index_steps-All steps [] by_id h)
              (unvisited-IsVisit (IsRanked rank (ids steps)) by_id) (λ x. refl)
              (room-index_steps steps by_id h))
            (λ w e. (w.ordered, refl)))
