-- ===== src/Migrations/Order/Fuel.antt =====
-- The fuel of `visit`.
use gemstone_py.Prelude.{
  ℕ, zero, suc, ◌≤◌, ◌≡◌, ◌≢◌, String, some, List, [], ◌∷◌, arith, contains, string_eq, length, All,
  Bool-cases, Option-cases, inl, inr,
}
use gemstone_py.Prelude.Dict
use gemstone_py.Prelude.Dict.{Dict}
use gemstone_py.Prelude.Exec.{Result, ok, err, ◌>>=◌, >>=-ne-err}
use gemstone_py.Migrations.{MigrationStep, MigrationError, out_of_fuel}
use gemstone_py.Migrations.Order.{
  VisitState, index_steps, enter, leave, visit_dependencies, visit, visit_all, unvisited,
  ordered_steps,
}
use gemstone_py.Migrations.Order.Sound.{
  IsTable, IsVisit, Visits, visit-Visits, enter-IsVisit, unvisited-IsVisit,
}
use gemstone_py.Migrations.Order.Table.{index_steps-All, steps-IsTable}
use gemstone_py.Migrations.Order.Room.{room, room-same, room-cons-lt, room-index_steps}

module _ {C : Type 0} (P : MigrationStep C → Type 0) (by_id : Dict String (MigrationStep C)) where
  abbrev Finishes :
      ℕ → (MigrationStep C → VisitState C → Result MigrationError (VisitState C)) → Type 0
  Finishes n go =
      (s : MigrationStep C) (v : VisitState C)
      → Dict.lookup s.id by_id ≡ some s
      → IsVisit P by_id v
      → room by_id v.visiting ≤ n
      → go s v ≢ err out_of_fuel

  visit_dependencies-Finishes :
      (go : MigrationStep C → VisitState C → Result MigrationError (VisitState C)) (n : ℕ)
      → Visits P by_id go
      → Finishes n go
      → IsTable P by_id
      → (s : MigrationStep C) (ds : List String) (v : VisitState C) → IsVisit P by_id v
      → room by_id v.visiting ≤ n
      → visit_dependencies go by_id s ds v ≢ err out_of_fuel
  unfolding visit_dependencies
  visit_dependencies-Finishes go n each ends t s [] v i r = λ h. cc
  visit_dependencies-Finishes go n each ends t s (d ∷ ds) v i r =
      elim (Option-cases (Dict.lookup d by_id)) [
        | inl e ↦ rw (e, visit_dependencies) (λ h. cc)
        | inr (x, e) ↦
            let (named, px) = t d x e in
            let found : Dict.lookup x.id by_id ≡ some x = simp named e in
            rw (e, visit_dependencies)
              (>>=-ne-err (go x v) (visit_dependencies go by_id s ds) out_of_fuel
                (ends x v found i r)
                (λ u h.
                  let (iu, xu, du) = each x v u found i h in
                  visit_dependencies-Finishes go n each ends t s ds u iu
                    (rw (room-same by_id u.visiting v.visiting xu.path) r)))
      ]

  visit-Finishes : IsTable P by_id → (fuel : ℕ) → Finishes fuel (visit by_id fuel)
  unfolding visit
  visit-Finishes t zero s v k i r = ground (arith, room-cons-lt by_id s.id s v.visiting k)
  visit-Finishes t (suc fuel) s v k i r = elim (Bool-cases (contains v.visited s.id)) [
    | inl old ↦ rw (old, visit) (λ h. cc)
    | inr new ↦ elim (Bool-cases (contains v.visiting s.id)) [
      | inl cycle ↦ rw (new, cycle, visit) (λ h. cc)
      | inr off ↦
          rw (new, off, visit)
            (>>=-ne-err (visit_dependencies (visit by_id fuel) by_id s s.dependencies (enter s v))
              (λ w. ok (leave s w)) out_of_fuel
              (visit_dependencies-Finishes (visit by_id fuel) fuel (visit-Visits P by_id t fuel)
                (visit-Finishes t fuel) t s s.dependencies (enter s v)
                (enter-IsVisit P by_id s v i new)
                (omega (arith, room-cons-lt by_id s.id s v.visiting k off)))
              (λ w e h. cc))
    ]
  ]

  visit_all-Finishes :
      IsTable P by_id
      → (fuel : ℕ) (ss : List (MigrationStep C)) (v : VisitState C)
      → All (λ s. Dict.lookup s.id by_id ≡ some s) ss
      → IsVisit P by_id v
      → room by_id v.visiting ≤ fuel
      → visit_all by_id fuel ss v ≢ err out_of_fuel
  unfolding visit_all
  visit_all-Finishes t fuel [] v k i r = λ h. cc
  visit_all-Finishes t fuel (s ∷ ss) v k i r =
      >>=-ne-err (visit by_id fuel s v) (visit_all by_id fuel ss) out_of_fuel
        (visit-Finishes t fuel s v k.0 i r)
        (λ u h.
          let (iu, xu, du) = visit-Visits P by_id t fuel s v u k.0 i h in
          visit_all-Finishes t fuel ss u k.1 iu
            (rw (room-same by_id u.visiting v.visiting xu.path) r))

module _ {C : Type 0} where
  index_steps-ne-out_of_fuel :
      (ss : List (MigrationStep C)) (d : Dict String (MigrationStep C))
      → index_steps ss d ≢ err out_of_fuel
  unfolding index_steps
  index_steps-ne-out_of_fuel [] d = λ h. cc
  index_steps-ne-out_of_fuel (s ∷ ss) d =
      ground (arith, index_steps-ne-out_of_fuel ss (Dict.insert s.id s d))

  -- On every list of steps the search ends with an order or with one of the errors of the source:
  -- the depth that the model allows, the number of steps, is never exceeded.
  pub ordered_steps_terminates :
      (steps : List (MigrationStep C)) → ordered_steps steps ≢ err out_of_fuel
  unfolding ordered_steps
  ordered_steps_terminates steps =
      >>=-ne-err (index_steps steps [])
        (λ by_id. visit_all by_id (length steps) steps unvisited >>= λ v. ok v.ordered) out_of_fuel
        (index_steps-ne-out_of_fuel steps [])
        (λ by_id h.
          >>=-ne-err (visit_all by_id (length steps) steps unvisited) (λ v. ok v.ordered)
            out_of_fuel
            (visit_all-Finishes (λ _. Unit {0}) by_id
              (steps-IsTable (λ _. Unit {0}) steps by_id (λ s m. tt) h) (length steps) steps
              unvisited (index_steps-All steps [] by_id h) (unvisited-IsVisit (λ _. Unit {0}) by_id)
              (room-index_steps steps by_id h))
            (λ w e p. cc))
