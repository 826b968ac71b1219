-- ===== src/Migrations/Order/Sound.antt =====
-- What a successful ordering is, and the invariant of the search.
use gemstone_py.Prelude.{
  ℕ, zero, suc, ◌≡◌, refl, sym, ap, subst, ◌∙◌, String, some, true, false, List, [], ◌∷◌, ◌++◌,
  arith, ◌==◌, contains, string_eq, All, if◌then◌else◌, Bool-cases, Option-cases, inl, inr,
}
use mathlib.Core.Option.{some-injective}
use mathlib.Core.List.{Mem, mem-append_left, mem-append_right, mem-cons_self}
use gemstone_py.Prelude.Dict
use gemstone_py.Prelude.Dict.{Dict}
use gemstone_py.Prelude.Exec.{Result, ok, >>=-eq-ok, ok-injective}
use gemstone_py.Migrations.{MigrationStep, MigrationError}
use gemstone_py.Migrations.Order.{
  VisitState, discard, enter, leave, visit_dependencies, visit, unvisited,
}

pub contains-discard :
    (j k : String) (xs : List String)
    → contains (discard k xs) j ≡ (if j == k then false else contains xs j)
unfolding discard
contains-discard j k [] = ground arith
contains-discard j k (x ∷ xs) = ground (arith, contains-discard j k xs)

module _ {C : Type 0} where
  -- The ids seen after a list of steps, the last one first.
  abbrev pub after : List String → List (MigrationStep C) → List String
  after seen [] = seen
  after seen (s ∷ ss) = after (s.id ∷ seen) ss

  -- Each step is new, and its dependencies have been seen before it.
  abbrev pub InOrder : List String → List (MigrationStep C) → Type 0
  InOrder seen [] = Unit {0}
  InOrder seen (s ∷ ss) =
      All (λ d. contains seen d ≡ true) s.dependencies
      × (contains seen s.id ≡ false)
      × InOrder (s.id ∷ seen) ss

  after-append :
      (seen : List String) (xs : List (MigrationStep C)) (s : MigrationStep C)
      → after seen (xs ++ s ∷ []) ≡ s.id ∷ after seen xs
  after-append seen [] s = refl
  after-append seen (x ∷ xs) s = after-append (x.id ∷ seen) xs s

  InOrder-append :
      (seen : List String) (xs : List (MigrationStep C)) (s : MigrationStep C)
      → InOrder seen xs
      → InOrder (after seen xs) (s ∷ [])
      → InOrder seen (xs ++ s ∷ [])
  InOrder-append seen [] s h k = k
  InOrder-append seen (x ∷ xs) s h k = (h.0, h.1, InOrder-append (x.id ∷ seen) xs s h.2 k)

  All-snoc :
      (P : MigrationStep C → Type 0) (xs : List (MigrationStep C)) (s : MigrationStep C)
      → All P xs
      → P s
      → All P (xs ++ s ∷ [])
  All-snoc P [] s h k = (k, tt)
  All-snoc P (x ∷ xs) s h k = (h.0, All-snoc P xs s h.1 k)

  -- The table has each step under its own id, and its steps have the property `P`.
  abbrev pub IsTable : (MigrationStep C → Type 0) → Dict String (MigrationStep C) → Type 0
  IsTable P by_id =
      (k : String) (s : MigrationStep C) → Dict.lookup k by_id ≡ some s → (s.id ≡ k) × P s

  module _ (P : MigrationStep C → Type 0) (by_id : Dict String (MigrationStep C)) where
    pub record IsVisit (v : VisitState C) : Type 0 where
      pub recorded : v.visited ≡ after [] v.ordered
      pub in_order : InOrder [] v.ordered
      pub known : All P v.ordered
      pub placed :
          (s : MigrationStep C)
          → Dict.lookup s.id by_id ≡ some s
          → contains v.visited s.id ≡ true
          → Mem s v.ordered
      pub apart : (x : String) → contains v.visiting x ≡ true → contains v.visited x ≡ false

    -- What a visit changes: more is visited, and the path is as before.
    pub record Extends (v w : VisitState C) : Type 0 where
      pub grows : (x : String) → contains v.visited x ≡ true → contains w.visited x ≡ true
      pub path : (x : String) → contains w.visiting x ≡ contains v.visiting x

    pub Extends-refl : (v : VisitState C) → Extends v v
    Extends-refl v = record { grows = λ x h. h; path = λ x. refl }

    pub Extends-trans : {u v w : VisitState C} → Extends u v → Extends v w → Extends u w
    Extends-trans p q = record {
      grows = λ x h. q.grows x (p.grows x h);
      path = λ x. q.path x ∙ p.path x;
    }

    abbrev pub Visits :
        (MigrationStep C → VisitState C → Result MigrationError (VisitState C)) → Type 0
    Visits go =
        (s : MigrationStep C) (v w : VisitState C)
        → Dict.lookup s.id by_id ≡ some s
        → IsVisit v
        → go s v ≡ ok w
        → IsVisit w × Extends v w × (contains w.visited s.id ≡ true)

    pub enter-IsVisit :
        (s : MigrationStep C) (v : VisitState C)
        → IsVisit v
        → contains v.visited s.id ≡ false
        → IsVisit (enter s v)
    enter-IsVisit s v i fresh = record {
      recorded = i.recorded;
      in_order = i.in_order;
      known = i.known;
      placed = i.placed;
      apart = λ x h. ground (arith, i.apart x);
    }

    same_entry :
        (s t : MigrationStep C)
        → Dict.lookup s.id by_id ≡ some s
        → Dict.lookup t.id by_id ≡ some t
        → (t.id == s.id) ≡ true
        → s ≡ t
    same_entry s t k e same =
        some-injective s t (sym k ∙ ap (λ x. Dict.lookup x by_id) (ground arith) ∙ e)

    leave-IsVisit :
        (s : MigrationStep C) (v : VisitState C)
        → Dict.lookup s.id by_id ≡ some s
        → P s
        → IsVisit v
        → contains v.visited s.id ≡ false
        → All (λ d. contains v.visited d ≡ true) s.dependencies
        → IsVisit (leave s v)
    unfolding leave
    leave-IsVisit s v k ps i fresh deps = record {
      recorded = rw (after-append [] v.ordered s) (ap (◌∷◌ s.id) i.recorded);
      in_order = InOrder-append [] v.ordered s i.in_order (rw (← i.recorded) (deps, fresh, tt));
      known = All-snoc P v.ordered s i.known ps;
      placed = λ t e h. elim (Bool-cases (t.id == s.id)) [
        | inl same ↦
            subst (λ x. Mem x (v.ordered ++ s ∷ [])) (same_entry s t k e same)
              (mem-append_right v.ordered mem-cons_self)
        | inr other ↦ mem-append_left (s ∷ []) (i.placed t e (ground arith))
      ];
      apart = λ x h. ground (arith, i.apart x, contains-discard x s.id v.visiting);
    }

    leave-Extends :
        (s : MigrationStep C) (v w : VisitState C)
        → contains v.visiting s.id ≡ false
        → Extends (enter s v) w
        → Extends v (leave s w)
    unfolding leave
    leave-Extends s v w off x = record {
      grows = λ y h. ground (arith, x.grows y h);
      path = λ y. ground (arith, x.path y, contains-discard y s.id w.visiting);
    }

    visit_dependencies-Extends :
        (go : MigrationStep C → VisitState C → Result MigrationError (VisitState C))
        → Visits go
        → IsTable P by_id
        → (s : MigrationStep C) (ds : List String) (v w : VisitState C) → IsVisit v
        → visit_dependencies go by_id s ds v ≡ ok w
        → IsVisit w × Extends v w × All (λ d. contains w.visited d ≡ true) ds
    unfolding visit_dependencies
    visit_dependencies-Extends go each keyed s [] v w i h =
        subst (λ u. IsVisit u × Extends v u × Unit {0}) (ok-injective h) (i, Extends-refl v, tt)
    visit_dependencies-Extends go each keyed s (d ∷ ds) v w i h =
        elim (Option-cases (Dict.lookup d by_id)) [
          | inl e ↦ cc (rw (e, visit_dependencies) at h)
          | inr (t, e) ↦
              let (u, first, rest) =
                >>=-eq-ok (go t v) (visit_dependencies go by_id s ds)
                  (rw (e, visit_dependencies) at h) in
              let (named, pt) = keyed d t e in
              let (iu, xu, du) = each t v u (simp named e) i first in
              let (iw, xw, dw) = visit_dependencies-Extends go each keyed s ds u w iu rest in
              (iw, Extends-trans xu xw, (xw.grows d (rw named at du), dw))
        ]

    visited_before :
        (s : MigrationStep C) (v w : VisitState C)
        → IsVisit v
        → contains v.visited s.id ≡ true
        → v ≡ w
        → IsVisit w × Extends v w × (contains w.visited s.id ≡ true)
    visited_before s v w i old e =
        subst (λ u. IsVisit u × Extends v u × (contains u.visited s.id ≡ true)) e
          (i, Extends-refl v, old)

    pub visit-Visits : IsTable P by_id → (fuel : ℕ) → Visits (visit by_id fuel)
    unfolding visit
    visit-Visits keyed zero s v w k i h = elim (Bool-cases (contains v.visited s.id)) [
      | inl old ↦ visited_before s v w i old (ok-injective (rw (old, visit) at h))
      | inr new ↦ ground arith
    ]
    visit-Visits keyed (suc fuel) s v w k i h = elim (Bool-cases (contains v.visited s.id)) [
      | inl old ↦ visited_before s v w i old (ok-injective (rw (old, visit) at h))
      | inr new ↦ elim (Bool-cases (contains v.visiting s.id)) [
        | inl cycle ↦ cc (rw (new, cycle, visit) at h)
        | inr off ↦
            let (u, inner, done) =
              >>=-eq-ok (visit_dependencies (visit by_id fuel) by_id s s.dependencies (enter s v))
                (λ w. ok (leave s w)) (rw (new, off, visit) at h) in
            let (iu, xu, du) =
              visit_dependencies-Extends (visit by_id fuel) (visit-Visits keyed fuel) keyed s
                s.dependencies (enter s v) u (enter-IsVisit s v i new) inner in
            let unseen = iu.apart s.id (xu.path s.id ∙ ground arith) in
            subst (λ z. IsVisit z × Extends v z × (contains z.visited s.id ≡ true))
              (ok-injective done)
              (
                leave-IsVisit s u k (keyed s.id s k).1 iu unseen du,
                leave-Extends s v u off xu,
                unfold leave in ground arith,
              )
      ]
    ]

  pub unvisited-IsVisit :
      (P : MigrationStep C → Type 0) (by_id : Dict String (MigrationStep C))
      → IsVisit P by_id unvisited
  unvisited-IsVisit P by_id = record {
    recorded = refl;
    in_order = tt;
    known = tt;
    placed = λ s e h. cc;
    apart = λ x h. refl;
  }
