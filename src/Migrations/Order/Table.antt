-- ===== src/Migrations/Order/Table.antt =====
-- The table that `_ordered_steps` builds first: it holds the steps, each under its own id.
use mathlib.Core.List.{
  Mem, Nodup, Nodup-nil, Nodup-cons, mem-cons, mem-cons_self, mem-cons_of_mem, not-mem-nil,
}
use mathlib.Core.Logic.Or
use gemstone_py.Prelude.{
  ◌≡◌, refl, sym, ap, subst, ◌∙◌, String, some, Bool, true, false, ◌||◌, List, [], ◌∷◌, arith, ◌==◌,
  contains, string_eq, All, Bool-cases, ==_refl, inl, inr,
}
use mathlib.Core.Option.{some-injective}
use gemstone_py.Prelude.Dict
use gemstone_py.Prelude.Dict.{Dict}
use gemstone_py.Prelude.Exec.{ok, ok-injective}
use gemstone_py.Migrations.{MigrationStep, ids}
use gemstone_py.Migrations.Order.{index_steps}
use gemstone_py.Migrations.Order.Sound.{IsTable}

pub Bool-set : IsSet Bool
Bool-set = hlevel

module _ {C : Type 0} where
  -- No two steps share an id, and none has an id of `seen`.
  abbrev pub Distinct : List String → List (MigrationStep C) → Type 0
  Distinct seen [] = Unit {0}
  Distinct seen (s ∷ ss) = (contains seen s.id ≡ false) × Distinct (s.id ∷ seen) ss

  Distinct-same :
      (xs ys : List String) (ss : List (MigrationStep C))
      → ((x : String) → contains xs x ≡ contains ys x)
      → Distinct xs ss
      → Distinct ys ss
  Distinct-same xs ys [] h d = tt
  Distinct-same xs ys (s ∷ ss) h d = (
    sym (h s.id) ∙ d.0,
    Distinct-same (s.id ∷ xs) (s.id ∷ ys) ss (λ x. ap (λ b. (x == s.id) || b) (h x)) d.1,
  )

  Distinct-fresh :
      (seen : List String) (ss : List (MigrationStep C)) (x : String)
      → Distinct seen ss
      → contains seen x ≡ true
      → (s : MigrationStep C) → Mem s ss
      → (x == s.id) ≡ false
  Distinct-fresh seen [] x d h s m = absurd (not-mem-nil m)
  Distinct-fresh seen (t ∷ ss) x d h s m =
      Or.elim (Bool-set _ _) (mem-cons.0 m)
        (λ e. subst (λ z. (x == z.id) ≡ false) (sym e) (ground arith))
        (Distinct-fresh (t.id ∷ seen) ss x d.1 (ground arith) s)

  pub Distinct-Nodup :
      (seen : List String) (ss : List (MigrationStep C)) → Distinct seen ss → Nodup ss
  Distinct-Nodup seen [] d = Nodup-nil
  Distinct-Nodup seen (s ∷ ss) d = Nodup-cons.1 (
    λ m. cc (Distinct-fresh (s.id ∷ seen) ss s.id d.1 (ground arith) s m, ==_refl s.id),
    Distinct-Nodup (s.id ∷ seen) ss d.1,
  )

  pub index_steps-Distinct :
      (ss : List (MigrationStep C)) (d e : Dict String (MigrationStep C))
      → index_steps ss d ≡ ok e
      → Distinct (Dict.keys d) ss
  unfolding index_steps
  index_steps-Distinct [] d e h = tt
  index_steps-Distinct (s ∷ ss) d e h = elim (Bool-cases (contains (Dict.keys d) s.id)) [
    | inl old ↦ cc (rw (old, index_steps) at h)
    | inr new ↦ (
      new,
      Distinct-same (Dict.keys (Dict.insert s.id s d)) (s.id ∷ Dict.keys d) ss
          (λ x. ground (arith, Dict.contains-insert x s.id s d))
          (index_steps-Distinct ss (Dict.insert s.id s d) e (rw (new, index_steps) at h)),
    )
  ]

  -- An entry that is in the table stays: a second step with its id is refused.
  index_steps_keeps :
      (ss : List (MigrationStep C)) (d e : Dict String (MigrationStep C)) (k : String)
      → index_steps ss d ≡ ok e
      → contains (Dict.keys d) k ≡ true
      → Dict.lookup k e ≡ Dict.lookup k d
  unfolding index_steps
  index_steps_keeps [] d e k h c = ap (Dict.lookup k) (sym (ok-injective h))
  index_steps_keeps (s ∷ ss) d e k h c = elim (Bool-cases (contains (Dict.keys d) s.id)) [
    | inl old ↦ cc (rw (old, index_steps) at h)
    | inr new ↦ ground (
      arith,
      index_steps_keeps ss (Dict.insert s.id s d) e k (rw (new, index_steps) at h),
      Dict.contains-insert k s.id s d,
      Dict.lookup-insert k s.id s d,
    )
  ]

  pub index_steps-All :
      (ss : List (MigrationStep C)) (d e : Dict String (MigrationStep C))
      → index_steps ss d ≡ ok e
      → All (λ s. Dict.lookup s.id e ≡ some s) ss
  unfolding index_steps
  index_steps-All [] d e h = tt
  index_steps-All (s ∷ ss) d e h = elim (Bool-cases (contains (Dict.keys d) s.id)) [
    | inl old ↦ cc (rw (old, index_steps) at h)
    | inr new ↦
        let rest = rw (new, index_steps) at h in
        (
          ground (
            arith,
            index_steps_keeps ss (Dict.insert s.id s d) e s.id rest,
            Dict.contains-insert s.id s.id s d,
            Dict.lookup-insert s.id s.id s d,
          ),
          index_steps-All ss (Dict.insert s.id s d) e rest,
        )
  ]

  insert-IsTable :
      (P : MigrationStep C → Type 0) (s : MigrationStep C) (d : Dict String (MigrationStep C))
      → P s
      → IsTable P d
      → IsTable P (Dict.insert s.id s d)
  insert-IsTable P s d ps t k x e = elim (Bool-cases (k == s.id)) [
    | inl same ↦
        let at_s : s ≡ x = some-injective s x (ground (arith, Dict.lookup-insert k s.id s d)) in
        (ap (λ z. z.id) (sym at_s) ∙ ground arith, subst P at_s ps)
    | inr other ↦ t k x (ground (arith, Dict.lookup-insert k s.id s d))
  ]

  index_steps-IsTable :
      (P : MigrationStep C → Type 0) (ss : List (MigrationStep C))
      (d e : Dict String (MigrationStep C))
      → ((s : MigrationStep C) → Mem s ss → P s)
      → IsTable P d
      → index_steps ss d ≡ ok e
      → IsTable P e
  unfolding index_steps
  index_steps-IsTable P [] d e h t r = subst (IsTable P) (ok-injective r) t
  index_steps-IsTable P (s ∷ ss) d e h t r = elim (Bool-cases (contains (Dict.keys d) s.id)) [
    | inl old ↦ cc (rw (old, index_steps) at r)
    | inr new ↦
        index_steps-IsTable P ss (Dict.insert s.id s d) e (λ x m. h x (mem-cons_of_mem s m))
          (insert-IsTable P s d (h s mem-cons_self) t) (rw (new, index_steps) at r)
  ]

  -- The table of all the steps, built from the empty one.
  pub steps-IsTable :
      (P : MigrationStep C → Type 0) (ss : List (MigrationStep C))
      (e : Dict String (MigrationStep C))
      → ((s : MigrationStep C) → Mem s ss → P s)
      → index_steps ss [] ≡ ok e
      → IsTable P e
  unfolding Dict.lookup
  steps-IsTable P ss e h r = index_steps-IsTable P ss [] e h (λ k s x. cc x) r

  pub index_steps-total :
      (ss : List (MigrationStep C)) (d : Dict String (MigrationStep C))
      → Distinct (Dict.keys d) ss
      → (e : Dict String (MigrationStep C)) × (index_steps ss d ≡ ok e)
  unfolding index_steps
  index_steps-total [] d h = (d, refl)
  index_steps-total (s ∷ ss) d h =
      rw (h.0, index_steps)
        (index_steps-total ss (Dict.insert s.id s d) (
          Distinct-same (s.id ∷ Dict.keys d) (Dict.keys (Dict.insert s.id s d)) ss
            (λ x. ground (arith, Dict.contains-insert x s.id s d)) h.1))

  pub lookup_of_ids :
      (ss : List (MigrationStep C)) (e : Dict String (MigrationStep C)) (k : String)
      → All (λ s. Dict.lookup s.id e ≡ some s) ss
      → contains (ids ss) k ≡ true
      → (s : MigrationStep C) × (Dict.lookup k e ≡ some s)
  lookup_of_ids [] e k h c = cc
  lookup_of_ids (s ∷ ss) e k h c = elim (Bool-cases (k == s.id)) [
    | inl same ↦ (s, ap (λ x. Dict.lookup x e) (ground arith) ∙ h.0)
    | inr other ↦ lookup_of_ids ss e k h.1 (ground arith)
  ]
