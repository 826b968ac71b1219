-- ===== src/Migrations/Order/Room.antt =====
-- How deep `visit` can go: each level puts one more id of the table on the path.
use gemstone_py.Prelude.{
  ℕ, suc, ◌+◌, ◌≤◌, ◌<◌, ◌≡◌, refl, ap, String, some, false, List, [], ◌∷◌, arith, contains,
  string_eq, length, if◌then◌else◌, Bool-cases, inl, inr,
}
use gemstone_py.Prelude.Dict
use gemstone_py.Prelude.Dict.{Dict}
use gemstone_py.Prelude.Exec.{ok, ok-injective}
use gemstone_py.Migrations.{MigrationStep}
use gemstone_py.Migrations.Order.{index_steps}

module _ {V : Type 0} where
  -- The number of keys that are not on the path.
  pub room : Dict String V → List String → ℕ
  room [] path = 0
  room ((k, v) ∷ d) path = let rest = room d path in if contains path k then rest else suc rest

  pub room-same :
      (d : Dict String V) (xs ys : List String)
      → ((x : String) → contains xs x ≡ contains ys x)
      → room d xs ≡ room d ys
  unfolding room
  room-same [] xs ys h = refl
  room-same ((k, v) ∷ d) xs ys h = ground (arith, h k, room-same d xs ys h)

  room-cons-le : (d : Dict String V) (k : String) (xs : List String) → room d (k ∷ xs) ≤ room d xs
  unfolding room
  room-cons-le [] k xs = omega arith
  room-cons-le ((j, v) ∷ d) k xs = ground (arith, room-cons-le d k xs)

  pub room-cons-lt :
      (d : Dict String V) (k : String) (v : V) (xs : List String)
      → Dict.lookup k d ≡ some v
      → contains xs k ≡ false
      → room d (k ∷ xs) < room d xs
  unfolding room Dict.lookup
  room-cons-lt [] k v xs e h = cc
  room-cons-lt ((j, w) ∷ d) k v xs e h = ground (arith, room-cons-lt d k v xs, room-cons-le d k xs)

  room-le-length : (d : Dict String V) (xs : List String) → room d xs ≤ length d
  unfolding room
  room-le-length [] xs = omega arith
  room-le-length ((j, w) ∷ d) xs = ground (arith, room-le-length d xs)

  length-insert-le :
      (k : String) (v : V) (d : Dict String V) → length (Dict.insert k v d) ≤ length d + 1
  unfolding Dict.insert
  length-insert-le k v [] = omega arith
  length-insert-le k v ((j, w) ∷ d) = ground (arith, length-insert-le k v d)

module _ {C : Type 0} where
  length-index_steps :
      (ss : List (MigrationStep C)) (d e : Dict String (MigrationStep C))
      → index_steps ss d ≡ ok e
      → length e ≤ length d + length ss
  unfolding index_steps
  length-index_steps [] d e h = omega (arith, ap length (ok-injective h))
  length-index_steps (s ∷ ss) d e h = elim (Bool-cases (contains (Dict.keys d) s.id)) [
    | inl old ↦ cc (rw (old, index_steps) at h)
    | inr new ↦ omega (
      arith,
      length-index_steps ss (Dict.insert s.id s d) e (rw (new, index_steps) at h),
      length-insert-le s.id s d,
    )
  ]

  -- The fuel that `_ordered_steps` is given covers the whole table.
  pub room-index_steps :
      (ss : List (MigrationStep C)) (e : Dict String (MigrationStep C))
      → index_steps ss [] ≡ ok e
      → room e [] ≤ length ss
  room-index_steps ss e h = omega (arith, length-index_steps ss [] e h, room-le-length e [])
