-- ===== src/Migrations/Plan/Validate.antt =====
-- What the check of the version table against the manifest establishes.
use mathlib.Core.List.{Mem, mem-cons_self, mem-cons_of_mem}
use gemstone_py.Prelude.{
  ◌≡◌, sym, ap, subst, ◌∙◌, String, true, false, List, [], ◌∷◌, arith, ◌==◌, contains, string_eq,
  All, Bool-cases, List-cases, inl, inr, ◌⊎◌,
}
use gemstone_py.Prelude.Dict
use gemstone_py.Prelude.Exec.{ok, err, ok-injective, ◌>>=◌, >>=-eq-ok}
use gemstone_py.Migrations.{MigrationStep, ids, not_in_manifest}
use gemstone_py.Migrations.Order.{ordered_steps}
use gemstone_py.Migrations.Plan.{
  AppliedRecord, AppliedTable, unknown_ids, local_checksum, checksums_differ, check_checksums,
  check_applied_against_manifest, validate_migration_state,
}

checksums_differ-false :
    (a b : String) → checksums_differ a b ≡ false → (a ≡ "") ⊎ (b ≡ "") ⊎ (a ≡ b)
checksums_differ-false a b h = ground arith

unknown_ids-ne-nil :
    (applied known : List String) (id : String)
    → contains applied id ≡ true
    → contains known id ≡ false
    → contains (unknown_ids applied known) id ≡ true
unfolding unknown_ids
unknown_ids-ne-nil [] known id h k = cc
unknown_ids-ne-nil (a ∷ applied) known id h k = ground (arith, unknown_ids-ne-nil applied known id)

module _ {C : Type 0} where
  -- The row has a step in the manifest, and where both checksums are known they are the same.
  abbrev pub Agrees : List (MigrationStep C) → String × AppliedRecord → Type 0
  Agrees ss (id, row) =
      (s : MigrationStep C) × Mem s ss
      × (s.id ≡ id)
      × ((row.checksum ≡ "") ⊎ (s.checksum ≡ "") ⊎ (row.checksum ≡ s.checksum))

  local_checksum-mem :
      (ss : List (MigrationStep C)) (id : String)
      → contains (ids ss) id ≡ true
      → (s : MigrationStep C) × Mem s ss × (s.id ≡ id) × (local_checksum ss id ≡ s.checksum)
  unfolding local_checksum
  local_checksum-mem [] id h = cc
  local_checksum-mem (s ∷ ss) id h = elim (Bool-cases (id == s.id)) [
    | inl same ↦ (s, mem-cons_self, ground arith, rw same)
    | inr other ↦
        let (t, m, e, c) = local_checksum-mem ss id (ground arith) in
        (t, mem-cons_of_mem s m, e, rw other c)
  ]

  rows-Agree :
      (ss : List (MigrationStep C)) (rows : AppliedTable)
      → unknown_ids (Dict.keys rows) (ids ss) ≡ []
      → check_checksums ss rows ≡ ok tt
      → All (Agrees ss) rows
  unfolding unknown_ids check_checksums
  rows-Agree ss [] u c = tt
  rows-Agree ss ((id, row) ∷ rows) u c = elim (Bool-cases (contains (ids ss) id)) [
    | inr gone ↦ cc (rw (gone, unknown_ids) at u)
    | inl here ↦ elim (Bool-cases (checksums_differ row.checksum (local_checksum ss id))) [
      | inl bad ↦ cc (rw (bad, check_checksums) at c)
      | inr good ↦
          let (s, m, e, k) = local_checksum-mem ss id here in
          (
            (s, m, e, rw k at (checksums_differ-false row.checksum (local_checksum ss id) good)),
            rows-Agree ss rows (rw (here, unknown_ids) at u) (rw (good, check_checksums) at c),
          )
    ]
  ]

  checked-Agree :
      (ss : List (MigrationStep C)) (rows : AppliedTable)
      → check_applied_against_manifest ss rows ≡ ok tt
      → All (Agrees ss) rows
  unfolding check_applied_against_manifest
  checked-Agree ss rows h = elim (List-cases (unknown_ids (Dict.keys rows) (ids ss))) [
    | inl e ↦ rows-Agree ss rows e (rw (e, check_applied_against_manifest) at h)
    | inr (a, as', e) ↦ cc (rw (e, check_applied_against_manifest) at h)
  ]

  -- When the check passes, the steps come back in dependency order, and each row of the version
  -- table belongs to a step of the manifest whose checksum, where both are known, is the row's.
  pub validate_migration_state_sound :
      (steps : List (MigrationStep C)) (applied : AppliedTable) (out : List (MigrationStep C))
      → validate_migration_state steps applied ≡ ok out
      → (ordered_steps steps ≡ ok out) × All (Agrees out) applied
  unfolding validate_migration_state
  validate_migration_state_sound steps applied out h =
      let (o, e, r) =
        >>=-eq-ok (ordered_steps steps)
          (λ ordered. check_applied_against_manifest ordered applied >>= λ _. ok ordered) h in
      let (u, checked, same) = >>=-eq-ok (check_applied_against_manifest o applied) (λ _. ok o) r in
      let p = ok-injective same in
      (e ∙ ap ok p, subst (λ z. All (Agrees z) applied) p (checked-Agree o applied checked))

  -- If an applied id is not in the manifest the check refuses, and names that id.
  validate_migration_state_unknown :
      (steps : List (MigrationStep C)) (applied : AppliedTable) (out : List (MigrationStep C))
      (id : String)
      → ordered_steps steps ≡ ok out
      → contains (Dict.keys applied) id ≡ true
      → contains (ids out) id ≡ false
      → (named : List String) × (validate_migration_state steps applied
          ≡ err (not_in_manifest named))
        × (contains named id ≡ true)
  unfolding validate_migration_state check_applied_against_manifest
  validate_migration_state_unknown steps applied out id h a k =
      elim (List-cases (unknown_ids (Dict.keys applied) (ids out))) [
        | inl e ↦
            cc (ap (λ z. contains z id) e, unknown_ids-ne-nil (Dict.keys applied) (ids out) id a k)
        | inr (b, bs, e) ↦ (
          b ∷ bs,
          rw (h, e, validate_migration_state, check_applied_against_manifest),
          ap (λ z. contains z id) (sym e) ∙ unknown_ids-ne-nil (Dict.keys applied) (ids out) id a k,
        )
      ]
