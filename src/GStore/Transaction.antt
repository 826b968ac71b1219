-- ===== src/GStore/Transaction.antt =====
-- `GStoreTransaction` of gemstone_py/gstore.py; `snapshot` is its attribute `_data`. Keys are strings, so that `str(key)` is the key.
use gemstone_py.Prelude.{
  String, string_eq, none, some, Bool, true, false, not, List, [], ◌∷◌, ◌++◌, contains, ◌==◌,
  if◌then◌else◌,
}
use gemstone_py.Prelude.Dict.{Dict, keys, lookup, insert, erase}
use gemstone_py.Prelude.Exec.{Result, ok, err}
use gemstone_py.GStore.{GStoreError, not_open, read_only_transaction, key_error}

-- `self._deletes.discard(key)`
unfoldable pub without : String → List String → List String
without k [] = []
without k (x ∷ xs) = let rest = without k xs in if k == x then rest else x ∷ rest

-- The difference of two sets.
unfoldable pub minus : List String → List String → List String
minus [] ys = []
minus (x ∷ xs) ys = let rest = minus xs ys in if contains ys x then rest else x ∷ rest

pub record Transaction (V : Type 0) : Type 0 where
  pub read_only : Bool
  pub snapshot : Dict String V
  pub dirty : Dict String V
  pub deletes : List String
  pub is_open : Bool

module _ {V : Type 0} where
  unfoldable pub saved_item : String → Transaction V → Result GStoreError V
  saved_item k t =
      if contains t.deletes k
      then err (key_error k)
      else elim (lookup k t.snapshot) [ some v ↦ ok v | none ↦ err (key_error k) ]

  -- `t[k]`
  unfoldable pub get_item : String → Transaction V → Result GStoreError V
  get_item k t =
      if not t.is_open
      then err not_open
      else elim (lookup k t.dirty) [ some v ↦ ok v | none ↦ saved_item k t ]

  -- `t[k] = v`
  unfoldable pub set_item : String → V → Transaction V → Result GStoreError (Transaction V)
  set_item k v t =
      if not t.is_open
      then err not_open
      else if t.read_only
      then err read_only_transaction
      else ok (record t { dirty = insert k v t.dirty; deletes = without k t.deletes })

  -- `del t[k]`, which does not ask whether the key is there.
  unfoldable pub delete_item : String → Transaction V → Result GStoreError (Transaction V)
  delete_item k t =
      if not t.is_open
      then err not_open
      else if t.read_only
      then err read_only_transaction
      else ok (record t { deletes = k ∷ without k t.deletes; dirty = erase k t.dirty })

  -- `k in t`
  unfoldable pub contains_item : String → Transaction V → Bool
  contains_item k t =
      if contains t.deletes k
      then false
      else if contains (keys t.dirty) k
      then true
      else contains (keys t.snapshot) k

  -- `t.get(k, default)`
  unfoldable get_or : String → V → Transaction V → Result GStoreError V
  get_or k default t = elim (get_item k t) [
    | ok v ↦ ok v
    | err (key_error _) ↦ ok default
    | err e ↦ err e
  ]

  -- `t.keys()`, in the order of the two dicts: Python's order is that of a set.
  unfoldable pub transaction_keys : Transaction V → List String
  transaction_keys t = minus (keys t.snapshot ++ minus (keys t.dirty) (keys t.snapshot)) t.deletes

  unfoldable pub items_of : List String → Transaction V → Result GStoreError (List (String × V))
  items_of [] t = ok []
  items_of (k ∷ ks) t = elim (get_item k t) [
    | err e ↦ err e
    | ok v ↦ elim (items_of ks t) [ err e ↦ err e | ok rest ↦ ok ((k, v) ∷ rest) ]
  ]

  -- `t.items()`
  unfoldable pub items : Transaction V → Result GStoreError (List (String × V))
  items t = items_of (transaction_keys t) t
