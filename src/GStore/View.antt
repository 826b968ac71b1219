-- ===== src/GStore/View.antt =====
-- What a transaction shows of the store: the pending writes and deletions over the snapshot.
use gemstone_py.Prelude.{
  String, string_eq, ◌≡◌, refl, none, some, true, false, not, ◌&&◌, ◌||◌, List, [], ◌∷◌, ◌++◌,
  contains, ◌==◌, ==_refl, arith, if◌then◌else◌, inl, inr, All,
}
use gemstone_py.Prelude.Dict.{Dict, keys, lookup, lookup-insert, lookup-erase}
use gemstone_py.Prelude.Exec.{ok, err, Result-cases}
use gemstone_py.GStore.{key_error}
use gemstone_py.GStore.Transaction.{
  Transaction, without, minus, saved_item, get_item, set_item, delete_item, contains_item,
  transaction_keys, items, items_of,
}

contains-without :
    (j k : String) (xs : List String)
    → contains (without k xs) j ≡ (if j == k then false else contains xs j)
unfolding without
contains-without j k [] = ground arith
contains-without j k (x ∷ xs) = ground (arith, contains-without j k xs)

contains-minus :
    (k : String) (xs ys : List String)
    → contains (minus xs ys) k ≡ (contains xs k && not (contains ys k))
unfolding minus
contains-minus k [] ys = refl
contains-minus k (x ∷ xs) ys = ground (arith, contains-minus k xs ys)

contains-append :
    (k : String) (xs ys : List String) → contains (xs ++ ys) k ≡ (contains xs k || contains ys k)
contains-append k [] ys = refl
contains-append k (x ∷ xs) ys = ground (arith, contains-append k xs ys)

All-contains :
    (P : String → Type 0) (xs : List String)
    → ((k : String) → contains xs k ≡ true → P k)
    → All P xs
All-contains P [] h = tt
All-contains P (x ∷ xs) h =
    (h x (ground (arith, ==_refl x)), All-contains P xs (λ k e. h k (ground (arith, e))))

module _ {V : Type 0} where
  contains-keys :
      (k : String) (d : Dict String V)
      → contains (keys d) k ≡ elim (lookup k d) [ some _ ↦ true | none ↦ false ]
  unfolding lookup
  contains-keys k [] = refl
  contains-keys k ((j, v) ∷ d) = ground (arith, contains-keys k d)

  -- No key is both written and deleted.
  abbrev IsConsistent : Transaction V → Type 0
  IsConsistent t = (k : String) → contains t.deletes k ≡ true → lookup k t.dirty ≡ none

  -- A write is read back, hides no other key, and keeps writes and deletions apart.
  set_item_lem :
      (j : String) (v : V) (t t' : Transaction V)
      → set_item j v t ≡ ok t'
      → ((k : String) → get_item k t' ≡ (if k == j then ok v else get_item k t))
        × (IsConsistent t → IsConsistent t')
  unfolding set_item get_item saved_item
  set_item_lem j v t t' h = (
    λ k. ground (arith, lookup-insert k j v t.dirty, contains-without k j t.deletes),
    λ c k e. ground (arith, lookup-insert k j v t.dirty, contains-without k j t.deletes, c k),
  )

  -- A deleted key raises `KeyError`, whether it was there or not, no other key is hidden, and writes
  -- and deletions stay apart.
  delete_item_lem :
      (j : String) (t t' : Transaction V)
      → delete_item j t ≡ ok t'
      → ((k : String) → get_item k t' ≡ (if k == j then err (key_error k) else get_item k t))
        × (IsConsistent t → IsConsistent t')
  unfolding delete_item get_item saved_item
  delete_item_lem j t t' h = (
    λ k. ground (arith, lookup-erase k j t.dirty, contains-without k j t.deletes),
    λ c k e. ground (arith, lookup-erase k j t.dirty, contains-without k j t.deletes, c k),
  )

  -- In an open transaction whose writes and deletions are apart, the three views agree: `keys` lists
  -- just the keys that `in` finds, and those are the keys that can be read.
  pub views_agree :
      (k : String) (t : Transaction V)
      → t.is_open ≡ true
      → IsConsistent t
      → (contains (transaction_keys t) k ≡ contains_item k t)
        × (contains_item k t ≡ elim (get_item k t) [ ok _ ↦ true | err _ ↦ false ])
  unfolding transaction_keys contains_item get_item saved_item
  views_agree k t o c =
      let all =
        contains-minus k (keys t.snapshot ++ minus (keys t.dirty) (keys t.snapshot)) t.deletes in
      let both = contains-append k (keys t.snapshot) (minus (keys t.dirty) (keys t.snapshot)) in
      let new = contains-minus k (keys t.dirty) (keys t.snapshot) in
      let d = contains-keys k t.dirty in
      let s = contains-keys k t.snapshot in
      let c' = c k in (ground (arith, all, both, new, c', d), ground (arith, c', d, s))

  readable :
      (k : String) (t : Transaction V)
      → t.is_open ≡ true
      → IsConsistent t
      → contains (transaction_keys t) k ≡ true
      → (v : V) × (get_item k t ≡ ok v)
  readable k t o c h =
      let (a, b) = views_agree k t o c in
      elim (Result-cases (get_item k t)) [ inl r ↦ r | inr (e, q) ↦ cc (rw q at b) ]

  items_of-ok :
      (ks : List String) (t : Transaction V)
      → All (λ k. (v : V) × (get_item k t ≡ ok v)) ks
      → (rows : List (String × V)) × (items_of ks t ≡ ok rows) × (keys rows ≡ ks)
  unfolding items_of
  items_of-ok [] t h = ([], refl, refl)
  items_of-ok (k ∷ ks) t ((v, e), h) =
      let (rows, f, g) = items_of-ok ks t h in ((k, v) ∷ rows, rw (e, f, items_of), rw g)

  -- In an open transaction whose writes and deletions are apart, `items` never raises, and
  -- gives a value for each of its keys, in order.
  items_complete :
      (t : Transaction V)
      → t.is_open ≡ true
      → IsConsistent t
      → (rows : List (String × V)) × (items t ≡ ok rows) × (keys rows ≡ transaction_keys t)
  unfolding items
  items_complete t o c =
      items_of-ok (transaction_keys t) t
        (All-contains _ (transaction_keys t) (λ k. readable k t o c))
