-- ===== src/Query/Collection/Writes/Replaces.antt =====
-- What `bulk_upsert_unique` does to the collection.
use gemstone_py.Prelude.{
  ℕ, ◌≡◌, refl, sym, ap, ◌∙◌, true, Option, some, List, [], ◌∷◌, map, length, All, All-map,
  Option-cases, inl, inr, arith,
}
use gemstone_py.Prelude.Exec.{ok}
use gemstone_py.Prelude.Action.{pure, ◌>>=◌, ◌>>◌}
use gemstone_py.Prelude.Texts.{Text, codes}
use gemstone_py.Query.{Value, Fields, Scalar, Python, Stone}
use gemstone_py.Query.Paths.{get}
use gemstone_py.Query.Collection.{
  Call, in_session, insert_into_set_oop, remove_member_oops, set_oop, search_oops,
}
use gemstone_py.Query.Collection.Writes.{
  is_hashable, is_seen, find, Batch, enter_element, gather, insert_found, upsert_each, upsert_batch,
  bulk_upsert_unique,
}
use gemstone_py.Query.Collection.Upsert.{
  IsEquality, Distinct, last_with, is_some, gather_keeps_last,
}

module _ {Float : Type 0} (py : Python (Scalar Float)) (laws : IsEquality py)
    (stone : Stone (Scalar Float)) (name : Text) (show_float : Float → Text) where
  open stone use {World, Session}

  abbrev Key : Type 0
  Key = Value (Scalar Float)

  abbrev Entry : Type 0
  Entry = Key × Fields (Scalar Float)

  abbrev pub keys_of : List Entry → List Key
  keys_of = map (λ r. r.0)

  -- Every record has a key that can be hashed.
  abbrev pub HasKeys : Text → List (Fields (Scalar Float)) → Type 0
  HasKeys ivar_path =
      All (λ element. (key : Key) × (get ivar_path element ≡ some key) × (is_hashable key ≡ true))

  -- For each key the members with that key go, and the record comes in.
  unfoldable pub replace_each : Session → ℕ → Text → List Entry → Call stone (Unit {0})
  replace_each s oop ivar_path [] = pure tt
  replace_each s oop ivar_path ((key, element) ∷ rs) = do
    members ← search_oops stone name show_float s ivar_path (codes "eql") key
    removed ← remove_member_oops stone s oop members
    insert_into_set_oop stone s oop element
    replace_each s oop ivar_path rs

  gather-HasKeys :
      (ivar_path : Text) (elements : List (Fields (Scalar Float))) (b : Batch py)
      → HasKeys ivar_path elements
      → (c : Batch py) × (gather py ivar_path elements b ≡ ok c)
  unfolding gather
  gather-HasKeys ivar_path [] b h = (b, refl)
  gather-HasKeys ivar_path (element ∷ elements) b ((key, found, hashed), h) =
      let (c, p) = gather-HasKeys ivar_path elements (enter_element py key element b) h in
      (c, rw (found, hashed, gather) p)

  sees_itself : (ks : List Key) → All (λ k. is_seen py k ks ≡ true) ks
  unfolding is_seen
  sees_itself [] = tt
  sees_itself (k ∷ ks) = (
    rw (laws.eq_refl k),
    All-map (λ j. is_seen py j ks ≡ true) (λ j. is_seen py j (k ∷ ks) ≡ true) ks
        (λ j h. ground (arith, h)) (sees_itself ks),
  )

  upsert_each-cons :
      (s : Session) (oop : ℕ) (ivar_path : Text) (keyed : List Entry) (key : Key)
      (element : Fields (Scalar Float)) (order : List Key) (rs : List Entry)
      → find py key keyed ≡ some element
      → upsert_each py stone name show_float s oop ivar_path keyed order
        ≡ replace_each s oop ivar_path rs
      → upsert_each py stone name show_float s oop ivar_path keyed (key ∷ order)
        ≡ replace_each s oop ivar_path ((key, element) ∷ rs)
  unfolding upsert_each replace_each insert_found
  upsert_each-cons s oop ivar_path keyed key element order rs found rest =
      ap
        (λ (o : Option (Fields (Scalar Float))).
          search_oops stone name show_float s ivar_path (codes "eql") key >>= λ members.
          remove_member_oops stone s oop members >>= λ removed.
          insert_found py stone name show_float s oop o
          >> upsert_each py stone name show_float s oop ivar_path keyed order)
        found
      ∙ ap
          (λ (next : Call stone (Unit {0})).
            search_oops stone name show_float s ivar_path (codes "eql") key >>= λ members.
            remove_member_oops stone s oop members >>= λ removed.
            insert_into_set_oop stone s oop element >> next)
          rest

  -- The records of the keys, in their order.
  paired :
      (ivar_path : Text) (keyed : List Entry) (order : List Key)
      → All (λ k. is_some py laws (find py k keyed) ≡ true) order
      → (rs : List Entry) × (keys_of rs ≡ order)
        × All (λ r. find py r.0 keyed ≡ some r.1) rs
        × ((s : Session) (oop : ℕ)
            → upsert_each py stone name show_float s oop ivar_path keyed order
              ≡ replace_each s oop ivar_path rs)
  unfolding upsert_each replace_each
  paired ivar_path keyed [] h = ([], refl, tt, (λ s oop. refl))
  paired ivar_path keyed (key ∷ order) h =
      let (rs, named, there, same) = paired ivar_path keyed order h.1 in
      elim (Option-cases (find py key keyed)) [
        | inl missing ↦ cc (rw missing at h.0)
        | inr (element, found) ↦ (
          (key, element) ∷ rs,
          ap (◌∷◌ key) named,
          (found, there),
          (λ s oop. upsert_each-cons s oop ivar_path keyed key element order rs found (same s oop)),
        )
      ]

  upsert_batch-ok :
      (ivar_path : Text) (b : Batch py) (rs : List Entry) (session : Option Session)
      → ((s : Session) (oop : ℕ)
          → upsert_each py stone name show_float s oop ivar_path b.keyed b.order
            ≡ replace_each s oop ivar_path rs)
      → length b.order ≡ length rs
      → upsert_batch py stone name show_float ivar_path session (ok b)
        ≡ in_session stone session (λ s. set_oop stone name s >>= λ oop.
            replace_each s oop ivar_path rs >>= λ done. pure (length rs))
  unfolding upsert_batch
  upsert_batch-ok ivar_path b rs session same counted i =
      in_session stone session
        (λ s. set_oop stone name s >>= λ oop. same s oop i >>= λ done. pure (counted i))

  length-keys_of : (rs : List Entry) → length (keys_of rs) ≡ length rs
  length-keys_of [] = refl
  length-keys_of (r ∷ rs) = omega (arith, length-keys_of rs)

  -- If every record has a key that can be hashed, and equality of keys is an equivalence,
  -- bulk_upsert_unique takes each key of the records once and, for one key after the other,
  -- removes the members that a search finds with it and inserts the last record that was given
  -- with it; it returns the number of keys.
  pub bulk_upsert_unique_lem :
      (ivar_path : Text) (elements : List (Fields (Scalar Float)))
      → HasKeys ivar_path elements
      → (rs : List Entry) × Distinct py laws (keys_of rs)
        × All (λ r. last_with py laws ivar_path r.0 elements ≡ some r.1) rs
        × ((k : Key)
            → is_seen py k (keys_of rs) ≡ is_some py laws (last_with py laws ivar_path k elements))
        × ((session : Option Session)
            → bulk_upsert_unique py stone name show_float ivar_path elements session
              ≡ in_session stone session (λ s. set_oop stone name s >>= λ oop.
                  replace_each s oop ivar_path rs >>= λ done. pure (length rs)))
  unfolding bulk_upsert_unique
  bulk_upsert_unique_lem ivar_path elements h =
      let (b, p) = gather-HasKeys ivar_path elements (record { keyed = []; order = [] }) h in
      let (once, kept) = gather_keeps_last py laws ivar_path elements b p in
      let known : All (λ k. is_some py laws (find py k b.keyed) ≡ true) b.order =
        All-map (λ k. is_seen py k b.order ≡ true) _ b.order
          (λ k seen. ap (is_some py laws) (kept k).0 ∙ sym (kept k).1 ∙ seen)
          (sees_itself b.order) in
      let (rs, named, there, same) = paired ivar_path b.keyed b.order known in
      (
        rs,
        rw named once,
        All-map _ _ rs (λ r found. sym (kept r.0).0 ∙ found) there,
        (λ k. ap (is_seen py k) named ∙ (kept k).1),
        (λ session.
            ap (upsert_batch py stone name show_float ivar_path session) p
            ∙ upsert_batch-ok ivar_path b rs session same
                (ap length (sym named) ∙ length-keys_of rs)),
      )
