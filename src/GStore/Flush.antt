-- ===== src/GStore/Flush.antt =====
-- What a flush leaves in a mapping of the stone.
use gemstone_py.Prelude.{
  String, string_eq, ◌≡◌, refl, sym, ap, ◌∙◌, Option, none, some, false, List, [], ◌∷◌, contains,
  ◌==◌, arith, if◌then◌else◌, inl, inr, subst, Bool-cases,
}
use gemstone_py.Prelude.Dict.{Dict, keys, lookup}
use gemstone_py.Prelude.Action.{◌>>◌, >>=-returns}
use gemstone_py.Prelude.Exec.{ok}
use gemstone_py.GStore.{Json, StoneApi}
use gemstone_py.GStore.Store.{write_items, remove_keys, flush}

module _ (api : StoneApi) (json : Json) where
  open api use {World, Mapping, put, remove}
  open json use {Value, dumps}

  -- What the source relies on of a mapping: a write that returns stores its text, a removal that
  -- returns leaves no entry, and neither touches another key.
  pub record IsMapping (entry : World → Mapping → String → Option String) : Type 0 where
    pub entry-put :
        (f : Mapping) (j : String) (text : String) (w w' : World)
        → put f j text w ≡ (ok tt, w')
        → (k : String) → entry w' f k ≡ (if k == j then some text else entry w f k)
    pub entry-remove :
        (f : Mapping) (j : String) (w w' : World)
        → remove f j w ≡ (ok tt, w')
        → (k : String) → entry w' f k ≡ (if k == j then none else entry w f k)

  -- The text `text` that `dumps` gives for a value.
  abbrev pub Encodes : Option Value → Option String → Option String → Type 0
  Encodes none before after = after ≡ before
  Encodes (some v) before after = (text : String) × (dumps v ≡ ok text) × (after ≡ some text)

  module _ (entry : World → Mapping → String → Option String) (law : IsMapping entry) where
    remove_keys-entry :
        (f : Mapping) (ks : List String) (w w' : World)
        → remove_keys api json f ks w ≡ (ok tt, w')
        → (k : String) → entry w' f k ≡ (if contains ks k then none else entry w f k)
    unfolding remove_keys
    remove_keys-entry f [] w w' h k = ap (λ r. entry r.1 f k) (sym h)
    remove_keys-entry f (j ∷ ks) w w' h k =
        let (a, w1, e, r) = >>=-returns (remove f j) (λ _. remove_keys api json f ks) w h in
        let later = remove_keys-entry f ks w1 w' r k in
        ground (arith, later, law.entry-remove f j w w1 e k)

    -- The keys of a Python dict are distinct.
    abbrev IsDict : Dict String Value → Type 0
    IsDict [] = Unit
    IsDict ((k, v) ∷ d) = (contains (keys d) k ≡ false) × IsDict d

    lookup-absent :
        (k : String) (d : Dict String Value) → contains (keys d) k ≡ false → lookup k d ≡ none
    unfolding lookup
    lookup-absent k [] h = refl
    lookup-absent k ((j, v) ∷ d) h = ground (arith, lookup-absent k d)

    write_items-entry :
        (f : Mapping) (dirty : Dict String Value) (w w' : World)
        → IsDict dirty
        → write_items api json f dirty w ≡ (ok tt, w')
        → (k : String) → Encodes (lookup k dirty) (entry w f k) (entry w' f k)
    unfolding write_items lookup
    write_items-entry f [] w w' u h k = ap (λ r. entry r.1 f k) (sym h)
    write_items-entry f ((j, v) ∷ dirty) w w' (new, u) h k =
        let (text, w1, e, r) =
          >>=-returns (λ w. (dumps v, w)) (λ text. put f j text >> write_items api json f dirty) w
            h in
        let (a, w2, e', r') = >>=-returns (put f j text) (λ _. write_items api json f dirty) w1 r in
        let later = write_items-entry f dirty w2 w' u r' k in
        let stored = law.entry-put f j text w1 w2 e' k in
        let same : w1 ≡ w = ap (λ p. p.1) (sym e) in
        elim (Bool-cases (k == j)) [
          | inl q ↦
              let absent = lookup-absent k dirty (ground (arith, new)) in
              rw q (text, ap (λ p. p.0) e, (rw absent at later) ∙ stored ∙ ground (arith, q))
          | inr q ↦ rw q (
              subst (λ o. Encodes (lookup k dirty) o (entry w' f k))
                (stored ∙ ground (arith, q) ∙ ap (λ z. entry z f k) same) later)
        ]

    -- A flush that returns leaves under each key what the transaction had for it: nothing
    -- if the key was deleted, the encoded value if it was written, and else what was there
    -- before. The mapping is taken to store what it is given, and the keys of the writes to
    -- be distinct.
    pub flush-entry :
        (f : Mapping) (dirty : Dict String Value) (deletes : List String) (w w' : World)
        → IsDict dirty
        → flush api json f dirty deletes w ≡ (ok tt, w')
        → (k : String)
        → if contains deletes k
          then entry w' f k ≡ none
          else Encodes (lookup k dirty) (entry w f k) (entry w' f k)
    flush-entry f dirty deletes w w' u h k =
        let (a, w1, e, r) =
          >>=-returns (write_items api json f dirty) (λ _. remove_keys api json f deletes) w h in
        let written = write_items-entry f dirty w w1 u e k in
        let removed = remove_keys-entry f deletes w1 w' r k in
        elim (Bool-cases (contains deletes k)) [
          | inl q ↦ rw q (removed ∙ ground (arith, q))
          | inr q ↦ rw q (
              subst (Encodes (lookup k dirty) (entry w f k)) (sym (removed ∙ ground (arith, q)))
                written)
        ]
