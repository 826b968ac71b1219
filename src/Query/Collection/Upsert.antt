-- ===== src/Query/Collection/Upsert.antt =====
-- Which records `bulk_upsert_unique` keeps.
use gemstone_py.Prelude.{
  ◌≡◌, refl, sym, ap, subst, ◌∙◌, Bool, true, false, Option, none, some, List, [], ◌∷◌, ◌++◌,
  Bool-cases, Option-cases, inl, inr, if◌then◌else◌, arith,
}
use gemstone_py.Prelude.Exec.{ok}
use gemstone_py.Prelude.Texts.{Text}
use gemstone_py.Query.{Value, Fields, Python}
use gemstone_py.Query.Paths.{get}
use gemstone_py.Query.Collection.Writes.{is_seen, assign, find, Batch, enter_element, gather}

-- Python's `==` on the keys.
pub record IsEquality {Scalar : Type 0} (py : Python Scalar) : Type 0 where
  pub eq_refl : (a : Value Scalar) → py.eq a a ≡ true
  pub eq_sym : (a b : Value Scalar) → py.eq a b ≡ py.eq b a
  pub eq_trans : (a b c : Value Scalar) → py.eq a b ≡ true → py.eq b c ≡ py.eq a c

module _ {Scalar : Type 0} (py : Python Scalar) (laws : IsEquality py) where
  abbrev Keyed : Type 0
  Keyed = List (Value Scalar × Fields Scalar)

  find-assign :
      (j k : Value Scalar) (element : Fields Scalar) (keyed : Keyed)
      → find py j (assign py k element keyed)
        ≡ (if py.eq j k then some element else find py j keyed)
  unfolding find assign
  find-assign j k element [] = refl
  find-assign j k element ((i, old) ∷ keyed) = ground (
    arith,
    find-assign j k element keyed,
    laws.eq_trans j k i,
    laws.eq_trans k i j,
    laws.eq_sym j k,
    laws.eq_sym j i,
    laws.eq_sym k i,
  )

  is_seen-append :
      (j k : Value Scalar) (seen : List (Value Scalar))
      → is_seen py j (seen ++ k ∷ []) ≡ (if is_seen py j seen then true else py.eq j k)
  unfolding is_seen
  is_seen-append j k [] = ground arith
  is_seen-append j k (i ∷ seen) = ground (arith, is_seen-append j k seen)

  is_seen_cong :
      (j k : Value Scalar) (seen : List (Value Scalar))
      → py.eq j k ≡ true
      → is_seen py j seen ≡ is_seen py k seen
  unfolding is_seen
  is_seen_cong j k [] h = refl
  is_seen_cong j k (i ∷ seen) h = ground (arith, laws.eq_trans j k i, is_seen_cong j k seen h)

  abbrev pub is_some {ℓ} : {A : Type ℓ} → Option A → Bool
  is_some none = false
  is_some (some a) = true

  abbrev or_else {ℓ} : {A : Type ℓ} → Option A → Option A → Option A
  or_else none b = b
  or_else (some a) b = some a

  or_else-none {ℓ} : {A : Type ℓ} (o : Option A) → or_else o none ≡ o
  or_else-none none = refl
  or_else-none (some a) = refl

  -- No two keys are equal.
  abbrev pub Distinct : List (Value Scalar) → Type 0
  Distinct [] = Unit
  Distinct (k ∷ ks) = (is_seen py k ks ≡ false) × Distinct ks

  Distinct-append :
      (k : Value Scalar) (ks : List (Value Scalar))
      → is_seen py k ks ≡ false
      → Distinct ks
      → Distinct (ks ++ k ∷ [])
  unfolding is_seen
  Distinct-append k [] h d = (refl, tt)
  Distinct-append k (i ∷ ks) h d =
      let ih = Distinct-append k ks (ground arith) d.1 in
      (ground (arith, is_seen-append i k ks, laws.eq_sym i k), ih)

  -- The keys in the order are those of the dict, each once.
  record Agrees (b : Batch py) : Type 0 where
    pub once : Distinct b.order
    pub same : (k : Value Scalar) → is_seen py k b.order ≡ is_some (find py k b.keyed)

  enter_element-once :
      (key : Value Scalar) (element : Fields Scalar) (b : Batch py)
      → Agrees b
      → Distinct (enter_element py key element b).order
  unfolding enter_element
  enter_element-once key element b h = elim (Bool-cases (is_seen py key b.order)) [
    | inl old ↦ rw old h.once
    | inr new ↦ rw new (Distinct-append key b.order new h.once)
  ]

  enter_element-same :
      (key : Value Scalar) (element : Fields Scalar) (b : Batch py)
      → Agrees b
      → (k : Value Scalar)
      → is_seen py k (enter_element py key element b).order
        ≡ is_some (find py k (enter_element py key element b).keyed)
  unfolding enter_element
  enter_element-same key element b h k = ground (
    arith,
    find-assign k key element b.keyed,
    is_seen-append k key b.order,
    is_seen_cong k key b.order,
    h.same k,
    h.same key,
  )

  -- The key of a record is equal to `k`.
  has_key : Text → Value Scalar → Fields Scalar → Bool
  has_key ivar_path k element = elim (get ivar_path element) [ none ↦ false | some v ↦ py.eq k v ]

  -- The last of the records with a key equal to `k`.
  unfoldable pub last_with : Text → Value Scalar → List (Fields Scalar) → Option (Fields Scalar)
  unfolding has_key
  last_with ivar_path k [] = none
  last_with ivar_path k (element ∷ elements) =
      or_else (last_with ivar_path k elements)
        (if has_key ivar_path k element then some element else none)

  gather-cons :
      (ivar_path : Text) (element : Fields Scalar) (elements : List (Fields Scalar)) (b : Batch py)
      {c : Batch py}
      → gather py ivar_path (element ∷ elements) b ≡ ok c
      → (key : Value Scalar) × (get ivar_path element ≡ some key)
        × (gather py ivar_path elements (enter_element py key element b) ≡ ok c)
  unfolding gather
  gather-cons ivar_path element elements b h = elim (Option-cases (get ivar_path element)) [
    | inl missing ↦ cc (rw (missing, gather) at h)
    | inr (key, found) ↦ (key, found, ground arith)
  ]

  gather-nil : (ivar_path : Text) (b c : Batch py) → gather py ivar_path [] b ≡ ok c → b ≡ c
  unfolding gather
  gather-nil ivar_path b c h = cc

  has_key_lem :
      (ivar_path : Text) (k : Value Scalar) (element : Fields Scalar) {key : Value Scalar}
      → get ivar_path element ≡ some key
      → has_key ivar_path k element ≡ py.eq k key
  unfolding has_key
  has_key_lem ivar_path k element found = rw (found, has_key)

  or_else_if :
      (later : Option (Fields Scalar)) (here : Bool) (element : Fields Scalar)
      (before : Option (Fields Scalar))
      → or_else later (if here then some element else before)
        ≡ or_else (or_else later (if here then some element else none)) before
  or_else_if none true element before = refl
  or_else_if none false element before = refl
  or_else_if (some r) here element before = refl

  -- Entering a record under its key.
  find_entered :
      (ivar_path : Text) (element : Fields Scalar) (elements : List (Fields Scalar)) (b : Batch py)
      (key k : Value Scalar)
      → get ivar_path element ≡ some key
      → or_else (last_with ivar_path k elements) (find py k (enter_element py key element b).keyed)
        ≡ or_else (last_with ivar_path k (element ∷ elements)) (find py k b.keyed)
  unfolding last_with enter_element
  find_entered ivar_path element elements b key k found =
      rw (find-assign k key element b.keyed, has_key_lem ivar_path k element found)
        (or_else_if (last_with ivar_path k elements) (py.eq k key) element (find py k b.keyed))

  gather_lem :
      (ivar_path : Text) (elements : List (Fields Scalar)) (b c : Batch py)
      → Agrees b
      → gather py ivar_path elements b ≡ ok c
      → Agrees c
        × ((k : Value Scalar)
            → find py k c.keyed ≡ or_else (last_with ivar_path k elements) (find py k b.keyed))
  unfolding last_with
  gather_lem ivar_path [] b c a h =
      let same = gather-nil ivar_path b c h in
      (subst Agrees same a, λ k. ap (λ (t : Batch py). find py k t.keyed) (sym same))
  gather_lem ivar_path (element ∷ elements) b c a h =
      let (key, found, rest) = gather-cons ivar_path element elements b h in
      let entered : Agrees (enter_element py key element b) = record {
        once = enter_element-once key element b a;
        same = enter_element-same key element b a;
      } in
      let ih = gather_lem ivar_path elements (enter_element py key element b) c entered rest in
      (ih.0, λ k. ih.1 k ∙ find_entered ivar_path element elements b key k found)

  -- The keys are taken one by one, none twice, and each is there with the last record that has it.
  pub gather_keeps_last :
      (ivar_path : Text) (elements : List (Fields Scalar)) (b : Batch py)
      → gather py ivar_path elements (record { keyed = []; order = [] }) ≡ ok b
      → Distinct b.order
        × ((k : Value Scalar)
            → (find py k b.keyed ≡ last_with ivar_path k elements)
              × (is_seen py k b.order ≡ is_some (last_with ivar_path k elements)))
  unfolding find is_seen
  gather_keeps_last ivar_path elements b h =
      let (a, f) = gather_lem ivar_path elements _ b (record { once = tt; same = λ k. refl }) h in
      (
        a.once,
        λ k.
            let e = f k ∙ or_else-none (last_with ivar_path k elements) in
            (e, a.same k ∙ ap is_some e),
      )
