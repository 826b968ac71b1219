-- ===== src/Query/Collection/Writes.antt =====
-- The methods of `GSCollection` that open a session: inserts, deletions, upserts, indexes.
pub mod Replaces
use gemstone_py.Prelude.{
  ℕ, ◌+◌, Bool, true, false, Option, none, some, List, [], ◌∷◌, ◌++◌, length, if◌then◌else◌,
}
use gemstone_py.Prelude.Exec.{Result, ok, err}
use gemstone_py.Prelude.Action.{pure, raise, ◌>>=◌, ◌>>◌}
use gemstone_py.Prelude.Texts.{Text, codes}
use gemstone_py.Query.{
  Value, scalar, array, object, Fields, Scalar, Python, Stone, QueryError, key_error, type_error,
  of_session,
}
use gemstone_py.Query.Paths.{get}
use gemstone_py.Query.Collection.{
  escape, root_name, set_expr, Call, in_session, insert_into_set_oop, remove_member_oops,
  ensure_root, set_oop, insert_with_session, search_oops,
}

-- What a dict or a set takes for a key: lists and dicts have no hash.
unfoldable pub is_hashable : {Scalar : Type 0} → Value Scalar → Bool
is_hashable (scalar v) = true
is_hashable (array vs) = false
is_hashable (object fs) = false

module _ {Scalar : Type 0} (py : Python Scalar) where
  -- `value in seen`
  unfoldable pub is_seen : Value Scalar → List (Value Scalar) → Bool
  is_seen v [] = false
  is_seen v (w ∷ seen) = let rest = is_seen v seen in if py.eq v w then true else rest

  -- `keyed[key] = element`; the key that is there stays.
  unfoldable pub assign :
      Value Scalar
      → Fields Scalar
      → List (Value Scalar × Fields Scalar)
      → List (Value Scalar × Fields Scalar)
  assign key element [] = (key, element) ∷ []
  assign key element ((k, old) ∷ keyed) =
      let rest = assign key element keyed in
      if py.eq key k then (k, element) ∷ keyed else (k, old) ∷ rest

  -- `keyed[key]`
  unfoldable pub find : Value Scalar → List (Value Scalar × Fields Scalar) → Option (Fields Scalar)
  find key [] = none
  find key ((k, element) ∷ keyed) =
      let rest = find key keyed in if py.eq key k then some element else rest

  -- The records to keep, by their keys, and the keys in the order in which they came first.
  pub record Batch : Type 0 where
    pub keyed : List (Value Scalar × Fields Scalar)
    pub order : List (Value Scalar)

  unfoldable pub enter_element : Value Scalar → Fields Scalar → Batch → Batch
  unfolding assign is_seen
  enter_element key element b = record {
    keyed = assign key element b.keyed;
    order = if is_seen key b.order then b.order else b.order ++ key ∷ [];
  }

  -- The first loop of `bulk_upsert_unique`.
  unfoldable pub gather : Text → List (Fields Scalar) → Batch → Result QueryError Batch
  unfolding get is_hashable enter_element
  gather ivar_path [] b = ok b
  gather ivar_path (element ∷ elements) b = elim (get ivar_path element) [
    | none ↦ err (key_error ivar_path)
    | some key ↦
        let rest = gather ivar_path elements (enter_element key element b) in
        if is_hashable key then rest else err type_error
  ]

module _ {Float : Type 0} (py : Python (Scalar Float)) (stone : Stone (Scalar Float)) (name : Text)
    (show_float : Float → Text) where
  open stone use {World, Session}

  unfoldable pub insert : Fields (Scalar Float) → Option Session → Call stone (Unit {0})
  insert element session = in_session stone session (λ s. insert_with_session stone name s element)

  insert_each : Session → ℕ → ℕ → List (Fields (Scalar Float)) → Call stone ℕ
  insert_each s oop total [] = pure total
  insert_each s oop total (element ∷ elements) = do
    insert_into_set_oop stone s oop element
    insert_each s oop (total + 1) elements

  unfoldable bulk_insert : List (Fields (Scalar Float)) → Option Session → Call stone ℕ
  unfolding insert_each
  bulk_insert elements session =
      in_session stone session (λ s. set_oop stone name s >>= λ oop. insert_each s oop 0 elements)

  unfoldable pub size : Option Session → Call stone ℕ
  size session =
      in_session stone session
        (λ s. set_oop stone name s >>= λ oop. of_session (stone.perform_value s oop (codes "size")))

  unfoldable replace_all : List (Fields (Scalar Float)) → Option Session → Call stone (Unit {0})
  unfolding insert_each escape root_name
  replace_all elements session = in_session stone session (λ s.
      ensure_root stone name s
      >> of_session (
          stone.run s (
            codes "(UserGlobals at: #"
            ++ escape root_name
            ++ codes ") at: '"
            ++ escape name
            ++ codes "' put: IdentitySet new."))
      >> (set_oop stone name s >>= λ oop. insert_each s oop 0 elements >>= λ total. pure tt))

  -- `total` members are gone, of the values `seen`.
  delete_each :
      Session
      → ℕ
      → Text
      → ℕ
      → List (Value (Scalar Float))
      → List (Value (Scalar Float))
      → Call stone ℕ
  unfolding is_hashable is_seen
  delete_each s oop ivar_path total seen [] = pure total
  delete_each s oop ivar_path total seen (v ∷ values) =
      let rest = delete_each s oop ivar_path total seen values in
      let searched = (λ (n : ℕ). delete_each s oop ivar_path (total + n) (v ∷ seen) values) in
      if is_hashable v
      then (if is_seen py v seen
          then rest
          else (search_oops stone name show_float s ivar_path (codes "eql") v >>= λ members.
              remove_member_oops stone s oop members >>= searched))
      else raise type_error

  unfoldable bulk_delete_where : Text → List (Value (Scalar Float)) → Option Session → Call stone ℕ
  unfolding delete_each
  bulk_delete_where ivar_path values session =
      in_session stone session
        (λ s. set_oop stone name s >>= λ oop. delete_each s oop ivar_path 0 [] values)

  unfoldable delete_where : Text → Value (Scalar Float) → Option Session → Call stone ℕ
  unfolding bulk_delete_where
  delete_where ivar_path v session = bulk_delete_where ivar_path (v ∷ []) session

  -- `keyed[key]` of a key in the order is there.
  insert_found : Session → ℕ → Option (Fields (Scalar Float)) → Call stone (Unit {0})
  insert_found s oop none = raise type_error
  insert_found s oop (some element) = insert_into_set_oop stone s oop element

  upsert_each :
      Session
      → ℕ
      → Text
      → List (Value (Scalar Float) × Fields (Scalar Float))
      → List (Value (Scalar Float))
      → Call stone (Unit {0})
  unfolding insert_found find
  upsert_each s oop ivar_path keyed [] = pure tt
  upsert_each s oop ivar_path keyed (key ∷ order) = do
    members ← search_oops stone name show_float s ivar_path (codes "eql") key
    removed ← remove_member_oops stone s oop members
    insert_found s oop (find py key keyed)
    upsert_each s oop ivar_path keyed order

  upsert_batch : Text → Option Session → Result QueryError (Batch py) → Call stone ℕ
  unfolding upsert_each
  upsert_batch ivar_path session (err e) = raise e
  upsert_batch ivar_path session (ok b) = in_session stone session (λ s.
      set_oop stone name s >>= λ oop.
      upsert_each s oop ivar_path b.keyed b.order >>= λ done. pure (length b.order))

  unfoldable pub bulk_upsert_unique :
      Text → List (Fields (Scalar Float)) → Option Session → Call stone ℕ
  unfolding upsert_batch gather
  bulk_upsert_unique ivar_path elements session =
      upsert_batch ivar_path session
        (gather py ivar_path elements (record { keyed = []; order = [] }))

  unfoldable upsert_unique : Text → Fields (Scalar Float) → Option Session → Call stone (Unit {0})
  unfolding bulk_upsert_unique
  upsert_unique ivar_path element session =
      bulk_upsert_unique ivar_path (element ∷ []) session >>= λ inserted. pure tt

  unfoldable add_index : Text → Option Session → Call stone (Unit {0})
  unfolding escape
  add_index ivar_path session = in_session stone session (λ s.
      ensure_root stone name s
      >> of_session (
          stone.run s (
            codes "| col cls |\ncol := "
            ++ set_expr name
            ++ codes
                ".\ncls := col isEmpty\n  ifTrue:  [ String ]\n  ifFalse: [\n    | sample val |\n"
            ++ codes "    sample := col anElement.\n    val := sample at: '"
            ++ escape ivar_path
            ++ codes
                "' ifAbsent: [nil].\n    val isNil ifTrue: [String] ifFalse: [val class]\n  ].\n"
            ++ codes "col createEqualityIndexOn: '"
            ++ escape ivar_path
            ++ codes "' withLastElementClass: cls.")))

  unfoldable add_index_for_class : Text → Text → Option Session → Call stone (Unit {0})
  unfolding escape
  add_index_for_class ivar_path gs_class session = in_session stone session (λ s.
      ensure_root stone name s
      >> of_session (
          stone.run s (
            set_expr name
            ++ codes " createEqualityIndexOn: '"
            ++ escape ivar_path
            ++ codes "' withLastElementClass: "
            ++ gs_class
            ++ codes ".")))

  unfoldable remove_index : Text → Option Session → Call stone (Unit {0})
  unfolding escape
  remove_index ivar_path session = in_session stone session (λ s. of_session (
      stone.run s
        (set_expr name ++ codes " removeEqualityIndexOn: '" ++ escape ivar_path ++ codes "'.")))

  unfoldable remove_all_indexes : Option Session → Call stone (Unit {0})
  remove_all_indexes session =
      in_session stone session
        (λ s. of_session (stone.run s (set_expr name ++ codes " removeAllIndexes.")))

  unfoldable pub drop : Option Session → Call stone (Unit {0})
  unfolding escape root_name
  drop session = in_session stone session (λ s. of_session (
      stone.run s (
        codes "(UserGlobals includesKey: #"
        ++ escape root_name
        ++ codes ") ifTrue: [  (UserGlobals at: #"
        ++ escape root_name
        ++ codes ") removeKey: '"
        ++ escape name
        ++ codes "' ifAbsent: [] ].")))
