-- ===== src/Query/Collection.antt =====
-- `GSCollection` of gemstone_py/gsquery.py: a named set of records in the stone.
pub mod Writes
pub mod Upsert
use gemstone_py.Prelude.{
  ℕ, zero, suc, ◌+◌, true, false, Option, none, some, List, [], ◌∷◌, ◌++◌, length, nat_eq, ◌==◌,
  if◌then◌else◌,
}
use gemstone_py.Prelude.Exec.{Result, ok, err}
use gemstone_py.Prelude.Action.{Action, pure, raise, catch, ◌>>=◌, ◌>>◌}
use gemstone_py.Prelude.Int.{pos}
use gemstone_py.Prelude.Texts.{Text, codes}
use gemstone_py.Prelude.Texts.Signed.{str_int}
use gemstone_py.Oop.{oop_nil, python_to_smallint}
use gemstone_py.Client.Bulk.{double_quotes}
use gemstone_py.Prelude.Texts.Equality.{text_eq}
use gemstone_py.Query.{
  Value, scalar, array, object, Fields, no_fields, field, Scalar, null, boolean, int, float, string,
  Stone, QueryError, value_error, of_session,
}
use gemstone_py.Query.Paths.{segments}

-- `_escape`
unfoldable pub escape : Text → Text
unfolding double_quotes
escape s = double_quotes s

-- `_OPS[op][1:]`; `none` is an operator that is not there.
unfoldable pub gs_op : Text → Option Text
gs_op op =
    if op == codes "lt"
    then some (codes "<")
    else if op == codes "lte"
    then some (codes "<=")
    else if op == codes "gt"
    then some (codes ">")
    else if op == codes "gte"
    then some (codes ">=")
    else if op == codes "eql"
    then some (codes "=")
    else if op == codes "neq"
    then some (codes "~=")
    else none

module _ {Float : Type 0} (show_float : Float → Text) where
  -- `none` is its `ValueError`.
  unfoldable pub smalltalk_value : Value (Scalar Float) → Option Text
  unfolding escape
  smalltalk_value (scalar (boolean true)) = some (codes "true")
  smalltalk_value (scalar (boolean false)) = some (codes "false")
  smalltalk_value (scalar null) = some (codes "nil")
  smalltalk_value (scalar (int n)) = some (str_int n)
  smalltalk_value (scalar (float x)) = some (show_float x)
  smalltalk_value (scalar (string s)) = some (codes "'" ++ escape s ++ codes "'")
  smalltalk_value (array vs) = none
  smalltalk_value (object fs) = none

root_name : Text
root_name = codes "GSQueryRoot"

-- `((UserGlobals at: #GSQueryRoot) at: '<name>')`
unfoldable pub set_expr : Text → Text
unfolding escape root_name
set_expr name =
    codes "((UserGlobals at: #" ++ escape root_name ++ codes ") at: '" ++ escape name ++ codes "')"

module _ {Float : Type 0} (stone : Stone (Scalar Float)) where
  open stone use {World, Session}

  abbrev pub Call : Type 0 → Type 0
  Call A = Action World QueryError A

  leave_scope : {A : Type 0} → Session → Result QueryError A → Call A
  leave_scope s (ok a) = do of_session (stone.exit s); pure a
  leave_scope s (err e) = do of_session (stone.exit_failed s); raise e

  -- `with _session(session, config) as s: body`
  unfoldable pub in_session : {A : Type 0} → Option Session → (Session → Call A) → Call A
  unfolding leave_scope
  in_session (some s) body w = body s w
  in_session none body w =
      (do s ← of_session stone.enter; (λ v. leave_scope s (body s v).0 (body s v).1)) w

  -- The members of a collection, from the index `i` on.
  members_from : Session → ℕ → ℕ → ℕ → Call (List ℕ)
  members_from s array_oop i zero = pure []
  members_from s array_oop i (suc rounds) = do
    oop ← of_session (stone.perform_oop s array_oop (codes "at:") (python_to_smallint (pos i) ∷ []))
    rest ← members_from s array_oop (i + 1) rounds
    pure (oop ∷ rest)

  unfoldable collection_member_oops : Session → ℕ → Call (List ℕ)
  unfolding members_from
  collection_member_oops s collection_oop = do
    array_oop ← of_session (stone.perform_oop s collection_oop (codes "asArray") [])
    size ← of_session (stone.perform_value s array_oop (codes "size"))
    members_from s array_oop 1 size

  put_segments : Session → ℕ → ℕ → List Text → Call (Unit {0})
  put_segments s array_oop i [] = pure tt
  put_segments s array_oop i (segment ∷ rest) = do
    segment_oop ← of_session (stone.new_string s segment)
    done ← of_session (
        stone.perform_oop s array_oop (codes "at:put:")
          (python_to_smallint (pos i) ∷ segment_oop ∷ []))
    put_segments s array_oop (i + 1) rest

  unfoldable pub path_array_oop : Session → Text → Call ℕ
  unfolding put_segments segments
  path_array_oop s ivar_path = do
    array_class_oop ← of_session (stone.resolve s (codes "Array"))
    array_oop ← of_session (
        stone.perform_oop s array_class_oop (codes "new:")
          (python_to_smallint (pos (length (segments ivar_path))) ∷ []))
    put_segments s array_oop 1 (segments ivar_path)
    pure array_oop

  put_fields : Session → ℕ → Fields (Scalar Float) → Call (Unit {0})
  put_fields s dict_oop no_fields = pure tt
  put_fields s dict_oop (field key v rest) = do
    key_oop ← of_session (stone.new_string s key)
    val_oop ← of_session (stone.to_oop s v)
    done ← of_session (stone.perform_oop s dict_oop (codes "at:put:") (key_oop ∷ val_oop ∷ []))
    put_fields s dict_oop rest

  unfoldable record_oop : Session → Fields (Scalar Float) → Call ℕ
  unfolding put_fields
  record_oop s element = do
    class_oop ← of_session (stone.resolve s (codes "Dictionary"))
    dict_oop ← of_session (stone.perform_oop s class_oop (codes "new") [])
    put_fields s dict_oop element
    pure dict_oop

  unfoldable pub insert_into_set_oop : Session → ℕ → Fields (Scalar Float) → Call (Unit {0})
  unfolding record_oop
  insert_into_set_oop s set_oop element = do
    oop ← record_oop s element
    done ← of_session (stone.perform_oop s set_oop (codes "add:") (oop ∷ []))
    pure tt

  unfoldable remove_each : Session → ℕ → List ℕ → Call (Unit {0})
  remove_each s set_oop [] = pure tt
  remove_each s set_oop (member_oop ∷ rest) = do
    done ← of_session (stone.perform_oop s set_oop (codes "remove:") (member_oop ∷ []))
    remove_each s set_oop rest

  unfoldable pub remove_member_oops : Session → ℕ → List ℕ → Call ℕ
  unfolding remove_each
  remove_member_oops s set_oop member_oops = do
    remove_each s set_oop member_oops
    pure (length member_oops)

  module _ (name : Text) where
    unfoldable pub ensure_root : Session → Call (Unit {0})
    unfolding escape root_name
    ensure_root s = do
      of_session (
          stone.run s (
            codes "(UserGlobals includesKey: #"
            ++ escape root_name
            ++ codes ") ifFalse: [  UserGlobals at: #"
            ++ escape root_name
            ++ codes " put: Dictionary new ]."))
      of_session (
          stone.run s (
            codes "((UserGlobals at: #"
            ++ escape root_name
            ++ codes ") includesKey: '"
            ++ escape name
            ++ codes "') ifFalse: [  (UserGlobals at: #"
            ++ escape root_name
            ++ codes ") at: '"
            ++ escape name
            ++ codes "' put: IdentitySet new ]."))

    unfoldable pub set_oop : Session → Call ℕ
    unfolding ensure_root set_expr
    set_oop s = do ensure_root s; of_session (stone.eval_oop s (set_expr name))

    unfoldable pub insert_with_session : Session → Fields (Scalar Float) → Call (Unit {0})
    unfolding set_oop insert_into_set_oop
    insert_with_session s element = do oop ← set_oop s; insert_into_set_oop s oop element

    unfoldable select_source : Text → Text → Text → Text
    unfolding set_expr
    select_source path op gs_val =
        codes "| col result valueOrNil |\ncol := "
        ++ set_expr name
        ++ codes ".\nresult := col select: [:e |\n  valueOrNil := e at: '"
        ++ path
        ++ codes "' ifAbsent: [nil].\n  valueOrNil notNil and: [ valueOrNil "
        ++ op
        ++ codes " "
        ++ gs_val
        ++ codes " ]\n].\nresult"

    -- `search:comparing:with:`; a nil result is an error of its own.
    indexed_search : Session → Text → Text → Value (Scalar Float) → Call ℕ
    unfolding set_oop path_array_oop
    indexed_search s ivar_path op v = do
      set ← set_oop s
      path ← path_array_oop s ivar_path
      symbol ← of_session (stone.new_symbol s op)
      value_oop ← of_session (stone.to_oop s v)
      result_oop ← of_session (
          stone.perform_oop s set (codes "search:comparing:with:") (path ∷ symbol ∷ value_oop ∷ []))
      (if result_oop == oop_nil then raise value_error else pure result_oop)

    module _ (show_float : Float → Text) where
      search_with : Session → Text → Value (Scalar Float) → Option Text → Option Text → Call ℕ
      unfolding ensure_root indexed_search select_source escape
      search_with s ivar_path v none gs_val = raise value_error
      search_with s ivar_path v (some op) none = raise value_error
      search_with s ivar_path v (some op) (some gs_val) = do
        ensure_root s
        catch (indexed_search s ivar_path op v)
            (λ e. of_session (stone.eval_oop s (select_source (escape ivar_path) op gs_val)))

      unfoldable pub search_result_oop : Session → Text → Text → Value (Scalar Float) → Call ℕ
      unfolding search_with smalltalk_value gs_op
      search_result_oop s ivar_path op v =
          search_with s ivar_path v (gs_op op) (smalltalk_value show_float v)

      unfoldable pub search_oops : Session → Text → Text → Value (Scalar Float) → Call (List ℕ)
      unfolding search_result_oop collection_member_oops
      search_oops s ivar_path op v = do
        result_oop ← search_result_oop s ivar_path op v
        (if result_oop == oop_nil then pure [] else collection_member_oops s result_oop)
