-- ===== src/Client/Bulk.antt =====
-- The bulk sends of gemstone_py/client.py: the source that performs many messages in one evaluation,
-- and the pointers that its reply lists.
pub mod Literals
pub mod Replies
use gemstone_py.Prelude.{
  ℕ, suc, ◌+◌, Option, none, some, List, [], ◌∷◌, ◌++◌, length, map, nat_eq, ◌==◌, if◌then◌else◌,
}
use gemstone_py.Prelude.Exec.{ok, err}
use gemstone_py.Prelude.Action.{pure, raise, ◌>>=◌}
use gemstone_py.Prelude.Texts.{Text, codes, str, splitlines}
use gemstone_py.Batch.Fetch.{object_for_oop_expr, int_fields}
use gemstone_py.Client.{Gci, value_error, Method}
use gemstone_py.Client.Marshal.{
  Marshalled, nothing, bool, int, character, float, string, oop_ref, eval, marshal,
}

abbrev pub quote : ℕ
quote = b'\''

-- `value.replace("'", "''")`
unfoldable pub double_quotes : Text → Text
double_quotes [] = []
double_quotes (c ∷ s) =
    let rest = double_quotes s in if c == quote then quote ∷ quote ∷ rest else c ∷ rest

unfoldable pub smalltalk_string_literal : Text → Text
smalltalk_string_literal value = quote ∷ double_quotes value ++ quote ∷ []

-- `f"{name} at: {index} put: {expr}.\n"` for each, the indices from `index` on.
unfoldable pub puts : Text → ℕ → List Text → Text
puts name index [] = []
puts name index (expr ∷ exprs) =
    name
    ++ codes " at: "
    ++ str index
    ++ codes " put: "
    ++ expr
    ++ codes ".\n"
    ++ puts name (index + 1) exprs

unfoldable bulk_perform_source : List ℕ → Text → List ℕ → Text
unfolding puts smalltalk_string_literal
bulk_perform_source receivers selector args =
    codes "| receivers args selector stream |\n"
    ++ codes "receivers := Array new: "
    ++ str (length receivers)
    ++ codes ".\n"
    ++ puts (codes "receivers") 1
        (map (λ oop. codes "(" ++ object_for_oop_expr oop ++ codes ")") receivers)
    ++ codes "args := Array new: "
    ++ str (length args)
    ++ codes ".\n"
    ++ puts (codes "args") 1 (map (λ oop. codes "(" ++ object_for_oop_expr oop ++ codes ")") args)
    ++ codes "selector := "
    ++ smalltalk_string_literal selector
    ++ codes " asSymbol.\n"
    ++ codes "stream := ''.\n"
    ++ codes "1 to: receivers size do: [:index | | result |\n"
    ++ codes "  result := (receivers at: index) perform: selector withArguments: args.\n"
    ++ codes "  stream := stream, result asOop asString, String lf asString\n"
    ++ codes "].\n"
    ++ codes "stream"

-- `PerformCall`
pub record PerformCall : Type 0 where
  pub receiver : ℕ
  pub selector : Text
  pub args : List ℕ

-- `arg_list_puts`, the indices from `index` on.
unfoldable arg_list_puts : ℕ → List PerformCall → Text
unfolding puts
arg_list_puts index [] = []
arg_list_puts index (call ∷ calls) =
    codes "callArgs := Array new: "
    ++ str (length call.args)
    ++ codes ".\n"
    ++ puts (codes "  callArgs") 1
        (map (λ oop. codes "(" ++ object_for_oop_expr oop ++ codes ")") call.args)
    ++ codes "argsList at: "
    ++ str index
    ++ codes " put: callArgs.\n"
    ++ arg_list_puts (index + 1) calls

-- `PerformCallInput`: a call, a tuple with the arguments left out or given, or a tuple of another
-- length.
pub data PerformCallInput : Type 0 where
  as_call : PerformCall → PerformCallInput
  as_pair : ℕ → Text → PerformCallInput
  as_triple : ℕ → Text → List ℕ → PerformCallInput
  other_tuple : PerformCallInput

unfoldable pub coerce_perform_call : PerformCallInput → Option PerformCall
coerce_perform_call (as_call call) = some call
coerce_perform_call (as_pair receiver selector) =
    some (record { receiver = receiver; selector = selector; args = [] })
coerce_perform_call (as_triple receiver selector args) =
    some (record { receiver = receiver; selector = selector; args = args })
coerce_perform_call other_tuple = none

-- `[_coerce_perform_call(call) for call in calls]`
unfoldable pub coerce_perform_calls : List PerformCallInput → Option (List PerformCall)
coerce_perform_calls [] = some []
coerce_perform_calls (call ∷ calls) =
    let rest = coerce_perform_calls calls in
    elim (coerce_perform_call call) [
      | none ↦ none
      | some first ↦ elim rest [ none ↦ none | some others ↦ some (first ∷ others) ]
    ]

unfoldable pub bulk_perform_calls_source : List PerformCall → Text
unfolding puts smalltalk_string_literal arg_list_puts
bulk_perform_calls_source calls =
    codes "| receivers selectors argsList callArgs stream |\n"
    ++ codes "receivers := Array new: "
    ++ str (length calls)
    ++ codes ".\n"
    ++ codes "selectors := Array new: "
    ++ str (length calls)
    ++ codes ".\n"
    ++ codes "argsList := Array new: "
    ++ str (length calls)
    ++ codes ".\n"
    ++ puts (codes "receivers") 1
        (map (λ call. codes "(" ++ object_for_oop_expr call.receiver ++ codes ")") calls)
    ++ puts (codes "selectors") 1
        (map (λ call. smalltalk_string_literal call.selector ++ codes " asSymbol") calls)
    ++ arg_list_puts 1 calls
    ++ codes "stream := ''.\n"
    ++ codes "1 to: receivers size do: [:index | | result |\n"
    ++ codes "  result := (receivers at: index)\n"
    ++ codes "    perform: (selectors at: index)\n"
    ++ codes "    withArguments: (argsList at: index).\n"
    ++ codes "  stream := stream, result asOop asString, String lf asString\n"
    ++ codes "].\n"
    ++ codes "stream"

-- `other` is Python's `str` of a value that is no string.
module _ (g : Gci) (me : ℕ) (other : Marshalled g.Float → Text) where
  unfoldable pub str_of : Marshalled g.Float → Text
  str_of (string text) = text
  str_of value = other value

  -- `[int(line) for line in str(raw).splitlines() if line]`
  unfoldable pub int_lines_of : Text → Method g (List ℕ)
  int_lines_of text c = elim (int_fields (splitlines text)) [
    | none ↦ (err value_error, c)
    | some oops ↦ (ok oops, c)
  ]

  unfoldable pub parse_bulk : Marshalled g.Float → Method g (List ℕ)
  unfolding str_of int_lines_of
  parse_bulk nothing = pure []
  parse_bulk raw = int_lines_of (str_of raw)

  unfoldable bulk_perform_oop : List ℕ → Text → List ℕ → Method g (List ℕ)
  bulk_perform_oop [] selector args = pure []
  bulk_perform_oop (receiver ∷ receivers) selector args = do
    raw ← eval g me (bulk_perform_source (receiver ∷ receivers) selector args)
    parse_bulk raw

  unfoldable pub perform_coerced : Option (List PerformCall) → Method g (List ℕ)
  perform_coerced none = raise value_error
  perform_coerced (some []) = pure []
  perform_coerced (some (call ∷ calls)) = do
    raw ← eval g me (bulk_perform_calls_source (call ∷ calls))
    parse_bulk raw

  unfoldable pub bulk_perform_calls_oop : List PerformCallInput → Method g (List ℕ)
  unfolding perform_coerced coerce_perform_calls
  bulk_perform_calls_oop calls = perform_coerced (coerce_perform_calls calls)

  marshal_all : List ℕ → Method g (List (Marshalled g.Float))
  marshal_all [] = pure []
  marshal_all (oop ∷ oops) = do
    value ← marshal g me oop
    values ← marshal_all oops
    pure (value ∷ values)

  unfoldable bulk_perform_value : List ℕ → Text → List ℕ → Method g (List (Marshalled g.Float))
  unfolding marshal_all
  bulk_perform_value receivers selector args = do
    oops ← bulk_perform_oop receivers selector args
    marshal_all oops

  unfoldable bulk_perform_calls_value : List PerformCallInput → Method g (List (Marshalled g.Float))
  unfolding marshal_all
  bulk_perform_calls_value calls = do oops ← bulk_perform_calls_oop calls; marshal_all oops
