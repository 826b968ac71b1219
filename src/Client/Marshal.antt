-- ===== src/Client/Marshal.antt =====
-- Python values for pointers and pointers for Python values.
use gemstone_py.Prelude.{
  ℕ, Bool, true, false, ◌||◌, Option, none, some, List, [], ◌∷◌, ◌++◌, nat_eq, ◌==◌, contains,
  if◌then◌else◌,
}
use gemstone_py.Prelude.Exec.{ok}
use gemstone_py.Prelude.Action.{pure, raise, catch, ◌>>=◌, ◌>>◌}
use gemstone_py.Prelude.Texts.{Text, codes}
use gemstone_py.Prelude.Int.{ℤ}
use gemstone_py.Oop.{
  oop_illegal, oop_nil, oop_true, oop_false, is_smallint, is_char, smallint_to_python,
  char_to_python, python_to_smallint,
}
use gemstone_py.Client.{Gci, illegal_oop, bad_character, cannot_convert, Method}
use gemstone_py.Client.Session.{call_gci, tell_gci, require_login}
use gemstone_py.Client.Calls.{
  execute_str_oop, perform_oop_raw, new_string, new_object, resolve, float_oop, try_oop_to_float,
  fetch_string,
}

-- What `_marshal` returns.
pub data Marshalled (Float : Type 0) : Type 0 where
  nothing : Marshalled Float
  bool : Bool → Marshalled Float
  int : ℤ → Marshalled Float
  character : ℕ → Marshalled Float
  float : Float → Marshalled Float
  string : Text → Marshalled Float
  oop_ref : ℕ → Marshalled Float

-- What `_python_value_to_oop` is given: `with_oop` is any object with an `oop` attribute, and the keys
-- of a dict have gone through `str`.
mutual
  pub data PyArgument (Float : Type 0) : Type 0 where
    none_value : PyArgument Float
    bool_value : Bool → PyArgument Float
    with_oop : ℕ → PyArgument Float
    int_value : ℤ → PyArgument Float
    float_value : Float → PyArgument Float
    str_value : Text → PyArgument Float
    dict_value : Items Float → PyArgument Float
    other_value : PyArgument Float

  pub data Items (Float : Type 0) : Type 0 where
    no_items : Items Float
    item : Text → PyArgument Float → Items Float → Items Float

module _ (g : Gci) (me : ℕ) where
  -- An oop of a class that could not be resolved is left out.
  resolved : ℕ → List ℕ
  resolved oop = if oop == oop_illegal || oop == 0 then [] else oop ∷ []

  look_up_string_classes : Method g (List ℕ)
  unfolding resolved
  look_up_string_classes = do
    require_login g me
    string_oop ← call_gci g me (g.resolve_symbol (codes "String"))
    symbol_oop ← call_gci g me (g.resolve_symbol (codes "Symbol"))
    (λ c.
        let cache = resolved string_oop ++ resolved symbol_oop in
        (ok cache, record c { string_class_oops = some cache }))

  cached : Option (List ℕ) → Method g (List ℕ)
  unfolding look_up_string_classes
  cached (some oops) = pure oops
  cached none = look_up_string_classes

  string_class_oops : Method g (List ℕ)
  unfolding cached
  string_class_oops c = cached c.string_class_oops c

  unfoldable pub is_string_oop : ℕ → Method g Bool
  unfolding string_class_oops
  is_string_oop oop =
      catch
        (do
          require_login g me
          cls_oop ← call_gci g me (g.fetch_class oop)
          oops ← string_class_oops
          pure (contains oops cls_oop))
        (λ e. pure false)

  character_of : Option ℕ → Method g (Marshalled g.Float)
  character_of none = raise bad_character
  character_of (some code) = pure (character code)

  string_or_ref : ℕ → Bool → Method g (Marshalled g.Float)
  string_or_ref oop true = do text ← fetch_string g me oop; pure (string text)
  string_or_ref oop false = pure (oop_ref oop)

  float_or_object : ℕ → Option g.Float → Method g (Marshalled g.Float)
  unfolding string_or_ref
  float_or_object oop (some value) = pure (float value)
  float_or_object oop none = do is_string ← is_string_oop oop; string_or_ref oop is_string

  unfoldable pub marshal : ℕ → Method g (Marshalled g.Float)
  unfolding is_smallint is_char smallint_to_python char_to_python character_of float_or_object
  marshal oop =
      if oop == oop_nil
      then pure nothing
      else if oop == oop_true
      then pure (bool true)
      else if oop == oop_false
      then pure (bool false)
      else if oop == oop_illegal
      then raise illegal_oop
      else if is_smallint oop
      then pure (int (smallint_to_python oop))
      else if is_char oop
      then character_of (char_to_python oop)
      else do value ← try_oop_to_float g me oop; float_or_object oop value

  unfoldable pub eval : Text → Method g (Marshalled g.Float)
  eval source = do oop ← execute_str_oop g me source; marshal oop

  unfoldable pub perform_value : ℕ → Text → List ℕ → Method g (Marshalled g.Float)
  perform_value receiver selector args = do
    oop ← perform_oop_raw g me receiver selector args
    marshal oop

  unfoldable mutual
    pub python_value_to_oop : PyArgument g.Float → Method g ℕ
    python_value_to_oop none_value = pure oop_nil
    python_value_to_oop (bool_value true) = pure oop_true
    python_value_to_oop (bool_value false) = pure oop_false
    python_value_to_oop (with_oop oop) = pure oop
    python_value_to_oop (int_value v) = pure (python_to_smallint v)
    python_value_to_oop (float_value value) = float_oop g me value
    python_value_to_oop (str_value text) = new_string g me text
    python_value_to_oop (dict_value items) = do
      class_oop ← resolve g me (codes "StringKeyValueDictionary")
      dict_oop ← new_object g me class_oop
      require_login g me
      put_items dict_oop items
    python_value_to_oop other_value = raise cannot_convert

    put_items : ℕ → Items g.Float → Method g ℕ
    put_items dict_oop no_items = pure dict_oop
    put_items dict_oop (item key value items) = do
      value_oop ← python_value_to_oop value
      tell_gci g me (g.put_in_dict dict_oop key value_oop)
      put_items dict_oop items
