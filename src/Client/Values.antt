-- ===== src/Client/Values.antt =====
-- Values that are sent and read without a call of the library.
use gemstone_py.Prelude.{ℕ, ◌≡◌, refl, ◌∙◌, Bool, true, false, arith, nat_eq, ◌==◌, if◌then◌else◌}
use gemstone_py.Prelude.Exec.{ok}
use gemstone_py.Prelude.Action.{◌>>=◌}
use gemstone_py.Prelude.Int.{ℤ}
use gemstone_py.Oop.{
  oop_nil, oop_true, oop_false, oop_illegal, is_smallint, python_to_smallint, smallint_to_python,
}
use gemstone_py.Oop.SmallInt.{
  FitsSmallInt, python_to_smallint_bounds, smallint_to_python-python_to_smallint,
}
use gemstone_py.Client.{Gci, Client}
use gemstone_py.Client.Marshal.{
  Marshalled, nothing, bool, int, PyArgument, none_value, bool_value, int_value,
  python_value_to_oop, marshal,
}

-- The tag of a small integer is on none of the special objects.
tag_apart :
    (oop : ℕ)
    → is_smallint oop ≡ true
    → ((oop == oop_nil) ≡ false)
      × ((oop == oop_true) ≡ false)
      × ((oop == oop_false) ≡ false)
      × ((oop == oop_illegal) ≡ false)
unfolding is_smallint
tag_apart oop h = (ground arith, ground arith, ground arith, ground arith)

-- The arguments that are converted in Python alone, and what they come back as.
pub data IsDirect (F : Type 0) : PyArgument F → Marshalled F → Type 0 where
  direct_none : IsDirect F none_value nothing
  direct_bool : (b : Bool) → IsDirect F (bool_value b) (bool b)
  direct_int : (v : ℤ) → FitsSmallInt v → IsDirect F (int_value v) (int v)

module _ (g : Gci) (me : ℕ) where
  marshal_smallint :
      (oop : ℕ) (c : Client g)
      → is_smallint oop ≡ true
      → marshal g me oop c ≡ (ok (int (smallint_to_python oop)), c)
  unfolding marshal
  marshal_smallint oop c h = let (a, b, d, e) = tag_apart oop h in rw (a, b, d, e, h)

  marshal_nil : (c : Client g) → marshal g me oop_nil c ≡ (ok nothing, c)
  unfolding marshal nat_eq
  marshal_nil c = refl

  marshal_bool :
      (b : Bool) (c : Client g)
      → marshal g me (if b then oop_true else oop_false) c ≡ (ok (bool b), c)
  unfolding marshal nat_eq
  marshal_bool true c = refl
  marshal_bool false c = refl

  -- None, a Boolean and an integer in the range of small integers are converted to a pointer
  -- and back without a call of the library, and come back as they were.
  marshal-python_value_to_oop :
      (a : PyArgument g.Float) (v : Marshalled g.Float) (c : Client g)
      → IsDirect g.Float a v
      → (python_value_to_oop g me a >>= marshal g me) c ≡ (ok v, c)
  unfolding python_value_to_oop
  marshal-python_value_to_oop a v c direct_none = marshal_nil c
  marshal-python_value_to_oop a v c (direct_bool true) = marshal_bool true c
  marshal-python_value_to_oop a v c (direct_bool false) = marshal_bool false c
  marshal-python_value_to_oop a v c (direct_int n fits) =
      marshal_smallint (python_to_smallint n) c (python_to_smallint_bounds n).1
      ∙ rw ((smallint_to_python-python_to_smallint n).0 fits)
