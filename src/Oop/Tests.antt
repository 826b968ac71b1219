-- ===== src/Oop/Tests.antt =====
-- Words at the ends of the range of small integers.
use Prim.Native.Nat.{◌^◌}
use gemstone_py.Prelude.{◌-◌, ◌≡◌, ◌<◌, ◌↔◌, refl, true, some, none, nat_eq, arith}
use gemstone_py.Prelude.Int.{pos, negsuc}
use gemstone_py.Oop.{is_smallint, char_to_python, smallint_to_python, python_to_smallint}
use gemstone_py.Oop.SmallInt.{
  FitsSmallInt, python_to_smallint_bounds, smallint_to_python-python_to_smallint,
}
use gemstone_py.Oop.Arguments.{SendArgument, send_argument, send_argument_received}

minus_one : python_to_smallint (negsuc 0) ≡ 0xffff_ffff_ffff_fffa
unfolding python_to_smallint
minus_one = refl

-- One past the range: the value changes its sign.
wraps_round : smallint_to_python (python_to_smallint (pos (2 ^ 60))) ≡ negsuc (2 ^ 60 - 1)
unfolding smallint_to_python python_to_smallint
wraps_round = refl

capital_a : char_to_python 0x411C ≡ some 0x41
unfolding char_to_python
capital_a = refl

-- `chr` raises for a code past the last one, which the tag leaves room for.
no_such_character : char_to_python 0x1100001C ≡ none
unfolding char_to_python
no_such_character = refl

python_to_smallint_bounds_example :
    (python_to_smallint (negsuc 4) < 2 ^ 64) × (is_smallint (python_to_smallint (negsuc 4)) ≡ true)
python_to_smallint_bounds_example = python_to_smallint_bounds (negsuc 4)

smallint_to_python-python_to_smallint_example :
    FitsSmallInt (negsuc 4) ↔ (smallint_to_python (python_to_smallint (negsuc 4)) ≡ negsuc 4)
smallint_to_python-python_to_smallint_example = smallint_to_python-python_to_smallint (negsuc 4)

-- `ref.send("at:", 10)` asks for the element at 1.
send_argument_received_example :
    smallint_to_python (send_argument (SendArgument.int (pos 10))) ≡ pos 1
unfolding nat_eq
send_argument_received_example = send_argument_received (pos 10) (omega arith, omega arith)
