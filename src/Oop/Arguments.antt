-- ===== src/Oop/Arguments.antt =====
-- The arguments of a message as words: `OopRef.send` (gemstone_py/client.py) and `_argument_to_oop`
-- (gemstone_py/oop.py).
use Prim.Native.Nat.{◌%◌, ◌^◌}
use gemstone_py.Prelude.{ℕ, ◌-◌, ◌≡◌, List, [], ◌∷◌, arith, nat_eq, ◌==◌, if◌then◌else◌}
use gemstone_py.Prelude.Int.{ℤ, pos, negsuc, c_uint64, shift_right_3}
use gemstone_py.Oop.{smallint_to_python, python_to_smallint}
use gemstone_py.Oop.SmallInt.{FitsSmallInt}

-- An argument: an `OopRef`, an `Oop` (an `int` with an `oop` attribute), or another `int`.
pub data SendArgument : Type 0 where
  oop_ref : ℕ → SendArgument
  oop : ℕ → SendArgument
  int : ℤ → SendArgument

-- `v & 0x7`, on a negative value too.
abbrev low_bits : ℤ → ℕ
low_bits (pos n) = n % 8
low_bits (negsuc n) = 7 - n % 8

-- The word that `perform_value` puts in its array for an argument of `OopRef.send`. The test there is
-- for an `int`, which an `Oop` is too.
unfoldable pub send_argument : SendArgument → ℕ
send_argument (oop_ref pointer) = pointer % 2 ^ 64
send_argument (oop value) =
    if low_bits (pos value) == 2 then c_uint64 (pos value) else python_to_smallint (pos value)
send_argument (int v) = if low_bits v == 2 then c_uint64 v else python_to_smallint v

unfoldable send_arguments : List SendArgument → List ℕ
unfolding send_argument
send_arguments [] = []
send_arguments (arg ∷ args) = send_argument arg ∷ send_arguments args

-- The word for an argument of `TypedOop.send` and of `ManagedOop.send`.
unfoldable argument_to_oop : SendArgument → ℕ
argument_to_oop (oop_ref pointer) = pointer % 2 ^ 64
argument_to_oop (oop value) = value % 2 ^ 64
argument_to_oop (int v) = c_uint64 v

-- An integer argument of OopRef.send in the range of small integers arrives as it is, but if its
-- low three bits are the tag of a small integer it arrives as an eighth of it, rounded down.
pub send_argument_received :
    (v : ℤ)
    → FitsSmallInt v
    → smallint_to_python (send_argument (int v)) ≡ (if low_bits v == 2 then shift_right_3 v else v)
unfolding smallint_to_python python_to_smallint send_argument
send_argument_received (pos n) h = ground arith
send_argument_received (negsuc n) h = ground arith
