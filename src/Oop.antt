-- ===== src/Oop.antt =====
-- Object pointers as tagged 64-bit words (gemstone_py/_gci_ctypes.py).
pub mod SmallInt
pub mod Arguments
mod Tests
use Prim.Native.Nat.{◌/◌, ◌%◌, ◌^◌}
use gemstone_py.Prelude.{ℕ, ◌*◌, Bool, ◌&&◌, Option, none, some, nat_eq, ◌==◌, leb, if◌then◌else◌}
use gemstone_py.Prelude.Int.{ℤ, c_uint64, c_int64, shift_right_3, shift_left_3_or}

abbrev pub oop_illegal : ℕ
oop_illegal = 0x01

abbrev pub oop_nil : ℕ
oop_nil = 0x14

abbrev pub oop_false : ℕ
oop_false = 0x0C

abbrev pub oop_true : ℕ
oop_true = 0x10C

-- `oop & 0x7 == _TAG_SMALLINT`
unfoldable pub is_smallint : ℕ → Bool
is_smallint oop = oop % 8 == 0x2

-- `oop & 0x7 == _TAG_SMALLDOUBLE`
unfoldable is_smalldouble : ℕ → Bool
is_smalldouble oop = oop % 8 == 0x6

unfoldable pub smallint_to_python : ℕ → ℤ
smallint_to_python oop = shift_right_3 (c_int64 oop)

unfoldable pub python_to_smallint : ℤ → ℕ
python_to_smallint value = c_uint64 (shift_left_3_or value 0x2)

-- `oop & 0xFF == _CHAR_TAG_BYTE and oop & 0x6 == _TAG_SPECIAL`
unfoldable pub is_char : ℕ → Bool
is_char oop = oop % 2 ^ 8 == 0x1C && oop / 2 % 4 * 2 == 0x4

-- `chr((oop >> 8) & 0x1FFFFF)`; `none` is the `ValueError` of `chr` past the last code point.
unfoldable pub char_to_python : ℕ → Option ℕ
char_to_python oop =
    let code = oop / 2 ^ 8 % 2 ^ 21 in if leb code 0x10FFFF then some code else none
