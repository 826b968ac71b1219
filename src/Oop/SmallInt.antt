-- ===== src/Oop/SmallInt.antt =====
-- The tagged small integers and their range.
use Prim.Native.Nat.{◌^◌}
use gemstone_py.Prelude.{ℕ, ◌-◌, ◌<◌, ◌≡◌, ◌↔◌, true, arith, nat_eq}
use gemstone_py.Prelude.Int.{ℤ, pos, negsuc, ◌≤ℤ◌}
use gemstone_py.Oop.{is_smallint, smallint_to_python, python_to_smallint}

-- The value fits into the 61 bits above the tag.
abbrev pub FitsSmallInt : ℤ → Type 0
FitsSmallInt v = (negsuc (2 ^ 60 - 1) ≤ℤ v) × (v ≤ℤ pos (2 ^ 60 - 1))

-- Every value is sent as a 64-bit word with the tag of a small integer.
pub python_to_smallint_bounds :
    (v : ℤ) → (python_to_smallint v < 2 ^ 64) × (is_smallint (python_to_smallint v) ≡ true)
unfolding python_to_smallint is_smallint
python_to_smallint_bounds (pos n) = ground arith
python_to_smallint_bounds (negsuc n) = ground arith

smallint_fits : (v : ℤ) → FitsSmallInt v → smallint_to_python (python_to_smallint v) ≡ v
unfolding smallint_to_python python_to_smallint
smallint_fits (pos n) h = ground arith
smallint_fits (negsuc n) h = ground arith

smallint_kept : (v : ℤ) → smallint_to_python (python_to_smallint v) ≡ v → FitsSmallInt v
unfolding smallint_to_python python_to_smallint
smallint_kept (pos n) h = ground arith
smallint_kept (negsuc n) h = ground arith

-- An integer comes back from its encoding as a small integer if and only if it is at least -(2 ^
-- 60) and below 2 ^ 60.
pub smallint_to_python-python_to_smallint :
    (v : ℤ) → FitsSmallInt v ↔ (smallint_to_python (python_to_smallint v) ≡ v)
smallint_to_python-python_to_smallint v = (smallint_fits v, smallint_kept v)

-- A word below 2 ^ 64 with the tag of a small integer stands for an integer in the range of small
-- integers, which is sent as that word.
python_to_smallint-smallint_to_python :
    (oop : ℕ)
    → oop < 2 ^ 64
    → is_smallint oop ≡ true
    → FitsSmallInt (smallint_to_python oop) × (python_to_smallint (smallint_to_python oop) ≡ oop)
unfolding smallint_to_python python_to_smallint is_smallint
python_to_smallint-smallint_to_python oop lt h = ground arith
