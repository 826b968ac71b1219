-- ===== src/Prelude/Int.antt =====
-- Python's integers over the native numbers, and the shifts of the 64-bit words they are packed in.
use Prim.Native.Nat.{◌/◌, ◌%◌, ◌^◌}
use gemstone_py.Prelude.{ℕ, suc, ◌+◌, ◌-◌, ◌*◌, ◌≤◌, ltb, if◌then◌else◌}

-- `negsuc n` is -(n + 1).
pub data ℤ : Type 0 where
  pos : ℕ → ℤ
  negsuc : ℕ → ℤ

abbrev positive_part : ℤ → ℕ
positive_part (pos n) = n
positive_part (negsuc n) = 0

abbrev negative_part : ℤ → ℕ
negative_part (pos n) = 0
negative_part (negsuc n) = suc n

infix 50 ◌≤ℤ◌
abbrev pub ◌≤ℤ◌ : ℤ → ℤ → Type 0
a ≤ℤ b = positive_part a + negative_part b ≤ positive_part b + negative_part a

-- `ctypes.c_uint64(v).value`
abbrev pub c_uint64 : ℤ → ℕ
c_uint64 (pos n) = n % 2 ^ 64
c_uint64 (negsuc n) = 2 ^ 64 - 1 - n % 2 ^ 64

-- `ctypes.c_int64(w).value`
abbrev pub c_int64 : ℕ → ℤ
c_int64 w = if ltb (w % 2 ^ 64) (2 ^ 63) then pos (w % 2 ^ 64) else negsuc (2 ^ 64 - 1 - w % 2 ^ 64)

-- `v >> 3`, which rounds down.
abbrev pub shift_right_3 : ℤ → ℤ
shift_right_3 (pos n) = pos (n / 8)
shift_right_3 (negsuc n) = negsuc (n / 8)

-- `v << 3 | tag` for a tag below 8: the shifted value has no bit in its place.
abbrev pub shift_left_3_or : ℤ → ℕ → ℤ
shift_left_3_or (pos n) tag = pos (n * 8 + tag)
shift_left_3_or (negsuc n) tag = negsuc (n * 8 + 7 - tag)
