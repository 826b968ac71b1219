-- ===== src/Prelude/Texts/Signed.antt =====
-- `str` of an integer.
use gemstone_py.Prelude.{suc, ◌++◌}
use gemstone_py.Prelude.Int.{ℤ, pos, negsuc}
use gemstone_py.Prelude.Texts.{Text, codes, str}

unfoldable pub str_int : ℤ → Text
str_int (pos n) = str n
str_int (negsuc n) = codes "-" ++ str (suc n)
