-- ===== src/Prelude/Texts.antt =====
-- Python strings as lists of code points, and the methods of `str` that the package calls.
pub mod Signed
pub mod Equality
pub mod Splits
use Prim.Native.Char.{code}
use Prim.Native.String.{String}
use Prim.Native.Nat.{◌/◌, ◌%◌}
use gemstone_py.Prelude.{
  ℕ, zero, suc, ◌+◌, ◌-◌, ◌*◌, Bool, true, false, ◌&&◌, ◌||◌, Option, none, some, List, [], ◌∷◌,
  ◌++◌, nat_eq, ◌==◌, ltb, leb, if◌then◌else◌,
}

abbrev pub Text : Type 0
Text = List ℕ

-- The code points of a literal.
abbrev pub codes : String → Text
codes String.[] = []
codes (String.◌∷◌ c s) = code c ∷ codes s

-- `not s`
abbrev pub is_empty : Text → Bool
is_empty [] = true
is_empty (c ∷ s) = false

-- The characters at which `str.splitlines` ends a line.
unfoldable pub ends_line : ℕ → Bool
ends_line c =
    leb 10 c && leb c 13 || leb 28 c && leb c 30 || c == 0x85 || c == 0x2028 || c == 0x2029

-- The loop of `splitlines`: whether the last character was a `\r`, whose `\n` belongs to it, and
-- the line read so far.
unfoldable pub lines_from : Bool → Text → Text → List Text
lines_from after_cr line [] = if is_empty line then [] else line ∷ []
lines_from after_cr line (c ∷ s) =
    let skip = lines_from false [] s in
    let cut = line ∷ lines_from (c == 13) [] s in
    let read = lines_from false (line ++ c ∷ []) s in
    if after_cr && c == 10 then skip else if ends_line c then cut else read

-- `s.splitlines()`
unfoldable pub splitlines : Text → List Text
unfolding lines_from ends_line
splitlines s = lines_from false [] s

-- `s.partition(sep)` for a separator of one character: what is before it, whether it was there, and
-- what is behind it.
unfoldable pub partition : ℕ → Text → Text × Bool × Text
partition sep [] = ([], false, [])
partition sep (c ∷ s) =
    let (before, found, behind) = partition sep s in
    if c == sep then ([], true, s) else (c ∷ before, found, behind)

-- The first field and the others, of `s.split(sep)`.
unfoldable pub split : ℕ → Text → Text × List Text
split sep [] = ([], [])
split sep (c ∷ s) =
    let (field, fields) = split sep s in
    if c == sep then ([], field ∷ fields) else (c ∷ field, fields)

-- `sep.join(parts)` for a separator of one character.
unfoldable pub join : ℕ → List Text → Text
join sep [] = []
join sep (s ∷ []) = s
join sep (s ∷ t ∷ rest) = s ++ sep ∷ join sep (t ∷ rest)

-- The decimal numeral of a number, given as many rounds as it has digits.
unfoldable pub digits_of : ℕ → ℕ → Text
digits_of zero n = []
digits_of (suc rounds) n =
    let more = digits_of rounds (n / 10) in (if ltb n 10 then [] else more) ++ (b'0' + n % 10) ∷ []

-- `str(n)`; Smalltalk's `asString` of a number writes the same.
unfoldable pub str : ℕ → Text
unfolding digits_of
str n = digits_of (suc n) n

unfoldable pub int_from : ℕ → Text → Option ℕ
int_from acc [] = some acc
int_from acc (c ∷ s) =
    let rest = int_from (acc * 10 + (c - b'0')) s in if leb b'0' c && leb c b'9' then rest else none

-- `int(s)` of a decimal numeral; `none` is its `ValueError`. Python's also takes a sign, spaces and
-- underscores, none of which the server writes.
unfoldable pub int : Text → Option ℕ
unfolding int_from
int [] = none
int (c ∷ s) = int_from 0 (c ∷ s)
