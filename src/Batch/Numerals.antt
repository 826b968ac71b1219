-- ===== src/Batch/Numerals.antt =====
-- The decimal numerals of object pointers: read back, and clean inside a row.
use Prim.Native.Nat.{◌/◌, ◌%◌}
use mathlib.Core.List.{concat-ne-nil}
use gemstone_py.Prelude.{
  ℕ, zero, suc, ◌+◌, ◌-◌, ◌*◌, ◌≤◌, ◌<◌, ◌≡◌, ◌≢◌, refl, false, some, [], ◌∷◌, ◌++◌, arith, nat_eq,
  ◌==◌, ltb, inl, inr, subst, Bool-cases, All, All-append, All-map,
}
use gemstone_py.Prelude.Texts.{Text, ends_line, str, digits_of, int, int_from}
use gemstone_py.Batch.{pipe}
use gemstone_py.Batch.Lines.{IsOneLine, LacksPipe}

int_from-concat :
    (acc : ℕ) (s : Text) (d n : ℕ)
    → d < 10
    → int_from acc s ≡ some n
    → int_from acc (s ++ (b'0' + d) ∷ []) ≡ some (n * 10 + d)
unfolding int_from
int_from-concat acc [] d n lt h = ground arith
int_from-concat acc (c ∷ s) d n lt h = ground (arith, int_from-concat (acc * 10 + (c - b'0')) s d n)

int_from_nil : int_from 0 [] ≡ some 0
unfolding int_from
int_from_nil = refl

last_digit :
    (n : ℕ) (s : Text) (front : ℕ)
    → front * 10 + n % 10 ≡ n
    → int_from 0 s ≡ some front
    → int_from 0 (s ++ (b'0' + n % 10) ∷ []) ≡ some n
last_digit n s front e h =
    subst (λ k. int_from 0 (s ++ (b'0' + n % 10) ∷ []) ≡ some k) e
      (int_from-concat 0 s (n % 10) front (omega arith) h)

int_from-digits_of : (rounds n : ℕ) → n < rounds → int_from 0 (digits_of rounds n) ≡ some n
unfolding digits_of
int_from-digits_of zero n h = absurd (omega arith)
int_from-digits_of (suc rounds) n h = elim (Bool-cases (ltb n 10)) [
  | inl e ↦ rw e (last_digit n [] 0 (ground arith) int_from_nil)
  | inr e ↦ rw e (
      last_digit n (digits_of rounds (n / 10)) (n / 10) (omega arith)
        (int_from-digits_of rounds (n / 10) (ground arith)))
]

digits_of-ne-nil : (rounds n : ℕ) → digits_of (suc rounds) n ≢ []
unfolding digits_of
digits_of-ne-nil rounds n = concat-ne-nil _ _

int-ne-nil : (s : Text) → s ≢ [] → int s ≡ int_from 0 s
unfolding int
int-ne-nil [] h = absurd (h refl)
int-ne-nil (c ∷ s) h = refl

pub int-str : (n : ℕ) → int (str n) ≡ some n
unfolding str
int-str n =
    rw (int-ne-nil (digits_of (suc n) n) (digits_of-ne-nil n n))
      (int_from-digits_of (suc n) n (omega arith))

pub str-ne-nil : (n : ℕ) → str n ≢ []
unfolding str
str-ne-nil n = digits_of-ne-nil n n

abbrev IsDigit : ℕ → Type 0
IsDigit c = (b'0' ≤ c) × (c ≤ b'9')

digits_of-All : (rounds n : ℕ) → All IsDigit (digits_of rounds n)
unfolding digits_of
digits_of-All zero n = tt
digits_of-All (suc rounds) n = elim (Bool-cases (ltb n 10)) [
  | inl e ↦ rw e ((omega arith, omega arith), tt)
  | inr e ↦ rw e (
      All-append _ (digits_of rounds (n / 10)) _ (digits_of-All rounds (n / 10))
        ((omega arith, omega arith), tt))
]

pub str-IsOneLine : (n : ℕ) → IsOneLine (str n)
unfolding str ends_line
str-IsOneLine n =
    All-map IsDigit (λ c. ends_line c ≡ false) (digits_of (suc n) n) (λ c h. ground arith)
      (digits_of-All (suc n) n)

pub str-LacksPipe : (n : ℕ) → LacksPipe (str n)
unfolding str
str-LacksPipe n =
    All-map IsDigit (λ c. (c == pipe) ≡ false) (digits_of (suc n) n) (λ c h. ground arith)
      (digits_of-All (suc n) n)
