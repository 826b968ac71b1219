-- ===== src/Prelude/Texts/Equality.antt =====
-- Python's `==` on strings of code points.
use native.Mathlib.Decide.{ℕ_discrete}
use gemstone_py.Prelude.{ℕ, ◌≡◌, refl, [], ◌∷◌, Eq}
use gemstone_py.Prelude.Texts.{Text}

pub head_eq : {c d : ℕ} {s t : Text} → c ∷ s ≡ d ∷ t → c ≡ d
head_eq h = cc

pub tail_eq : {c d : ℕ} {s t : Text} → c ∷ s ≡ d ∷ t → s ≡ t
tail_eq h = cc

pub cons_eq : {c d : ℕ} {s t : Text} → c ≡ d → s ≡ t → c ∷ s ≡ d ∷ t
cons_eq p q = cc

pub nil-ne-cons : {c : ℕ} {s : Text} → ◌≡◌ {A = Text} [] (c ∷ s) → ⊥
nil-ne-cons h = cc

pub cons-ne-nil : {c : ℕ} {s : Text} → ◌≡◌ {A = Text} (c ∷ s) [] → ⊥
cons-ne-nil h = cc

unfoldable text_discrete : Discrete Text
unfolding ℕ_discrete
text_discrete [] [] = yes refl
text_discrete [] (d ∷ t) = no nil-ne-cons
text_discrete (c ∷ s) [] = no cons-ne-nil
text_discrete (c ∷ s) (d ∷ t) = elim (ℕ_discrete c d) [
  | no differ ↦ no (λ h. differ (head_eq h))
  | yes p ↦ elim (text_discrete s t) [
    | yes q ↦ yes (cons_eq p q)
    | no differ ↦ no (λ h. differ (tail_eq h))
  ]
]

instance unfoldable pub text_eq : Eq Text
unfolding text_discrete
text_eq = record { dec = text_discrete }
