-- ===== src/Prelude/Texts/Splits.antt =====
-- `str.split` on a separator of one character, against `str.join`.
use gemstone_py.Prelude.{◌≡◌, refl, false, List, [], ◌∷◌, ◌++◌, ℕ, nat_eq, ◌==◌, ==_refl, All}
use gemstone_py.Prelude.Texts.{Text, split, join}

-- The separator does not stand in a text.
abbrev pub Lacks : ℕ → Text → Type 0
Lacks sep = All (λ c. (c == sep) ≡ false)

pub split-whole : (sep : ℕ) (s : Text) → Lacks sep s → split sep s ≡ (s, [])
unfolding split
split-whole sep [] h = refl
split-whole sep (c ∷ s) h = rw (h.0, split-whole sep s h.1)

pub split-first :
    (sep : ℕ) (s rest : Text)
    → Lacks sep s
    → split sep (s ++ sep ∷ rest) ≡ (s, (split sep rest).0 ∷ (split sep rest).1)
unfolding split
split-first sep [] rest h = rw (==_refl sep)
split-first sep (c ∷ s) rest h = rw (h.0, split-first sep s rest h.1)

-- Parts without the separator come back from their join.
pub split-join :
    (sep : ℕ) (p : Text) (ps : List Text)
    → All (Lacks sep) (p ∷ ps)
    → split sep (join sep (p ∷ ps)) ≡ (p, ps)
unfolding join
split-join sep p [] h = split-whole sep p h.0
split-join sep p (q ∷ ps) h =
    rw (split-first sep p (join sep (q ∷ ps)) h.0, split-join sep q ps h.1)
