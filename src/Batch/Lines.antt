-- ===== src/Batch/Lines.antt =====
-- What `splitlines`, `partition` and `split` make of text that was put together from clean parts.
use mathlib.Core.List.{append_assoc, append-nil}
use gemstone_py.Prelude.{ℕ, ◌≡◌, refl, ◌∙◌, true, false, List, [], ◌∷◌, ◌++◌, nat_eq, ◌==◌, All, ap}
use gemstone_py.Prelude.Texts.{Text, ends_line, splitlines, partition, split, lines_from}
use gemstone_py.Batch.{lf, pipe}
use gemstone_py.Batch.Stream.{write_lines}

-- The text has no end of a line.
abbrev pub IsOneLine : Text → Type 0
IsOneLine = All (λ c. ends_line c ≡ false)

-- The text has no `|`.
abbrev pub LacksPipe : Text → Type 0
LacksPipe = All (λ c. (c == pipe) ≡ false)

lines_from_read :
    (c : ℕ) (line s : Text)
    → ends_line c ≡ false
    → lines_from false line (c ∷ s) ≡ lines_from false (line ++ c ∷ []) s
unfolding lines_from
lines_from_read c line s h = rw h

lines_from_cut : (line s : Text) → lines_from false line (lf ∷ s) ≡ line ∷ lines_from false [] s
unfolding lines_from ends_line nat_eq
lines_from_cut line s = refl

lines_from-line :
    (s line rest : Text)
    → IsOneLine s
    → lines_from false line (s ++ lf ∷ rest) ≡ (line ++ s) ∷ lines_from false [] rest
lines_from-line [] line rest h = rw append-nil (lines_from_cut line rest)
lines_from-line (c ∷ s) line rest h =
    lines_from_read c line (s ++ lf ∷ rest) h.0
    ∙ lines_from-line s (line ++ c ∷ []) rest h.1
    ∙ ap (λ t. t ∷ lines_from false [] rest) (append_assoc line (c ∷ []) s)

lines_from_nil : lines_from false [] [] ≡ []
unfolding lines_from
lines_from_nil = refl

lines_from-write_lines :
    (lines : List Text) → All IsOneLine lines → lines_from false [] (write_lines lines) ≡ lines
unfolding write_lines
lines_from-write_lines [] h = lines_from_nil
lines_from-write_lines (s ∷ lines) h =
    lines_from-line s [] (write_lines lines) h.0
    ∙ ap (λ t. s ∷ t) (lines_from-write_lines lines h.1)

pub splitlines-write_lines :
    (lines : List Text) → All IsOneLine lines → splitlines (write_lines lines) ≡ lines
unfolding splitlines
splitlines-write_lines = lines_from-write_lines

pub partition-column :
    (s rest : Text) → LacksPipe s → partition pipe (s ++ pipe ∷ rest) ≡ (s, true, rest)
unfolding partition nat_eq
partition-column [] rest h = refl
partition-column (c ∷ s) rest h = rw (h.0, partition-column s rest h.1)

pub split-column :
    (s rest : Text)
    → LacksPipe s
    → split pipe (s ++ pipe ∷ rest) ≡ (s, (split pipe rest).0 ∷ (split pipe rest).1)
unfolding split nat_eq
split-column [] rest h = refl
split-column (c ∷ s) rest h = rw (h.0, split-column s rest h.1)

pub split_last : (s : Text) → LacksPipe s → split pipe s ≡ (s, [])
unfolding split
split_last [] h = refl
split_last (c ∷ s) h = rw (h.0, split_last s h.1)
