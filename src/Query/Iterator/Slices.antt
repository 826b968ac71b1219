-- ===== src/Query/Iterator/Slices.antt =====
-- The records from one index to another, and how the chunks of an array make it up.
use gemstone_py.Prelude.{
  ℕ, zero, suc, ◌+◌, ◌-◌, ◌≤◌, ◌<◌, ◌≡◌, refl, ap, List, [], ◌∷◌, ◌++◌, length, arith, All,
}

module _ {ℓ} {A : Type ℓ} where
  unfoldable pub take : ℕ → List A → List A
  take zero xs = []
  take (suc n) [] = []
  take (suc n) (x ∷ xs) = x ∷ take n xs

  unfoldable pub drop : ℕ → List A → List A
  drop zero xs = xs
  drop (suc n) [] = []
  drop (suc n) (x ∷ xs) = drop n xs

  -- The entries from `start` to `stop`, counted from 1, as the server's loop reads them.
  unfoldable pub slice : ℕ → ℕ → List A → List A
  unfolding take drop
  slice start stop xs = take (stop + 1 - start) (drop (start - 1) xs)

  take-append-drop : (n : ℕ) (xs : List A) → take n xs ++ drop n xs ≡ xs
  unfolding take drop
  take-append-drop zero xs = refl
  take-append-drop (suc n) [] = refl
  take-append-drop (suc n) (x ∷ xs) = ap (◌∷◌ x) (take-append-drop n xs)

  drop-drop : (m n k : ℕ) (xs : List A) → k ≡ n + m → drop m (drop n xs) ≡ drop k xs
  unfolding drop
  drop-drop m zero k xs h = let e : k ≡ m = omega arith in rw (← e)
  drop-drop m (suc n) zero xs h = absurd (omega arith)
  drop-drop zero (suc n) (suc k) [] h = refl
  drop-drop (suc m) (suc n) (suc k) [] h = refl
  drop-drop m (suc n) (suc k) (x ∷ xs) h = drop-drop m n k xs (omega arith)

  pub drop-eq-nil : (k : ℕ) (xs : List A) → drop k xs ≡ [] → length xs ≤ k
  unfolding drop
  drop-eq-nil zero [] h = omega arith
  drop-eq-nil zero (x ∷ xs) h = cc
  drop-eq-nil (suc k) [] h = omega arith
  drop-eq-nil (suc k) (x ∷ xs) h = omega (arith, drop-eq-nil k xs h)

  pub drop-eq-cons :
      (k : ℕ) (xs : List A) {y : A} {ys : List A} → drop k xs ≡ y ∷ ys → k < length xs
  unfolding drop
  drop-eq-cons zero [] h = cc
  drop-eq-cons zero (x ∷ xs) h = omega arith
  drop-eq-cons (suc k) [] h = cc
  drop-eq-cons (suc k) (x ∷ xs) h = omega (arith, drop-eq-cons k xs h)

  -- A chunk and what is behind it are what was left.
  pub slice-append-drop :
      (k stop : ℕ) (xs : List A) → k ≤ stop → slice (k + 1) stop xs ++ drop stop xs ≡ drop k xs
  unfolding slice
  slice-append-drop k stop xs h =
      let start : k + 1 - 1 ≡ k = omega arith in
      rw (start, ← drop-drop (stop + 1 - (k + 1)) k stop xs (omega arith))
        (take-append-drop (stop + 1 - (k + 1)) (drop k xs))

  take_pos : (n : ℕ) (xs : List A) → 0 < n → 0 < length xs → 0 < length (take n xs)
  unfolding take
  take_pos zero xs h k = absurd (omega arith)
  take_pos (suc n) [] h k = k
  take_pos (suc n) (x ∷ xs) h k = omega arith

  length-drop : (k : ℕ) (xs : List A) → k < length xs → 0 < length (drop k xs)
  unfolding drop
  length-drop zero xs h = h
  length-drop (suc k) [] h = absurd (omega arith)
  length-drop (suc k) (x ∷ xs) h = length-drop k xs (omega arith)

  pub slice_pos :
      (k stop : ℕ) (xs : List A) → k < stop → k < length xs → 0 < length (slice (k + 1) stop xs)
  unfolding slice
  slice_pos k stop xs h m =
      let start : k + 1 - 1 ≡ k = omega arith in
      rw start (take_pos (stop + 1 - (k + 1)) (drop k xs) (omega arith) (length-drop k xs m))

module _ {ℓ κ} {A : Type ℓ} (P : A → Type κ) where
  All-take : (n : ℕ) (xs : List A) → All P xs → All P (take n xs)
  unfolding take
  All-take zero xs h = tt
  All-take (suc n) [] h = tt
  All-take (suc n) (x ∷ xs) h = (h.0, All-take n xs h.1)

  All-drop : (n : ℕ) (xs : List A) → All P xs → All P (drop n xs)
  unfolding drop
  All-drop zero xs h = h
  All-drop (suc n) [] h = tt
  All-drop (suc n) (x ∷ xs) h = All-drop n xs h.1

  pub All-slice : (start stop : ℕ) (xs : List A) → All P xs → All P (slice start stop xs)
  unfolding slice
  All-slice start stop xs h =
      All-take (stop + 1 - start) (drop (start - 1) xs) (All-drop (start - 1) xs h)
