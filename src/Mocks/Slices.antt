-- ===== src/Mocks/Slices.antt =====
-- `xs[offset: offset + limit]`: the pages that the mock servers cut.
use mathlib.Core.List.{append-nil}
use glynac_ingestion_platfor.Common.{
  ℕ, zero, suc, ◌+◌, ◌-◌, ◌≤◌, ◌<◌, ◌≡◌, refl, sym, ap, ◌∙◌, min, List, [], ◌∷◌, ◌++◌, length,
  arith,
}

module _ {ℓ} {A : Type ℓ} where
  abbrev pub take : ℕ → List A → List A
  take zero xs = []
  take (suc n) [] = []
  take (suc n) (x ∷ xs) = x ∷ take n xs

  abbrev pub drop : ℕ → List A → List A
  drop zero xs = xs
  drop (suc n) [] = []
  drop (suc n) (x ∷ xs) = drop n xs

  abbrev pub slice : ℕ → ℕ → List A → List A
  slice offset limit xs = take limit (drop offset xs)

  drop-nil : (n : ℕ) → drop n [] ≡ []
  drop-nil zero = refl
  drop-nil (suc n) = refl

  -- A page, and what is left after it.
  pub take-drop : (n : ℕ) (xs : List A) → take n xs ++ drop (length (take n xs)) xs ≡ xs
  take-drop zero xs = refl
  take-drop (suc n) [] = refl
  take-drop (suc n) (x ∷ xs) = ap (λ ys. x ∷ ys) (take-drop n xs)

  pub drop_add : (o n : ℕ) (xs : List A) → drop (o + n) xs ≡ drop n (drop o xs)
  drop_add zero n xs = ap (λ k. drop k xs) (omega arith)
  drop_add (suc o) n [] = drop-nil (suc o + n) ∙ sym (drop-nil n)
  drop_add (suc o) n (x ∷ xs) =
      let e : suc o + n ≡ suc (o + n) = omega arith in ap (λ k. drop k (x ∷ xs)) e ∙ drop_add o n xs

  pub length-drop : (o : ℕ) (xs : List A) → length (drop o xs) ≡ length xs - o
  length-drop zero xs = omega arith
  length-drop (suc o) [] = omega arith
  length-drop (suc o) (x ∷ xs) = length-drop o xs ∙ omega arith

  length-take : (n : ℕ) (xs : List A) → length (take n xs) ≡ min n (length xs)
  length-take zero xs = omega arith
  length-take (suc n) [] = omega arith
  length-take (suc n) (x ∷ xs) = omega (arith, length-take n xs)

  drop_all : (o : ℕ) (xs : List A) → length xs ≤ o → drop o xs ≡ []
  drop_all zero [] h = refl
  drop_all zero (x ∷ xs) h = ground (arith, h)
  drop_all (suc o) [] h = refl
  drop_all (suc o) (x ∷ xs) h = drop_all o xs (omega (arith, h))

  -- The page from an offset on, and then the pages from where it ends, are all that is left.
  pub slice-next :
      (offset limit : ℕ) (xs : List A)
      → slice offset limit xs ++ drop (offset + length (slice offset limit xs)) xs ≡ drop offset xs
  slice-next offset limit xs =
      ap (λ ys. slice offset limit xs ++ ys) (drop_add offset (length (slice offset limit xs)) xs)
      ∙ take-drop limit (drop offset xs)

  -- The last page is all that is left.
  pub slice_last :
      (offset limit : ℕ) (xs : List A)
      → length xs ≤ offset + length (slice offset limit xs)
      → slice offset limit xs ≡ drop offset xs
  slice_last offset limit xs h =
      sym (append-nil (slice offset limit xs))
      ∙ ap (λ ys. slice offset limit xs ++ ys) (sym (drop_all _ xs h))
      ∙ slice-next offset limit xs

  -- A page before the end is not empty.
  pub slice_advances :
      (offset limit : ℕ) (xs : List A)
      → 1 ≤ limit
      → offset < length xs
      → 1 ≤ length (slice offset limit xs)
  slice_advances offset limit xs a b =
      omega (arith, length-take limit (drop offset xs), length-drop offset xs, a, b)
