-- ===== src/SyncState/Order.antt =====
-- The order of texts by which the database compares marks is a strict total order.
use Prim.Native.Nat.{Ordering}
use Prim.Native.Nat.{compare as compare_ℕ}
use Prim.Native.Char.{code}
use Prim.Native.String.compare
use Prim.Native.String.{compare, [], ◌∷◌, then}
use text.Mathlib.TextEquality.{path_by_compare}
use text.Mathlib.TextPositions.{compare_refl}
use glynac_ingestion_platfor.Common.{ℕ, String, ◌≡◌, refl, ◌∙◌, sym, true, false, arith}
use glynac_ingestion_platfor.SyncState.{str_lt}

opposite : Ordering → Ordering
opposite Ordering.lt = Ordering.gt
opposite Ordering.eq = Ordering.eq
opposite Ordering.gt = Ordering.lt

opposite-then :
    (m n : ℕ) (p q : Ordering)
    → q ≡ opposite p
    → then (compare_ℕ n m) q ≡ opposite (then (compare_ℕ m n) p)
unfolding opposite
opposite-then m n p q h = ground arith

compare_swap : (s t : String) → compare t s ≡ opposite (compare s t)
unfolding opposite
compare_swap [] [] = rw (compare_refl []) refl
compare_swap [] (d ∷ t) = rw (compare.nil-cons d t, compare.cons-nil d t)
compare_swap (c ∷ s) [] = rw (compare.nil-cons c s, compare.cons-nil c s)
compare_swap (c ∷ s) (d ∷ t) =
    rw (compare.cons-cons c d s t, compare.cons-cons d c t s)
      (opposite-then (code c) (code d) (compare s t) (compare t s) (compare_swap s t))

then_trans :
    (l m n : ℕ) (p q r : Ordering)
    → (p ≡ Ordering.lt → q ≡ Ordering.lt → r ≡ Ordering.lt)
    → then (compare_ℕ l m) p ≡ Ordering.lt
    → then (compare_ℕ m n) q ≡ Ordering.lt
    → then (compare_ℕ l n) r ≡ Ordering.lt
then_trans l m n p q r h a b = ground arith

compare_trans :
    (s t u : String)
    → compare s t ≡ Ordering.lt
    → compare t u ≡ Ordering.lt
    → compare s u ≡ Ordering.lt
compare_trans [] [] u a b = absurd (grind (arith, compare_refl [], a))
compare_trans [] (d ∷ t) [] a b = absurd (grind (arith, compare.cons-nil d t, b))
compare_trans [] (d ∷ t) (e ∷ u) a b = rw (compare.nil-cons e u)
compare_trans (c ∷ s) [] u a b = absurd (grind (arith, compare.cons-nil c s, a))
compare_trans (c ∷ s) (d ∷ t) [] a b = absurd (grind (arith, compare.cons-nil d t, b))
compare_trans (c ∷ s) (d ∷ t) (e ∷ u) a b = rw (compare.cons-cons c e s u) (
    then_trans (code c) (code d) (code e) (compare s t) (compare t u) (compare s u)
      (compare_trans s t u) (sym (compare.cons-cons c d s t) ∙ a)
      (sym (compare.cons-cons d e t u) ∙ b))

pub str_lt_irrefl : (s : String) → str_lt s s ≡ false
unfolding str_lt
str_lt_irrefl s = rw (compare_refl s, str_lt)

pub str_lt_trans : (s t u : String) → str_lt s t ≡ true → str_lt t u ≡ true → str_lt s u ≡ true
unfolding str_lt
str_lt_trans s t u h k =
    let a : compare s t ≡ Ordering.lt = ground arith in
    let b : compare t u ≡ Ordering.lt = ground arith in rw (compare_trans s t u a b, str_lt)

-- Of two texts neither of which is before the other, each is the other.
pub str_lt_total : (s t : String) → str_lt s t ≡ false → str_lt t s ≡ false → s ≡ t
unfolding str_lt opposite
str_lt_total s t h k = path_by_compare s t (ground (arith, compare_swap s t))
