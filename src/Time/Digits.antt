-- ===== src/Time/Digits.antt =====
-- A number that is printed and read again: `int(str(n))`.
use Prim.Native.Char.{code}
use Prim.Native.String.append.{nil, cons as append_cons}
use mathlib.Core.Path.{subst}
use glynac_ingestion_platfor.Common.{
  ℕ, zero, suc, ◌+◌, ◌*◌, ◌/◌, ◌%◌, ◌-◌, ◌≤◌, ◌<◌, String, ◌<>◌, ◌≡◌, refl, ap, sym, ◌∙◌, true,
  false, ◌&&◌, List, [], ◌∷◌, ◌++◌, ltb, arith, inl, inr, Bool-cases, str_eq, eq_iff,
}
use glynac_ingestion_platfor.Common.Text.{show, show_digits, digit, codes}
use glynac_ingestion_platfor.Time.{digits_value, isdigit, all_digits}

codes-append : (s t : String) → codes (s <> t) ≡ codes s ++ codes t
codes-append String.[] t = ap codes (nil t)
codes-append (String.◌∷◌ c s) t =
    ap codes (append_cons c s t) ∙ ap (λ cs. code c ∷ cs) (codes-append s t)

digits_value-append :
    (acc : ℕ) (cs ds : List ℕ) → digits_value acc (cs ++ ds) ≡ digits_value (digits_value acc cs) ds
unfolding digits_value
digits_value-append acc [] ds = refl
digits_value-append acc (c ∷ cs) ds = digits_value-append (acc * 10 + (c - b'0')) cs ds

all_digits-append : (cs ds : List ℕ) → all_digits (cs ++ ds) ≡ (all_digits cs && all_digits ds)
unfolding all_digits
all_digits-append [] ds = refl
all_digits-append (c ∷ cs) ds = ground (arith, all_digits-append cs ds)

isdigit-append :
    (cs ds : List ℕ) → isdigit cs ≡ true → all_digits ds ≡ true → isdigit (cs ++ ds) ≡ true
unfolding isdigit
isdigit-append [] ds h k = cc
isdigit-append (c ∷ cs) ds h k = all_digits-append (c ∷ cs) ds ∙ rw (h, k) refl

-- One digit.
digits_value-digit :
    (acc k : ℕ)
    → k < 10
    → (digits_value acc (codes (digit k)) ≡ acc * 10 + k)
      × (all_digits (codes (digit k)) ≡ true)
      × (isdigit (codes (digit k)) ≡ true)
unfolding digits_value digit all_digits isdigit
digits_value-digit acc zero h = (omega arith, refl, refl)
digits_value-digit acc (suc zero) h = (omega arith, refl, refl)
digits_value-digit acc (suc (suc zero)) h = (omega arith, refl, refl)
digits_value-digit acc (suc (suc (suc zero))) h = (omega arith, refl, refl)
digits_value-digit acc (suc (suc (suc (suc zero)))) h = (omega arith, refl, refl)
digits_value-digit acc (suc (suc (suc (suc (suc zero))))) h = (omega arith, refl, refl)
digits_value-digit acc (suc (suc (suc (suc (suc (suc zero)))))) h = (omega arith, refl, refl)
digits_value-digit acc (suc (suc (suc (suc (suc (suc (suc zero))))))) h = (omega arith, refl, refl)
digits_value-digit acc (suc (suc (suc (suc (suc (suc (suc (suc zero)))))))) h =
    (omega arith, refl, refl)
digits_value-digit acc (suc (suc (suc (suc (suc (suc (suc (suc (suc zero))))))))) h =
    (omega arith, refl, refl)
digits_value-digit acc (suc (suc (suc (suc (suc (suc (suc (suc (suc (suc k)))))))))) h =
    ground (arith, h)

-- A text of digits, with its number.
abbrev pub Reads : ℕ → String → Type 0
Reads n s = (digits_value 0 (codes s) ≡ n) × (isdigit (codes s) ≡ true)

Reads-digit : (n : ℕ) → n < 10 → Reads n (digit n)
Reads-digit n h = let (v, all, d) = digits_value-digit 0 n h in (v ∙ omega arith, d)

Reads-append : (q k : ℕ) (s : String) → k < 10 → Reads q s → Reads (q * 10 + k) (s <> digit k)
Reads-append q k s h (value, digits) =
    let (v, all, d) = digits_value-digit q k h in
    (
      ap (digits_value 0) (codes-append s (digit k))
          ∙ digits_value-append 0 (codes s) (codes (digit k))
          ∙ ap (λ a. digits_value a (codes (digit k))) value
          ∙ v,
      ap isdigit (codes-append s (digit k)) ∙ isdigit-append (codes s) (codes (digit k)) digits all,
    )

show_digits-Reads : (f n : ℕ) → n ≤ f → Reads n (show_digits (suc f) n)
unfolding show_digits
show_digits-Reads zero n h =
    let small : ltb n 10 ≡ true = ground (arith, h) in rw small (Reads-digit n (omega (arith, h)))
show_digits-Reads (suc f) n h = elim (Bool-cases (ltb n 10)) [
  | inl small ↦ rw small (Reads-digit n (ground (arith, small)))
  | inr big ↦ rw big (
      subst (λ m. Reads m (show_digits (suc f) (n / 10) <> digit (n % 10))) (omega arith)
        (Reads-append (n / 10) (n % 10) _ (omega arith)
          (show_digits-Reads f (n / 10) (ground (arith, big, h)))))
]

pub all_digits-isdigit : (cs : List ℕ) → isdigit cs ≡ true → all_digits cs ≡ true
unfolding isdigit
all_digits-isdigit [] h = cc
all_digits-isdigit (c ∷ cs) h = h

-- What `int` reads of a number that was printed.
pub show-Reads : (n : ℕ) → Reads n (show n)
unfolding show
show-Reads n = show_digits-Reads n n (omega arith)

-- A printed number is no other text that is not made of digits.
pub show_apart : (n : ℕ) (s : String) → isdigit (codes s) ≡ false → str_eq (show n) s ≡ false
show_apart n s other = elim (Bool-cases (str_eq (show n) s)) [
  | inr apart ↦ apart
  | inl same ↦
      let e : show n ≡ s = (eq_iff (show n) s).0 same in
      let clash : true ≡ false = sym (show-Reads n).1 ∙ ap (λ t. isdigit (codes t)) e ∙ other in
      cc clash
]
