-- ===== src/Common/Text.antt =====
-- What the program uses of Python's `str`: `strip`, decimal printing, prefixes of characters.
use Prim.Native.Nat.{ℕ, zero, suc, ◌-◌, ◌/◌, ◌%◌}
use Prim.Native.Char.{Char, code}
use Prim.Native.String.append
use mathlib.Core.Path.{◌≡◌, sym, ap, ◌∙◌}
use Prim.Native.String.{String, [], ◌∷◌, ◌++◌}
use mathlib.Core.Logic.{inl, inr}
use text.Mathlib.TextEquality.{eq_iff}
use mathlib.Core.Bool.{Bool, false, ◌||◌, ◌&&◌}
use mathlib.Core.List.{List, ◌++◌ as list_append}
use text.Mathlib.Text.{◌==◌ as str_eq}
use glynac_ingestion_platfor.Common.Tests.{Bool-cases, leb, ltb, ◌==◌, if◌then◌else◌}

-- The ASCII characters that `str.strip` and `str.isspace` take for white space.
is_space : ℕ → Bool
is_space c = c == 32 || (leb 9 c && leb c 13) || (leb 28 c && leb c 31)

lstrip : String → String
unfolding is_space
lstrip [] = []
lstrip (c ∷ s) = let rest = lstrip s in if is_space (code c) then rest else c ∷ s

rstrip : String → String
unfolding is_space
rstrip [] = []
rstrip (c ∷ s) = elim (rstrip s) [
  | [] ↦ if is_space (code c) then [] else c ∷ []
  | d ∷ r ↦ c ∷ d ∷ r
]

-- `s.strip()`
unfoldable pub strip : String → String
unfolding lstrip rstrip
strip s = rstrip (lstrip s)

unfoldable pub digit : ℕ → String
digit zero = "0"
digit (suc zero) = "1"
digit (suc (suc zero)) = "2"
digit (suc (suc (suc zero))) = "3"
digit (suc (suc (suc (suc zero)))) = "4"
digit (suc (suc (suc (suc (suc zero))))) = "5"
digit (suc (suc (suc (suc (suc (suc zero)))))) = "6"
digit (suc (suc (suc (suc (suc (suc (suc zero))))))) = "7"
digit (suc (suc (suc (suc (suc (suc (suc (suc zero)))))))) = "8"
digit _ = "9"

-- The digits of a number below ten to the fuel.
unfoldable pub show_digits : ℕ → ℕ → String
unfolding digit
show_digits zero n = ""
show_digits (suc f) n =
    let rest = show_digits f (n / 10) in if ltb n 10 then digit n else rest ++ digit (n % 10)

-- `str(n)`: a number has at most as many digits as itself plus one.
unfoldable pub show : ℕ → String
unfolding show_digits
show n = show_digits (suc n) n

-- The code points of a text.
abbrev pub codes : String → List ℕ
codes [] = List.[]
codes (c ∷ s) = List.◌∷◌ (code c) (codes s)

nth_char : ℕ → String → String
nth_char n [] = []
nth_char zero (c ∷ s) = c ∷ []
nth_char (suc n) (c ∷ s) = nth_char n s

lower_char : Char → String
unfolding nth_char
lower_char c =
    if leb 65 (code c) && leb (code c) 90
    then nth_char (code c - 65) "abcdefghijklmnopqrstuvwxyz"
    else c ∷ []

unfoldable pub upper_char : Char → String
unfolding nth_char
upper_char c =
    if leb 97 (code c) && leb (code c) 122
    then nth_char (code c - 97) "ABCDEFGHIJKLMNOPQRSTUVWXYZ"
    else c ∷ []

-- `s.lower()`, of ASCII text
unfoldable pub lower : String → String
unfolding lower_char
lower [] = []
lower (c ∷ s) = lower_char c ++ lower s

-- `s.replace(a, t)`, where `a` is one character
unfoldable pub replace : ℕ → String → String → String
replace a t [] = []
replace a t (c ∷ s) = let rest = replace a t s in if code c == a then t ++ rest else c ∷ rest

-- `s.endswith(t)`
unfoldable pub ends_with : String → String → Bool
ends_with [] t = str_eq t ""
ends_with (c ∷ s) t = let rest = ends_with s t in str_eq (c ∷ s) t || rest

-- `t.join(texts)`
unfoldable pub join : String → List String → String
join t List.[] = ""
join t (List.◌∷◌ s List.[]) = s
join t (List.◌∷◌ s (List.◌∷◌ s' ss)) = s ++ t ++ join t (List.◌∷◌ s' ss)

-- `s[:n]`
unfoldable pub first_chars : ℕ → String → String
first_chars zero s = []
first_chars (suc n) [] = []
first_chars (suc n) (c ∷ s) = c ∷ first_chars n s

-- A text with a character is not the empty one.
pub cons_filled : (c : Char) (s : String) → str_eq (c ∷ s) "" ≡ false
cons_filled c s = elim (Bool-cases (str_eq (c ∷ s) "")) [
  | inl empty ↦ let e : c ∷ s ≡ "" = (eq_iff (c ∷ s) "").0 empty in cc e
  | inr filled ↦ filled
]

pub append_empty : (s : String) → s ++ "" ≡ s
append_empty [] = append.nil []
append_empty (c ∷ s) = append.cons c s [] ∙ ap (λ t. c ∷ t) (append_empty s)

pub append_assoc : (s t u : String) → (s ++ t) ++ u ≡ s ++ t ++ u
append_assoc [] t u = ap (λ v. v ++ u) (append.nil t) ∙ sym (append.nil (t ++ u))
append_assoc (c ∷ s) t u =
    ap (λ v. v ++ u) (append.cons c s t)
    ∙ append.cons c (s ++ t) u
    ∙ ap (λ v. c ∷ v) (append_assoc s t u)
    ∙ sym (append.cons c s (t ++ u))

join-cons : (s : String) (ss : List String) → join "" (List.◌∷◌ s ss) ≡ s ++ join "" ss
unfolding join
join-cons s List.[] = sym (append_empty s)
join-cons s (List.◌∷◌ t ss) = ap (λ v. s ++ v) (append.nil (join "" (List.◌∷◌ t ss)))

pub join-append : (xs ys : List String) → join "" (list_append xs ys) ≡ join "" xs ++ join "" ys
unfolding join
join-append List.[] ys = sym (append.nil (join "" ys))
join-append (List.◌∷◌ x xs) ys =
    join-cons x (list_append xs ys)
    ∙ ap (λ v. x ++ v) (join-append xs ys)
    ∙ sym (append_assoc x (join "" xs) (join "" ys))
    ∙ ap (λ v. v ++ join "" ys) (sym (join-cons x xs))
