-- ===== src/Sink/Quoting.antt =====
-- Texts inside the quotes of a string literal of ClickHouse.
use Prim.Native.Char.{Char, char, code}
use Prim.Native.String.append.{nil, cons as append_cons}
use text.Mathlib.TextEquality.{Char-path}
use Prim.Native.String.{String, [], ◌∷◌}
use glynac_ingestion_platfor.Common.{
  ◌≡◌, refl, sym, ap, ◌∙◌, ◌<>◌, inl, inr, true, false, Option, none, some, arith, ◌==◌,
  if◌then◌else◌, Bool-cases, ==_iff,
}
use glynac_ingestion_platfor.Common.Text.{replace}
use glynac_ingestion_platfor.Sink.{q}

abbrev pub cons : Char → Option String → Option String
cons c none = none
cons c (some s) = some (c ∷ s)

-- What ClickHouse reads between the quotes of a literal: a backslash takes the next character as it
-- is, and a quotation mark ends the literal, so that the text would be cut there (`none`).
unfoldable pub read_literal : String → Option String
read_literal [] = some []
read_literal (c ∷ []) = if code c == 92 then none else if code c == 39 then none else some (c ∷ [])
read_literal (c ∷ d ∷ s) =
    let escaped = read_literal s in
    let rest = read_literal (d ∷ s) in
    if code c == 92 then cons d escaped else if code c == 39 then none else cons c rest

abbrev backslash : Char
backslash = char 92 tt

abbrev quote : Char
quote = char 39 tt

pair-append : (c d : Char) (s : String) → (c ∷ d ∷ []) <> s ≡ c ∷ d ∷ s
pair-append c d s =
    (λ i. append_cons c (d ∷ []) s i)
    ∙ ap (λ t. c ∷ t) ((λ i. append_cons d [] s i) ∙ ap (λ t. d ∷ t) (λ i. nil s i))

-- What `q` writes for each kind of character.
q-backslash :
    (c : Char) (s : String) → (code c == 92) ≡ true → q (c ∷ s) ≡ backslash ∷ backslash ∷ q s
unfolding q replace
q-backslash c s h =
    rw h (ap (replace 39 "\\'") (pair-append backslash backslash (replace 92 "\\\\" s)))

q-quote :
    (c : Char) (s : String)
    → (code c == 92) ≡ false
    → (code c == 39) ≡ true
    → q (c ∷ s) ≡ backslash ∷ quote ∷ q s
unfolding q replace
q-quote c s h h' = rw (h, h') (pair-append backslash quote (q s))

q_other :
    (c : Char) (s : String) → (code c == 92) ≡ false → (code c == 39) ≡ false → q (c ∷ s) ≡ c ∷ q s
unfolding q replace
q_other c s h h' = ground arith

read_plain :
    (c : Char) (s : String)
    → (code c == 92) ≡ false
    → (code c == 39) ≡ false
    → read_literal (c ∷ s) ≡ cons c (read_literal s)
unfolding read_literal
read_plain c [] h h' = ground arith
read_plain c (d ∷ s) h h' = ground arith

-- Whatever the text is, quotation marks and backslashes included: what is read back from between the
-- quotes is the text itself, and nothing in it ends the literal.
pub q_round_trip : (s : String) → read_literal (q s) ≡ some s
unfolding read_literal q replace
q_round_trip [] = refl
q_round_trip (c ∷ s) = elim (Bool-cases (code c == 92)) [
  | inl b ↦
      let e = (==_iff (code c) 92).0 b in
      rw (q-backslash c s b, q_round_trip s)
        (ap (λ d. some (d ∷ s)) (Char-path backslash c (sym e)))
  | inr nb ↦ elim (Bool-cases (code c == 39)) [
    | inl b ↦
        let e = (==_iff (code c) 39).0 b in
        rw (q-quote c s nb b, q_round_trip s) (ap (λ d. some (d ∷ s)) (Char-path quote c (sym e)))
    | inr nq ↦ rw (q_other c s nb nq, read_plain c (q s) nb nq, q_round_trip s) refl
  ]
]
