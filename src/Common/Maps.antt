-- ===== src/Common/Maps.antt =====
-- Python dicts with text keys, as association lists in the order of insertion, and sets of texts.
use mathlib.Core.Path.{◌≡◌, refl}
use mathlib.Core.Logic.{inl, inr}
use mathlib.Core.Bool.{false}
use mathlib.Core.Option.{Option, none, some}
use mathlib.Core.List.{List, [], ◌∷◌, ◌++◌}
use native.Mathlib.Omega.{arith}
use Prim.Native.String.{String}
use text.Mathlib.Text.{◌==◌ as str_eq}
use text.Mathlib.TextEquality.{eq_iff}
use text.Mathlib.TextPositions.{eq_refl}
use glynac_ingestion_platfor.Common.Tests.{if◌then◌else◌, Bool-cases}
use glynac_ingestion_platfor.Common.Lists.{any}

module _ {ℓ} {A : Type ℓ} where
  -- `d.get(key)`
  abbrev pub lookup : String → List (String × A) → Option A
  lookup key [] = none
  lookup key ((k, v) ∷ d) = let rest = lookup key d in if str_eq k key then some v else rest

  -- `d[key] = value`
  abbrev pub insert : String → A → List (String × A) → List (String × A)
  insert key v [] = (key, v) ∷ []
  insert key v ((k, w) ∷ d) =
      let rest = insert key v d in if str_eq k key then (k, v) ∷ d else (k, w) ∷ rest

  pub lookup-insert :
      (key : String) (v : A) (d : List (String × A)) → lookup key (insert key v d) ≡ some v
  lookup-insert key v [] = rw (eq_refl key) refl
  lookup-insert key v ((k, w) ∷ d) = ground (arith, lookup-insert key v d)

  pub lookup-insert_ne :
      (key other : String) (v : A) (d : List (String × A))
      → str_eq key other ≡ false
      → lookup other (insert key v d) ≡ lookup other d
  lookup-insert_ne key other v [] ne = rw ne refl
  lookup-insert_ne key other v ((k, w) ∷ d) ne = elim (Bool-cases (str_eq k key)) [
    | inl same ↦
        let e : k ≡ key = (eq_iff k key).0 same in
        ground (arith, e, lookup-insert_ne key other v d ne)
    | inr apart ↦ ground (arith, lookup-insert_ne key other v d ne)
  ]

-- `s.add(name)`
abbrev pub add_name : String → List String → List String
add_name name names = if any (str_eq name) names then names else names ++ name ∷ []
