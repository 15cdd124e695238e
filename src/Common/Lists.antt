-- ===== src/Common/Lists.antt =====
-- Lists over the native numbers and with Boolean tests, under the library's names where it has them.
use Prim.Native.Nat.{ℕ, suc, ◌+◌, ◌≤◌}
use mathlib.Core.Path.{◌≡◌, refl, ap, ◌∙◌}
use mathlib.Core.Logic.{inl, inr}
use mathlib.Core.Bool.{Bool, true, false, ◌||◌}
use mathlib.Core.List.{List, [], ◌∷◌, ◌++◌, Memᴰ}
use mathlib.Core.Option.{Option, none, some}
use native.Mathlib.Omega.{arith}
use glynac_ingestion_platfor.Common.Tests.{if◌then◌else◌, Bool-cases, Option-cases}

module _ {ℓ} {A : Type ℓ} where
  abbrev pub length : List A → ℕ
  length [] = 0
  length (x ∷ xs) = suc (length xs)

  -- Keeps the elements that pass the test.
  abbrev pub filter : (A → Bool) → List A → List A
  filter p [] = []
  filter p (x ∷ xs) = let rest = filter p xs in if p x then x ∷ rest else rest

  -- The first element that passes the test.
  abbrev pub find : (A → Bool) → List A → Option A
  find p [] = none
  find p (x ∷ xs) = let rest = find p xs in if p x then some x else rest

  abbrev pub any : (A → Bool) → List A → Bool
  any p [] = false
  any p (x ∷ xs) = p x || any p xs

  -- How many elements pass the test.
  abbrev pub count : (A → Bool) → List A → ℕ
  count p [] = 0
  count p (x ∷ xs) = if p x then suc (count p xs) else count p xs

  -- Changes the elements that pass the test.
  abbrev pub update_where : (A → Bool) → (A → A) → List A → List A
  update_where p f [] = []
  update_where p f (x ∷ xs) = (if p x then f x else x) ∷ update_where p f xs

  -- Drops the first element that passes the test.
  abbrev pub erase_first : (A → Bool) → List A → List A
  erase_first p [] = []
  erase_first p (x ∷ xs) = let rest = erase_first p xs in if p x then xs else x ∷ rest

  -- A predicate of every element.
  abbrev pub All {κ} : (A → Type κ) → List A → Type κ
  All P [] = Unit
  All P (x ∷ xs) = P x × All P xs

  pub length-append : (xs ys : List A) → length (xs ++ ys) ≡ length xs + length ys
  length-append [] ys = omega arith
  length-append (x ∷ xs) ys = omega (arith, length-append xs ys)

  pub any-append : (p : A → Bool) (xs ys : List A) → any p (xs ++ ys) ≡ (any p xs || any p ys)
  any-append p [] ys = refl
  any-append p (x ∷ xs) ys = ground (arith, any-append p xs ys)

  pub length-update_where :
      (p : A → Bool) (f : A → A) (xs : List A) → length (update_where p f xs) ≡ length xs
  length-update_where p f [] = refl
  length-update_where p f (x ∷ xs) = omega (arith, length-update_where p f xs)

  pub All-append {κ} : (P : A → Type κ) (xs ys : List A) → All P xs → All P ys → All P (xs ++ ys)
  All-append P [] ys hx hy = hy
  All-append P (x ∷ xs) ys hx hy = (hx.0, All-append P xs ys hx.1 hy)

-- Every element of a list is one of its elements.
module _ {ℓ} {A : Type ℓ} where
  pub All-map {κ μ} :
      {P : A → Type κ} {Q : A → Type μ}
      → ((x : A) → P x → Q x)
      → (xs : List A) → All P xs
      → All Q xs
  All-map f [] h = tt
  All-map f (x ∷ xs) (h, hs) = (f x h, All-map f xs hs)

  pub Memᴰ-All : (xs : List A) → All (λ x. Memᴰ x xs) xs
  Memᴰ-All [] = tt
  Memᴰ-All (x ∷ xs) = (Memᴰ.head refl, All-map (λ y m. Memᴰ.tail m) xs (Memᴰ-All xs))

-- Elements that a test or an end of a list finds.
module _ {ℓ} {A : Type ℓ} where
  pub any-Memᴰ : (p : A → Bool) (xs : List A) → any p xs ≡ true → (x : A) × Memᴰ x xs × (p x ≡ true)
  any-Memᴰ p [] h = cc
  any-Memᴰ p (x ∷ xs) h = elim (Bool-cases (p x)) [
    | inl here ↦ (x, Memᴰ.head refl, here)
    | inr away ↦
        let (y, there, found) = any-Memᴰ p xs (ground (arith, h, away)) in
        (y, Memᴰ.tail there, found)
  ]

  pub Memᴰ-last : (xs : List A) (x : A) → Memᴰ x (xs ++ x ∷ [])
  Memᴰ-last [] x = Memᴰ.head refl
  Memᴰ-last (y ∷ xs) x = Memᴰ.tail (Memᴰ-last xs x)

-- Reading rows after an update. `f` keeps the columns that the tests read.
module _ {ℓ} {A : Type ℓ} (p : A → Bool) (f : A → A) where
  abbrev pub after : Option A → Option A
  after none = none
  after (some x) = some (f x)

  -- The row that was updated.
  pub find-update_where :
      ((x : A) → p (f x) ≡ p x) → (xs : List A) → find p (update_where p f xs) ≡ after (find p xs)
  find-update_where keep [] = refl
  find-update_where keep (x ∷ xs) = ground (arith, keep x, find-update_where keep xs)

  -- Another row.
  pub find-update_where_ne :
      (q : A → Bool)
      → ((x : A) → p x ≡ true → (q (f x) ≡ false) × (q x ≡ false))
      → (xs : List A) → find q (update_where p f xs) ≡ find q xs
  find-update_where_ne q apart [] = refl
  find-update_where_ne q apart (x ∷ xs) = ground (arith, apart x, find-update_where_ne q apart xs)

module _ {ℓ} {A : Type ℓ} where
  pub find-append_new :
      (p : A → Bool) (xs : List A) (y : A)
      → find p xs ≡ none
      → p y ≡ true
      → find p (xs ++ y ∷ []) ≡ some y
  find-append_new p [] y h e = rw e
  find-append_new p (x ∷ xs) y h e = ground (arith, find-append_new p xs y)

  pub find-append_old :
      (p : A → Bool) (xs ys : List A) (x : A) → find p xs ≡ some x → find p (xs ++ ys) ≡ some x
  find-append_old p [] ys x h = cc
  find-append_old p (z ∷ xs) ys x h = ground (arith, find-append_old p xs ys x)

  pub find-append_away :
      (p : A → Bool) (xs : List A) (y : A) → p y ≡ false → find p (xs ++ y ∷ []) ≡ find p xs
  find-append_away p [] y e = rw e
  find-append_away p (x ∷ xs) y e = ground (arith, find-append_away p xs y)

  pub find_sound : (p : A → Bool) (xs : List A) (x : A) → find p xs ≡ some x → p x ≡ true
  find_sound p [] x h = cc
  find_sound p (z ∷ xs) x h = ground (arith, find_sound p xs x)

  -- An update of some rows, read by another test whose columns it keeps.
  pub find-update_where_if :
      (p : A → Bool) (f : A → A) (q : A → Bool)
      → ((x : A) → q (f x) ≡ q x)
      → (xs : List A)
      → find q (update_where p f xs) ≡ after q (λ x. if p x then f x else x) (find q xs)
  find-update_where_if p f q keep [] = refl
  find-update_where_if p f q keep (x ∷ xs) =
      ground (arith, keep x, find-update_where_if p f q keep xs)

-- Rows of a key `h`, chosen by a test and changed.
module _ {ℓ} {A : Type ℓ} (h : A → Bool) where
  abbrev pub Within : (A → Bool) → Type ℓ
  Within p = (x : A) → p x ≡ true → h x ≡ true

  pub count_none : (p : A → Bool) → Within p → (xs : List A) → count h xs ≡ 0 → count p xs ≡ 0
  count_none p sub [] e = refl
  count_none p sub (x ∷ xs) e = ground (arith, sub x, count_none p sub xs)

  pub count-update_where :
      (p : A → Bool) (f : A → A)
      → ((x : A) → h (f x) ≡ h x)
      → (xs : List A) → count h (update_where p f xs) ≡ count h xs
  count-update_where p f keep [] = refl
  count-update_where p f keep (x ∷ xs) = ground (arith, keep x, count-update_where p f keep xs)

  -- Where at most one row has the key and the first test chose it, the second test finds none.
  pub count_chosen_once :
      (p q : A → Bool) (f : A → A)
      → Within p
      → Within q
      → ((x : A) → h (f x) ≡ h x)
      → ((x : A) → p x ≡ true → q (f x) ≡ false)
      → (xs : List A) → count h xs ≤ 1
      → count p xs ≡ 1
      → count q (update_where p f xs) ≡ 0
  count_chosen_once p q f sub_p sub_q keep gone [] one chosen = refl
  count_chosen_once p q f sub_p sub_q keep gone (x ∷ xs) one chosen = ground (
    arith,
    sub_p x,
    sub_q x,
    keep x,
    gone x,
    count_none p sub_p xs,
    count_none q sub_q (update_where p f xs),
    count-update_where p f keep xs,
    count_chosen_once p q f sub_p sub_q keep gone xs,
  )

module _ {ℓ} {A : Type ℓ} where
  -- A change of rows on which the test is false before and after leaves the count.
  pub count-update_where_apart :
      (p q : A → Bool) (f : A → A)
      → ((x : A) → q x ≡ true → (p x ≡ false) × (p (f x) ≡ false))
      → (xs : List A) → count p (update_where q f xs) ≡ count p xs
  count-update_where_apart p q f apart [] = refl
  count-update_where_apart p q f apart (x ∷ xs) =
      ground (arith, apart x, count-update_where_apart p q f apart xs)

  -- A change of no row.
  pub update_where-none :
      (p : A → Bool) (f : A → A) (xs : List A) → count p xs ≡ 0 → update_where p f xs ≡ xs
  update_where-none p f [] e = refl
  update_where-none p f (x ∷ xs) e = ground (arith, update_where-none p f xs)

module _ {ℓ} {A : Type ℓ} (p : A → Bool) where
  -- Changes the elements that pass the test; when there is none, a new one is changed and put last.
  abbrev pub upsert : (A → A) → A → List A → List A
  upsert f new xs = if any p xs then update_where p f xs else xs ++ f new ∷ []

  find-any : (xs : List A) → find p xs ≡ none → any p xs ≡ false
  find-any [] e = refl
  find-any (x ∷ xs) e = ground (arith, find-any xs)

  find-any-some : (xs : List A) (y : A) → find p xs ≡ some y → any p xs ≡ true
  find-any-some [] y e = cc
  find-any-some (x ∷ xs) y e = ground (arith, find-any-some xs y)

  abbrev pub or_new : A → Option A → A
  or_new new none = new
  or_new new (some x) = x

  pub find-upsert :
      (f : A → A) (new : A) (xs : List A)
      → ((x : A) → p (f x) ≡ p x)
      → p new ≡ true
      → find p (upsert f new xs) ≡ some (f (or_new new (find p xs)))
  find-upsert f new xs keep fits = elim (Option-cases (find p xs)) [
    | inl gone ↦ rw (gone, find-any xs gone) (find-append_new p xs (f new) gone (keep new ∙ fits))
    | inr (x, found) ↦
        rw (found, find-any-some xs x found)
          (rw⁻¹ (ap (after p f) found) (find-update_where p f keep xs))
  ]

  pub find-upsert_ne :
      (q : A → Bool) (f : A → A) (new : A) (xs : List A)
      → ((x : A) → p x ≡ true → (q (f x) ≡ false) × (q x ≡ false))
      → q (f new) ≡ false
      → find q (upsert f new xs) ≡ find q xs
  find-upsert_ne q f new xs apart away = elim (Bool-cases (any p xs)) [
    | inl there ↦ rw there (find-update_where_ne p f q apart xs)
    | inr gone ↦ rw gone (find-append_away q xs (f new) away)
  ]
