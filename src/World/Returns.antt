-- ===== src/World/Returns.antt =====
-- What an action returns, by one rule for each way to build an action.
use mathlib.Core.Path.{subst}
use glynac_ingestion_platfor.Common.{◌≡◌, refl, ap}
use glynac_ingestion_platfor.Errors.{Result, ok, err}
use glynac_ingestion_platfor.World.{World, Action, pure, lift, ◌>>=◌, continue}

-- What a call returns, when it returns.
pub record Returns {A : Type 0} (P : A → Type 0) (m : Action A) : Type 0 where
  pub at : (w : World) (a : A) → (m w).0 ≡ ok a → P a

pub Returns-then :
    {A B : Type 0} (P : B → Type 0) (m : Action A) (f : A → Action B)
    → ((a : A) → Returns P (f a))
    → Returns P (m >>= f)
unfolding ◌>>=◌
Returns-then {A} {B} P m f hf = record { at = λ w b. go w b (m w) }
  where
    go : (w : World) (b : B) (c : Result A × World) → (continue c.0 f c.1).0 ≡ ok b → P b
    go w b (ok a, w') h = (hf a).at w' b h
    go w b (err e, w') h = cc

pub Returns-lift :
    {A B : Type 0} (P : B → Type 0) (r : Result A) (a : A) (f : A → Action B)
    → r ≡ ok a
    → Returns P (f a)
    → Returns P (lift r >>= f)
unfolding ◌>>=◌
Returns-lift P r a f e hf = record { at = λ w b. rw e (λ h. hf.at w b h) }

-- What a call that cannot fail otherwise has read is at hand in what follows.
pub Returns-read :
    {A B : Type 0} (P : B → Type 0) (r : Result A) (f : A → Action B)
    → ((a : A) → r ≡ ok a → Returns P (f a))
    → Returns P (lift r >>= f)
unfolding ◌>>=◌ lift
Returns-read P (ok a) f hf = record { at = λ w b h. (hf a refl).at w b h }
Returns-read P (err e) f hf = record { at = λ w b h. cc }

abbrev value_or : {A : Type 0} → A → Result A → A
value_or a (ok b) = b
value_or a (err e) = a

pub Returns-pure : {A : Type 0} (P : A → Type 0) (a : A) → P a → Returns P (pure a)
unfolding pure
Returns-pure P a h = record { at = λ w b e. subst P (ap (value_or a) e) h }
