-- ===== src/World/Frame.antt =====
-- What an action leaves of the state, by one rule for each way to build an action. The relation is
-- one that every state has to itself and that two changes in a row keep.
use glynac_ingestion_platfor.Common.{Bool, true, false, if◌then◌else◌}
use glynac_ingestion_platfor.Errors.{Exception, Result, ok, err}
use glynac_ingestion_platfor.World.{
  World, Action, pure, raise, gets, lift, catch, handled, continue, ◌>>=◌,
}

pub record Preorder (R : World → World → Type 0) : Type 0 where
  pub same : (w : World) → R w w
  pub then_ : (u v w : World) → R u v → R v w → R u w

-- However the action ends, the state that it leaves is related to the one that it found.
pub record Respects {ℓ} {A : Type ℓ} (R : World → World → Type 0) (m : Action A) : Type ℓ where
  pub at : (w : World) → R w (m w).1

module _ {R : World → World → Type 0} (p : Preorder R) where
  module _ {ℓ} {A : Type ℓ} where
    pub Respects-pure : (a : A) → Respects R (pure a)
    unfolding pure
    Respects-pure a = record { at = λ w. p.same w }

    pub Respects-raise : (e : Exception) → Respects {A = A} R (raise e)
    unfolding raise
    Respects-raise e = record { at = λ w. p.same w }

    pub Respects-gets : (f : World → A) → Respects R (gets f)
    unfolding gets
    Respects-gets f = record { at = λ w. p.same w }

    pub Respects-lift : (r : Result A) → Respects R (lift r)
    unfolding lift
    Respects-lift r = record { at = λ w. p.same w }

    pub Respects-if :
        (b : Bool) (m n : Action A) → Respects R m → Respects R n → Respects R (if b then m else n)
    Respects-if true m n hm hn = hm
    Respects-if false m n hm hn = hn

    pub Respects-catch :
        (m : Action A) (h : Exception → Action A)
        → Respects R m
        → ((e : Exception) → Respects R (h e))
        → Respects R (catch m h)
    unfolding catch
    Respects-catch m h hm hh = record { at = λ w. go w (m w) (hm.at w) }
      where
        go : (w : World) (c : Result A × World) → R w c.1 → R w (handled c.0 h c.1).1
        go w (ok a, w') r = r
        go w (err x, w') r = p.then_ w w' (h x w').1 r ((hh x).at w')

  pub Respects-bind {ℓ κ} :
      {A : Type ℓ} {B : Type κ} (m : Action A) (f : A → Action B)
      → Respects R m
      → ((a : A) → Respects R (f a))
      → Respects R (m >>= f)
  unfolding ◌>>=◌
  Respects-bind {A} {B} m f hm hf = record { at = λ w. go w (m w) (hm.at w) }
    where
      go : (w : World) (c : Result A × World) → R w c.1 → R w (continue c.0 f c.1).1
      go w (ok a, w') r = p.then_ w w' (f a w').1 r ((hf a).at w')
      go w (err x, w') r = r

pub ruleset respects_rules = (
  Respects-pure, Respects-raise, Respects-gets, Respects-lift, Respects-if, Respects-catch,
  Respects-bind,
)
