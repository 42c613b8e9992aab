-- ===== src/Prelude/Outcomes.antt =====
-- What holds after code that returns a result or -1, each case with the state that it leaves.
use mathlib.Core.Path.{◌≡◌, refl, subst}
use mathlib.Core.Bool.{Bool, true, false}
use mathlib.Core.Option.{Option, none, some, some-injective}
use mini_container.Prelude.Actions.{Exec, continue, guard, when}

-- `fails` holds of the state that a -1 leaves, `returns` of a result and its state.
pub data Outcome {S A : Type 0} (fails : S → Type 0) (returns : A → S → Type 0)
    : Option A × S → Type 0 where
  on_fail : {s : S} → fails s → Outcome fails returns (none, s)
  on_return : {a : A} {s : S} → returns a s → Outcome fails returns (some a, s)

module _ {S A B : Type 0} {E : S → Type 0} {Q : A → S → Type 0} {R : B → S → Type 0} where
  pub Outcome-bind :
      (r : Option A × S) (f : A → Exec S B)
      → Outcome E Q r
      → ((a : A) (s : S) → Q a s → Outcome E R (f a s))
      → Outcome E R (continue r f)
  Outcome-bind _ f (on_fail e) h = on_fail e
  Outcome-bind _ f (on_return {a} {s} q) h = h a s q

module _ {S A : Type 0} {E E' : S → Type 0} {Q Q' : A → S → Type 0} where
  pub Outcome-weaken :
      (r : Option A × S)
      → ((s : S) → E s → E' s)
      → ((a : A) (s : S) → Q a s → Q' a s)
      → Outcome E Q r
      → Outcome E' Q' r
  Outcome-weaken _ f g (on_fail e) = on_fail (f _ e)
  Outcome-weaken _ f g (on_return q) = on_return (g _ _ q)

module _ {S : Type 0} (P : S → Type 0) where
  -- A test changes nothing.
  pub Outcome-guard : (b : Bool) (s : S) → P s → Outcome P (λ u t. P t × (b ≡ true)) (guard b s)
  Outcome-guard true s p = on_return (p, refl)
  Outcome-guard false s p = on_fail p

  pub Outcome-when :
      (b : Bool) (m : Exec S (Unit {0})) (s : S)
      → P s
      → Outcome P (λ u t. P t) (m s)
      → Outcome P (λ u t. P t) (when b m s)
  Outcome-when true m s p h = h
  Outcome-when false m s p h = on_return p

  pub Outcome-state : {A : Type 0} (r : Option A × S) → P r.1 → Outcome P (λ a t. P t) r
  Outcome-state (none, s) p = on_fail p
  Outcome-state (some a, s) p = on_return p

-- The state alone.
pub Outcome-after :
    {S A : Type 0} (P : S → Type 0) (r : Option A × S) → Outcome P (λ a t. P t) r → P r.1
Outcome-after P _ (on_fail e) = e
Outcome-after P _ (on_return q) = q

pub Outcome-returned :
    {S A : Type 0} {E : S → Type 0} (Q : A → Type 0) (r : Option A × S) {a : A}
    → Outcome E (λ b t. Q b) r
    → r.0 ≡ some a
    → Q a
Outcome-returned Q _ (on_fail e) h = cc
Outcome-returned Q _ (on_return q) h = subst Q (some-injective _ _ h) q
