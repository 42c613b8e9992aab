-- ===== src/Prelude/Actions.antt =====
-- Code that changes a state and returns 0 and a result, or -1. What was done before a -1 stays
-- done, so the state comes back with the failure too.
use mathlib.Core.Bool.{Bool, true, false}
use mathlib.Core.Option.{Option, none, some}
use mini_container.Prelude.Tests.{is_some}

abbrev pub Exec {ℓ} : Type ℓ → Type ℓ → Type ℓ
Exec S A = S → Option A × S

module _ {ℓ} {S : Type ℓ} where
  abbrev pub pure : {A : Type ℓ} → A → Exec S A
  pure a s = (some a, s)

  -- `return -1`
  abbrev pub fail : {A : Type ℓ} → Exec S A
  fail s = (none, s)

  abbrev pub continue : {A B : Type ℓ} → Option A × S → (A → Exec S B) → Option B × S
  continue (none, s) f = (none, s)
  continue (some a, s) f = f a s

  infixl 10 ◌>>=◌ ◌>>◌
  abbrev pub ◌>>=◌ : {A B : Type ℓ} → Exec S A → (A → Exec S B) → Exec S B
  ◌>>=◌ m f s = continue (m s) f

  abbrev pub ◌>>◌ : {A B : Type ℓ} → Exec S A → Exec S B → Exec S B
  m >> n = m >>= λ _. n

  -- A call that cannot fail.
  abbrev pub lift : {A : Type ℓ} → (S → A × S) → Exec S A
  lift f s = let (a, s') = f s in (some a, s')

  abbrev pub gets : {A : Type ℓ} → (S → A) → Exec S A
  gets f s = (some (f s), s)

  abbrev pub if_ok : {A : Type ℓ} → Option A → Exec S A
  if_ok r s = (r, s)

-- A call whose code is tested by the caller, or not at all: true stands for 0.
abbrev pub succeeds : {S A : Type 0} → Exec S A → S → Bool × S
succeeds m s = let (r, s') = m s in (is_some r, s')

abbrev pub attempt : {S A : Type 0} → Exec S A → Exec S Bool
attempt m = lift (succeeds m)

-- `if (!b) return -1;`
abbrev pub guard : {S : Type 0} → Bool → Exec S (Unit {0})
guard true s = (some tt, s)
guard false s = (none, s)

-- `if (b) m;`
abbrev pub when : {S : Type 0} → Bool → Exec S (Unit {0}) → Exec S (Unit {0})
when true m s = m s
when false m s = (some tt, s)
