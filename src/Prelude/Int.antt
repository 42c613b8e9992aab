-- ===== src/Prelude/Int.antt =====
-- The signed numbers of the source (`int`, `long`, `pid_t`, `time_t`). `negsuc n` is -(n + 1).
use Prim.Native.Nat.{ℕ, ◌-◌, ◌%◌, ◌^◌}
use mathlib.Core.Bool.{Bool, true, false}
use mathlib.Core.Path.{◌≡◌}
use mathlib.Core.Logic.{◌↔◌}
use native.Mathlib.Omega.{arith}
use mini_container.Prelude.Tests.{ltb, ◌==◌, if◌then◌else◌}

pub data ℤ : Type 0 where
  pos : ℕ → ℤ
  negsuc : ℕ → ℤ

abbrev pub minus_one : ℤ
minus_one = negsuc 0

abbrev pub eqℤ : ℤ → ℤ → Bool
eqℤ (pos a) (pos b) = a == b
eqℤ (negsuc a) (negsuc b) = a == b
eqℤ _ _ = false

-- 0 < z
abbrev pub is_positive : ℤ → Bool
is_positive (pos n) = ltb 0 n
is_positive (negsuc n) = false

abbrev pub is_negative : ℤ → Bool
is_negative (pos n) = false
is_negative (negsuc n) = true

-- a < b
abbrev pub ltℤ : ℤ → ℤ → Bool
ltℤ (pos a) (pos b) = ltb a b
ltℤ (pos a) (negsuc b) = false
ltℤ (negsuc a) (pos b) = true
ltℤ (negsuc a) (negsuc b) = ltb b a

-- A number as an array length or a count of rounds: a negative one counts as none.
abbrev pub to_ℕ : ℤ → ℕ
to_ℕ (pos n) = n
to_ℕ (negsuc n) = 0

-- The bits of a number at width 32, and the `int` with such bits.
abbrev bits32 : ℤ → ℕ
bits32 (pos n) = n % 2 ^ 32
bits32 (negsuc n) = 2 ^ 32 - 1 - n % 2 ^ 32

abbrev signed32 : ℕ → ℤ
signed32 b = if ltb b (2 ^ 31) then pos b else negsuc (2 ^ 32 - 1 - b)

-- `(int)x` for a `long` x: the low 32 bits, read as two's complement.
unfoldable pub int_of_long : ℤ → ℤ
int_of_long z = signed32 (bits32 z)

-- The cast keeps what fits in an `int`.
pub int_of_long-pos : (n : ℕ) → ltb n (2 ^ 31) ≡ true → int_of_long (pos n) ≡ pos n
unfolding int_of_long
int_of_long-pos n h = ground arith

pub eqℤ_iff : (a b : ℤ) → (eqℤ a b ≡ true) ↔ (a ≡ b)
eqℤ_iff a b = ground arith
