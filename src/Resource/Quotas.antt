-- ===== src/Resource/Quotas.antt =====
-- The quota that `set_cpu_limits` makes of the shares.
use mini_container.Prelude.{
  ℕ, ◌-◌, ◌*◌, ◌/◌, ◌^◌, ◌≤◌, ◌<◌, ◌≡◌, true, false, arith, ltb, if◌then◌else◌, pos, negsuc,
  is_positive, ltℤ, int_of_long, int_of_long-pos,
}
use Prim.Native.Nat.{max}
use mini_container.Config.{CpuLimits}
use mini_container.Resource.Limits.{div_int, quota_of_shares, period_of, quota_of}

below_int : (n : ℕ) → n < 2 ^ 31 → ltb n (2 ^ 31) ≡ true
below_int n h = ground arith

at_least_thousand :
    (q : ℕ) → (if ltℤ (pos q) (pos 1000) then pos 1000 else pos q) ≡ pos (max 1000 q)
at_least_thousand q = ground arith

quota_of_shares-pos :
    (n p : ℕ) → n * p < 2 ^ 31 → quota_of_shares (pos n) (pos p) ≡ pos (max 1000 (n * p / 1024))
unfolding quota_of_shares
quota_of_shares-pos n p h =
    rw (int_of_long-pos (n * p) (below_int (n * p) h)) (at_least_thousand (n * p / 1024))

-- With no quota of its own and a product of shares and period that an `int` holds, a container gets
-- the shares of the period in 1024ths, and 1000 microseconds at least. A period that is not
-- positive counts as 100000.
pub quota_of_lem :
    (l : CpuLimits) (n p : ℕ)
    → l.shares ≡ pos n
    → period_of l ≡ pos p
    → is_positive l.quota_us ≡ false
    → 0 < n
    → n * p < 2 ^ 31
    → quota_of l ≡ pos (max 1000 (n * p / 1024))
unfolding quota_of
quota_of_lem l n p shares period none_set some_shares fits =
    ground (arith, quota_of_shares-pos n p fits)

-- The cast of a product between 2^31 and 2^32 is negative.
int_of_long-wraps :
    (n : ℕ) → 2 ^ 31 ≤ n → n < 2 ^ 32 → int_of_long (pos n) ≡ negsuc (2 ^ 32 - 1 - n)
unfolding int_of_long
int_of_long-wraps n h k = ground arith

quota_of_negative :
    (k : ℕ)
    → (let q = div_int (negsuc k) 1024 in if ltℤ q (pos 1000) then pos 1000 else q) ≡ pos 1000
quota_of_negative k = ground arith

-- A product of shares and period from 2^31 up to 2^32, such as 22000 shares of the default period,
-- overflows the `int`; wrapped, it gives the smallest quota, 1000 microseconds.
pub quota_of_overflow :
    (l : CpuLimits) (n p : ℕ)
    → l.shares ≡ pos n
    → period_of l ≡ pos p
    → is_positive l.quota_us ≡ false
    → 2 ^ 31 ≤ n * p
    → n * p < 2 ^ 32
    → quota_of l ≡ pos 1000
unfolding quota_of quota_of_shares
quota_of_overflow l n p shares period none_set low high =
    ground (arith, int_of_long-wraps (n * p) low high, quota_of_negative (2 ^ 32 - 1 - n * p))
