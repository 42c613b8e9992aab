-- ===== src/Web/Quota/Written.antt =====
-- The line of `cpu.max`: the one that the program writes for a quota is read back, and the one that
-- stands for none makes `std::stoul` throw.
use mini_container.Prelude.{
  ℕ, suc, ◌+◌, ◌^◌, ◌<◌, ◌≡◌, refl, false, [], ◌∷◌, ◌++◌, none, some, arith, All, pos,
  length-append, take_all,
}
use mini_container.Text.{Text, text, text_eq, decimal, snprintf, scan_digits}
use mini_container.Text.Decimal.{
  scan_digits-digits_before, digits_before-head, length-decimal-pos, IsDigit, decimal-All,
}
use mini_container.Kernel.{Kernel}
use mini_container.Config.{ResourceManager, cgroup_v2}
use mini_container.Resource.Paths.{cgroup_root, group_name}
use mini_container.Resource.Limits.{quota_line}
use mini_container.Web.Quota.{
  stoul, split_blank, quota_of_line, quota_of_file, limits_v2, limits_at, read_limits, first_line,
}

split_blank-behind :
    (digits s : Text) → All IsDigit digits → split_blank (digits ++ (32 ∷ s)) ≡ some (digits, s)
unfolding split_blank
split_blank-behind [] s h = refl
split_blank-behind (c ∷ digits) s (d, h) = ground (arith, split_blank-behind digits s h)

stoul_digit :
    (d n : ℕ) (t : Text)
    → d < 10
    → scan_digits 0 ((48 + d) ∷ t) ≡ (n, [])
    → n < 2 ^ 64
    → stoul ((48 + d) ∷ t) ≡ some n
unfolding stoul
stoul_digit d n t h e b = ground arith

-- `std::stoul` reads back a printed number.
stoul-decimal : (n : ℕ) → n < 2 ^ 64 → stoul (decimal (pos n)) ≡ some n
unfolding decimal scan_digits
stoul-decimal n b =
    let (d, t, e, h) = digits_before-head (suc n) n [] (omega arith) in
    rw e (stoul_digit d n t h (rw e at (scan_digits-digits_before (suc n) n [] (omega arith))) b)

no_max : (a s : Text) → All IsDigit a → text_eq (a ++ (32 ∷ s)) (text "max") ≡ false
unfolding text_eq text
no_max [] s h = refl
no_max (c ∷ a) s (d, h) = ground (arith, d)

quota_of_line-numbers :
    (a b : Text) (q p : ℕ)
    → All IsDigit a
    → stoul a ≡ some q
    → stoul b ≡ some p
    → quota_of_line (a ++ (32 ∷ b)) ≡ some (q, p)
unfolding quota_of_line
quota_of_line-numbers a b q p digits sa sb =
    rw (no_max a b digits, split_blank-behind a b digits, sa, sb) refl

-- The buffer of 64 bytes holds the line for two numbers.
quota_line-whole :
    (q p : ℕ)
    → q < 2 ^ 31
    → p < 2 ^ 31
    → quota_line (pos q) (pos p) ≡ decimal (pos q) ++ (32 ∷ decimal (pos p))
unfolding snprintf text
quota_line-whole q p hq hp = take_all 63 (decimal (pos q) ++ (32 ∷ decimal (pos p))) (
    omega (
      arith,
      length-append (decimal (pos q)) (32 ∷ decimal (pos p)),
      length-decimal-pos q hq,
      length-decimal-pos p hp,
    ))

-- The line that `set_cpu_limits` writes for a quota and a period that an `int` holds is read by the
-- web server as these two.
pub quota_of_line-quota_line :
    (q p : ℕ) → q < 2 ^ 31 → p < 2 ^ 31 → quota_of_line (quota_line (pos q) (pos p)) ≡ some (q, p)
quota_of_line-quota_line q p hq hp = rw (quota_line-whole q p hq hp) (
    quota_of_line-numbers (decimal (pos q)) (decimal (pos p)) q p (decimal-All q)
      (stoul-decimal q (omega arith)) (stoul-decimal p (omega arith)))

no_line : (period : Text) → quota_of_line (first_line (text "max " ++ period)) ≡ none
unfolding quota_of_line split_blank stoul first_line text text_eq
no_line period = refl

module _ (K : Kernel) (rm : ResourceManager) (id : Text) where
  -- Under cgroup v2, where `cpu.max` holds "max" and a period, as it does for a group without a
  -- quota, the reading of the limits throws.
  pub read_limits-throws :
      (period : Text) (w : K.World)
      → rm.version ≡ cgroup_v2
      → (K.read_text (snprintf 1024 (group_name cgroup_root rm id (text "/cpu.max"))) w).0
        ≡ some (text "max " ++ period)
      → (read_limits K rm id w).0 ≡ none
  unfolding read_limits limits_at limits_v2 quota_of_file quota_of_line first_line split_blank stoul
      text
  read_limits-throws period w two file = rw (two, limits_at, limits_v2, file, no_line period) refl
