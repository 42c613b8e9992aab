-- ===== src/Resource/Stats/Counts.antt =====
-- The counters that the kernel prints are read back.
use mini_container.Prelude.{
  ℕ, suc, ◌+◌, ◌*◌, ◌%◌, ◌^◌, ◌<◌, ◌≡◌, refl, ◌∙◌, [], ◌∷◌, ◌++◌, arith, pos,
}
use mini_container.Text.{Text, text, text_eq, starts_with, decimal, scan_digits, strtoul}
use mini_container.Text.Decimal.{
  scan_digits-digits_before, digits_before-head, digits_before-append,
}
use mini_container.Resource.Stats.{cpu_stat_usage, plain_count}

-- A line feed ends the digits.
strtoul_digit :
    (d n : ℕ) (t rest : Text)
    → d < 10
    → scan_digits 0 ((48 + d) ∷ t) ≡ (n, rest)
    → n < 2 ^ 64
    → strtoul ((48 + d) ∷ t) ≡ (n, rest)
unfolding strtoul
strtoul_digit d n t rest h e b = ground arith

line_feed : (n : ℕ) (s : Text) → scan_digits n (10 ∷ s) ≡ (n, 10 ∷ s)
unfolding scan_digits
line_feed n s = refl

-- A printed `unsigned long` before a line feed is read back, and does not begin with a blank.
strtoul-decimal :
    (n : ℕ) (s : Text)
    → n < 2 ^ 64
    → (d : ℕ) × (t : Text) × (decimal (pos n) ++ (10 ∷ s) ≡ (48 + d) ∷ t)
      × (d < 10)
      × (strtoul ((48 + d) ∷ t) ≡ (n, 10 ∷ s))
unfolding decimal
strtoul-decimal n s b =
    let (d, t, e, h) = digits_before-head (suc n) n (10 ∷ s) (omega arith) in
    (
      d,
      t,
      digits_before-append (suc n) n [] (10 ∷ s) ∙ e,
      h,
      strtoul_digit d n t (10 ∷ s) h
          (rw e at (scan_digits-digits_before (suc n) n (10 ∷ s) (omega arith) ∙ line_feed n s)) b,
    )

plain_count_digit :
    (d n : ℕ) (t s : Text)
    → d < 10
    → strtoul ((48 + d) ∷ t) ≡ (n, 10 ∷ s)
    → plain_count ((48 + d) ∷ t) ≡ n
unfolding plain_count text_eq
plain_count_digit d n t s h e = rw e (ground arith)

-- A counter file that holds a number below 2^64 and a line feed is read as that number, whatever
-- follows.
pub plain_count-decimal :
    (n : ℕ) (s : Text) → n < 2 ^ 64 → plain_count (decimal (pos n) ++ (10 ∷ s)) ≡ n
plain_count-decimal n s b =
    let (d, t, e, h, r) = strtoul-decimal n s b in rw e (plain_count_digit d n t s h r)

cpu_stat_usage_digit :
    (d n : ℕ) (t s : Text)
    → d < 10
    → strtoul ((48 + d) ∷ t) ≡ (n, 10 ∷ s)
    → cpu_stat_usage (text "usage_usec " ++ ((48 + d) ∷ t)) ≡ n * 1000 % 2 ^ 64
unfolding cpu_stat_usage text_eq text starts_with
cpu_stat_usage_digit d n t s h e = ground arith

-- A `cpu.stat` file that begins with the line of `usage_usec` gives that number of microseconds in
-- nanoseconds, modulo 2^64, whatever lines follow.
pub cpu_stat_usage-decimal :
    (n : ℕ) (s : Text)
    → n < 2 ^ 64
    → cpu_stat_usage (text "usage_usec " ++ (decimal (pos n) ++ (10 ∷ s))) ≡ n * 1000 % 2 ^ 64
cpu_stat_usage-decimal n s b =
    let (d, t, e, h, r) = strtoul-decimal n s b in rw e (cpu_stat_usage_digit d n t s h r)
