-- ===== src/Text/Decimal.antt =====
-- Printed numbers are read back.
use native.Mathlib.Nat.{pow-suc}
use mini_container.Prelude.{
  ℕ, zero, suc, ◌+◌, ◌*◌, ◌/◌, ◌%◌, ◌^◌, ◌<◌, ◌≤◌, ◌≡◌, refl, ◌∙◌, ap, inl, inr, true, false, [],
  ◌∷◌, ◌++◌, arith, ltb, ltb→lt, Bool-cases, pos, length, All, some, int_of_long-pos,
}
use mini_container.Text.Bytes.{Text}
use mini_container.Text.Numbers.{
  scan_digits, digits_before, decimal, strtol, is_digit, scan_long, scan_int,
}

scan_digits-step :
    (acc d : ℕ) (s : Text) → d < 10 → scan_digits acc ((48 + d) ∷ s) ≡ scan_digits (acc * 10 + d) s
unfolding scan_digits
scan_digits-step acc d s h = ground arith

-- The digits of `n` before `acc` are read as `n`, and reading goes on in `acc`.
pub scan_digits-digits_before :
    (f n : ℕ) (acc : Text) → n < f → scan_digits 0 (digits_before f n acc) ≡ scan_digits n acc
unfolding digits_before
scan_digits-digits_before zero n acc h = absurd (omega arith)
scan_digits-digits_before (suc f) n acc h = elim (Bool-cases (ltb n 10)) [
  | inl e ↦
      rw e (scan_digits-step 0 n acc (ltb→lt n 10 e) ∙ ap (λ k. scan_digits k acc) (omega arith))
  | inr e ↦ rw e (
      scan_digits-digits_before f (n / 10) ((48 + n % 10) ∷ acc) (ground arith)
      ∙ scan_digits-step (n / 10) (n % 10) acc (omega arith)
      ∙ ap (λ k. scan_digits k acc) (omega arith))
]

-- A printed number begins with a digit.
pub digits_before-head :
    (f n : ℕ) (acc : Text)
    → n < f
    → (d : ℕ) × (t : Text) × (digits_before f n acc ≡ (48 + d) ∷ t) × (d < 10)
unfolding digits_before
digits_before-head zero n acc h = absurd (omega arith)
digits_before-head (suc f) n acc h = elim (Bool-cases (ltb n 10)) [
  | inl e ↦ (n, acc, rw e, ltb→lt n 10 e)
  | inr e ↦ rw e (digits_before-head f (n / 10) ((48 + n % 10) ∷ acc) (ground arith))
]

-- What stands behind the digits stays there.
pub digits_before-append :
    (f n : ℕ) (acc s : Text) → digits_before f n acc ++ s ≡ digits_before f n (acc ++ s)
unfolding digits_before
digits_before-append zero n acc s = refl
digits_before-append (suc f) n acc s = elim (Bool-cases (ltb n 10)) [
  | inl e ↦ rw e
  | inr e ↦ rw e (digits_before-append f (n / 10) ((48 + n % 10) ∷ acc) s)
]

strtol_digit :
    (d n : ℕ) (t rest : Text)
    → d < 10
    → scan_digits 0 ((48 + d) ∷ t) ≡ (n, rest)
    → n < 2 ^ 63
    → strtol ((48 + d) ∷ t) ≡ (pos n, rest)
unfolding strtol
strtol_digit d n t rest h e b = ground arith

-- `strtol` reads back every printed `long` that is not negative, up to its end.
pub strtol-decimal : (n : ℕ) → n < 2 ^ 63 → strtol (decimal (pos n)) ≡ (pos n, [])
unfolding decimal scan_digits
strtol-decimal n b =
    let (d, t, e, h) = digits_before-head (suc n) n [] (omega arith) in
    rw e
      (strtol_digit d n t [] h (rw e at (scan_digits-digits_before (suc n) n [] (omega arith))) b)

below_ten : (n : ℕ) → n < 10 → ltb n 10 ≡ true
below_ten n h = ground arith

-- A number below 10^k has at most k digits.
digits_before-length :
    (k f n : ℕ) (acc : Text)
    → n < f
    → n < 10 ^ k
    → 0 < k
    → length (digits_before f n acc) ≤ k + length acc
unfolding digits_before
digits_before-length k zero n acc h b p = absurd (omega arith)
digits_before-length zero (suc f) n acc h b p = absurd (omega arith)
digits_before-length (suc zero) (suc f) n acc h b p = rw (below_ten n (omega arith)) (omega arith)
digits_before-length (suc (suc k)) (suc f) n acc h b p = elim (Bool-cases (ltb n 10)) [
  | inl e ↦ rw e (omega arith)
  | inr e ↦ rw e (
      omega (
        arith,
        digits_before-length (suc k) f (n / 10) ((48 + n % 10) ∷ acc) (ground arith)
            (omega (arith, pow-suc 10 (suc k))) (omega arith),
      ))
]

-- An `int` is printed in at most ten digits.
pub length-decimal-pos : (n : ℕ) → n < 2 ^ 31 → length (decimal (pos n)) ≤ 10
unfolding decimal
length-decimal-pos n h =
    omega (arith, digits_before-length 10 (suc n) n [] (omega arith) (omega arith) (omega arith))

abbrev pub IsDigit : ℕ → Type 0
IsDigit c = is_digit c ≡ true

digits_before-All :
    (f n : ℕ) (acc : Text) → n < f → All IsDigit acc → All IsDigit (digits_before f n acc)
unfolding digits_before
digits_before-All zero n acc h a = absurd (omega arith)
digits_before-All (suc f) n acc h a = elim (Bool-cases (ltb n 10)) [
  | inl e ↦ rw e (ground (arith, ltb→lt n 10 e), a)
  | inr e ↦
      rw e (digits_before-All f (n / 10) ((48 + n % 10) ∷ acc) (ground arith) (ground arith, a))
]

-- A printed number is made of digits.
pub decimal-All : (n : ℕ) → All IsDigit (decimal (pos n))
unfolding decimal
decimal-All n = digits_before-All (suc n) n [] (omega arith) tt

-- A `long` is printed in at most nineteen digits.
pub length-decimal-long : (n : ℕ) → n < 2 ^ 63 → length (decimal (pos n)) ≤ 19
unfolding decimal
length-decimal-long n h =
    omega (arith, digits_before-length 19 (suc n) n [] (omega arith) (omega arith) (omega arith))

scan_long_digit :
    (d n : ℕ) (t rest : Text)
    → d < 10
    → scan_digits 0 ((48 + d) ∷ t) ≡ (n, rest)
    → n < 2 ^ 63
    → scan_long (32 ∷ (48 + d) ∷ t) ≡ some (pos n, rest)
unfolding scan_long
scan_long_digit d n t rest h e b = ground arith

-- `%ld` reads back a number that is printed behind a space and before a byte that is no digit.
pub scan_long-decimal :
    (n c : ℕ) (s : Text)
    → n < 2 ^ 63
    → is_digit c ≡ false
    → scan_long (32 ∷ (decimal (pos n) ++ (c ∷ s))) ≡ some (pos n, c ∷ s)
unfolding decimal scan_digits
scan_long-decimal n c s b q =
    let (d, t, e, h) = digits_before-head (suc n) n (c ∷ s) (omega arith) in
    let read = scan_digits-digits_before (suc n) n (c ∷ s) (omega arith) in
    rw (digits_before-append (suc n) n [] (c ∷ s), e)
      (scan_long_digit d n t (c ∷ s) h (rw e at (rw q at read)) b)

-- `%d` does too, where an `int` holds the number.
pub scan_int-decimal :
    (n c : ℕ) (s : Text)
    → n < 2 ^ 31
    → is_digit c ≡ false
    → scan_int (32 ∷ (decimal (pos n) ++ (c ∷ s))) ≡ some (pos n, c ∷ s)
unfolding scan_int
scan_int-decimal n c s b q =
    rw (scan_int, scan_long-decimal n c s (omega arith) q)
      (ap (λ z. some (z, c ∷ s)) (int_of_long-pos n (ground arith)))
