-- ===== src/Text/Numbers.antt =====
-- `strtol`, `strtoul`, `atoi` in base 10, and `%d`, `%ld`, `%lu`.
use mini_container.Prelude.{
  ℕ, zero, suc, ◌+◌, ◌-◌, ◌*◌, ◌/◌, ◌%◌, ◌^◌, Bool, true, false, ◌&&◌, ◌||◌, [], ◌∷◌, ltb, leb,
  ◌==◌, if◌then◌else◌, ℤ, pos, negsuc, int_of_long, List, Option, none, some, length,
}
use mini_container.Text.Bytes.{Text}

-- isspace(c), isdigit(c)
abbrev pub is_space : ℕ → Bool
is_space c = c == 32 || leb 9 c && leb c 13

abbrev pub is_digit : ℕ → Bool
is_digit c = leb 48 c && leb c 57

unfoldable pub skip_space : Text → Text
skip_space [] = []
skip_space (c ∷ s) = if is_space c then skip_space s else c ∷ s

-- The value of the leading digits, and what follows them.
unfoldable pub scan_digits : ℕ → Text → ℕ × Text
scan_digits acc [] = (acc, [])
scan_digits acc (c ∷ s) = if is_digit c then scan_digits (acc * 10 + (c - 48)) s else (acc, c ∷ s)

abbrev pub starts_digit : Text → Bool
starts_digit [] = false
starts_digit (c ∷ s) = is_digit c

abbrev long_limit : ℕ
long_limit = 2 ^ 63

-- Out of range the result is LONG_MAX or LONG_MIN.
abbrev pub clamp_long : Bool → ℕ → ℤ
clamp_long false n = if ltb n long_limit then pos n else pos (long_limit - 1)
clamp_long true zero = pos 0
clamp_long true (suc n) = if ltb n long_limit then negsuc n else negsuc (long_limit - 1)

-- The optional sign, and what follows it.
abbrev pub sign : Text → Bool × Text
sign [] = (false, [])
sign (c ∷ s) = if c == 45 then (true, s) else if c == 43 then (false, s) else (false, c ∷ s)

-- The value and `endptr`. Where no digit stands, the value is 0 and `endptr` is the start.
unfoldable pub strtol : Text → ℤ × Text
unfolding skip_space scan_digits
strtol s =
    let (neg, t) = sign (skip_space s) in
    let (n, rest) = scan_digits 0 t in
    if starts_digit t then (clamp_long neg n, rest) else (pos 0, s)

-- `strtoul` negates modulo 2^64, and returns ULONG_MAX out of range.
abbrev pub clamp_ulong : Bool → ℕ → ℕ
clamp_ulong neg n =
    if ltb n (2 ^ 64) then (if neg then (2 ^ 64 - n) % 2 ^ 64 else n) else 2 ^ 64 - 1

unfoldable pub strtoul : Text → ℕ × Text
unfolding skip_space scan_digits
strtoul s =
    let (neg, t) = sign (skip_space s) in
    let (n, rest) = scan_digits 0 t in if starts_digit t then (clamp_ulong neg n, rest) else (0, s)

-- `atoi` is `(int)strtol`.
unfoldable pub atoi : Text → ℤ
unfolding strtol
atoi s = int_of_long (strtol s).0

-- `%d` of a number that is not negative, digits before `acc`. The fuel is a number above `n`.
unfoldable pub digits_before : ℕ → ℕ → Text → Text
digits_before zero n acc = acc
digits_before (suc f) n acc =
    let rest = digits_before f (n / 10) ((48 + n % 10) ∷ acc) in
    if ltb n 10 then (48 + n) ∷ acc else rest

unfoldable pub decimal_nat : ℕ → Text
unfolding digits_before
decimal_nat n = digits_before (suc n) n []

-- `%d`, `%ld`
unfoldable pub decimal : ℤ → Text
unfolding decimal_nat
decimal (pos n) = decimal_nat n
decimal (negsuc n) = 45 ∷ decimal_nat (suc n)

-- `%ld` and `%d` of `scanf`: the number and what follows it, if a number stands there.
unfoldable pub scan_long : Text → Option (ℤ × Text)
unfolding skip_space scan_digits
scan_long s =
    let (neg, t) = sign (skip_space s) in
    let (n, rest) = scan_digits 0 t in
    if starts_digit t then some (clamp_long neg n, rest) else none

unfoldable pub scan_int : Text → Option (ℤ × Text)
unfolding scan_long
scan_int s = elim (scan_long s) [ none ↦ none | some (z, rest) ↦ some (int_of_long z, rest) ]

-- `%lu` of `scanf`
unfoldable pub scan_ulong : Text → Option (ℕ × Text)
unfolding skip_space scan_digits
scan_ulong s =
    let (neg, t) = sign (skip_space s) in
    let (n, rest) = scan_digits 0 t in
    if starts_digit t then some (clamp_ulong neg n, rest) else none

-- `while (fscanf(fp, "%d", &n) == 1)`: every number takes a byte at least, so the length is fuel.
scan_ints_within : ℕ → Text → List ℤ
scan_ints_within zero s = []
scan_ints_within (suc f) s = elim (scan_int s) [
  | none ↦ []
  | some (z, rest) ↦ z ∷ scan_ints_within f rest
]

unfoldable pub scan_ints : Text → List ℤ
unfolding scan_ints_within scan_int
scan_ints s = scan_ints_within (length s) s
