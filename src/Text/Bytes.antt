-- ===== src/Text/Bytes.antt =====
-- C strings as the bytes before their NUL.
use Prim.Native.Char.{code}
use Prim.Native.String.{String}
use mathlib.Core.List.{reverse}
use mini_container.Prelude.{
  ℕ, zero, suc, ◌-◌, ◌<◌, ◌≡◌, refl, ◌↔◌, Bool, true, false, ◌&&◌, ◌||◌, List, Option, none, some,
  [], ◌∷◌, take, arith, ◌==◌, if◌then◌else◌, length, length-take,
}

abbrev pub Text : Type 0
Text = List ℕ

-- The bytes of an ASCII literal.
unfoldable pub text : String → Text
text String.[] = []
text (String.◌∷◌ c s) = code c ∷ text s

-- strcmp(a, b) == 0
unfoldable pub text_eq : Text → Text → Bool
text_eq [] [] = true
text_eq [] (y ∷ ys) = false
text_eq (x ∷ xs) [] = false
text_eq (x ∷ xs) (y ∷ ys) = x == y && text_eq xs ys

-- What `snprintf(buf, size, ...)` leaves in the buffer, for a size above 0.
unfoldable pub snprintf : ℕ → Text → Text
snprintf size s = take (size - 1) s

-- The prefix test and strstr(s, t) != nullptr.
unfoldable pub starts_with : Text → Text → Bool
starts_with s [] = true
starts_with [] (c ∷ t) = false
starts_with (d ∷ s) (c ∷ t) = d == c && starts_with s t

-- What follows the literal `t` of a format at the start of `s`.
unfoldable pub strip_prefix : Text → Text → Option Text
strip_prefix s [] = some s
strip_prefix [] (c ∷ t) = none
strip_prefix (d ∷ s) (c ∷ t) = if d == c then strip_prefix s t else none

unfoldable pub contains : Text → Text → Bool
contains [] t = starts_with [] t
contains (c ∷ s) t = starts_with (c ∷ s) t || contains s t

-- A directory entry whose name begins with a dot.
abbrev pub is_hidden : Text → Bool
is_hidden [] = false
is_hidden (c ∷ s) = c == 46

-- `dirname`: trailing slashes go, then the last name, then the slashes before it. What is left of
-- a path without a slash is ".", and of one with nothing but slashes before its name "/".
unfoldable pub drop_slashes : Text → Text
drop_slashes [] = []
drop_slashes (c ∷ s) = if c == 47 then drop_slashes s else c ∷ s

unfoldable pub drop_name : Text → Text
drop_name [] = []
drop_name (c ∷ s) = if c == 47 then c ∷ s else drop_name s

abbrev pub is_empty : Text → Bool
is_empty [] = true
is_empty (c ∷ s) = false

unfoldable pub dirname : Text → Text
unfolding drop_slashes drop_name text
dirname path =
    let named = drop_slashes (reverse path) in
    let above = drop_name named in
    let parent = drop_slashes above in
    if is_empty path
    then text "."
    else if is_empty named
    then text "/"
    else if is_empty above
    then text "."
    else if is_empty parent
    then text "/"
    else reverse parent

pub text_eq_iff : (a b : Text) → (text_eq a b ≡ true) ↔ (a ≡ b)
unfolding text_eq
text_eq_iff [] [] = (λ _. refl, λ _. refl)
text_eq_iff [] (y ∷ ys) = (λ h. cc, λ h. cc)
text_eq_iff (x ∷ xs) [] = (λ h. cc, λ h. cc)
text_eq_iff (x ∷ xs) (y ∷ ys) = ground (arith, text_eq_iff xs ys)

pub text_eq_refl : (a : Text) → text_eq a a ≡ true
text_eq_refl a = (text_eq_iff a a).1 refl

pub length-snprintf : (size : ℕ) (s : Text) → 0 < size → length (snprintf size s) < size
unfolding snprintf
length-snprintf size s h = omega (arith, length-take (size - 1) s)

-- The lines that `fgets` reads: up to a newline, or as much as the buffer holds, `limit` bytes and
-- one more.
unfoldable pub fgets_lines : ℕ → ℕ → Text → Text → List Text
fgets_lines limit room line [] = if is_empty line then [] else reverse line ∷ []
fgets_lines limit zero line (c ∷ s) = reverse (c ∷ line) ∷ fgets_lines limit limit [] s
fgets_lines limit (suc room) line (c ∷ s) =
    let more = fgets_lines limit room (c ∷ line) s in
    let next = fgets_lines limit limit [] s in if c == 10 then reverse (c ∷ line) ∷ next else more
