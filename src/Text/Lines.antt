-- ===== src/Text/Lines.antt =====
-- `fgets` gives back the lines of a text that was written in lines.
use mathlib.Core.List.{flatten, reverse, reverse-cons, append_assoc}
use mini_container.Prelude.{
  ℕ, zero, suc, ◌+◌, ◌≤◌, ◌≡◌, refl, ap, ◌∙◌, inl, inr, Bool, true, false, ◌&&◌, List, [], ◌∷◌,
  ◌++◌, arith, All, Bool-cases, if◌then◌else◌, ◌==◌, length,
}
use mini_container.Text.Bytes.{Text, is_empty, fgets_lines}
use mini_container.Text.Decimal.{IsDigit}

-- One newline, at the end, and at most `room` bytes before it.
unfoldable pub is_line : ℕ → Text → Bool
is_line room [] = false
is_line zero (c ∷ s) = c == 10 && is_empty s
is_line (suc room) (c ∷ s) = let rest = is_line room s in if c == 10 then is_empty s else rest

abbrev pub IsLine : Text → Type 0
IsLine line = is_line 1022 line ≡ true

is_line_more : (k room : ℕ) (s : Text) → k ≤ room → is_line k s ≡ true → is_line room s ≡ true
unfolding is_line
is_line_more k room [] h e = absurd (ground arith)
is_line_more zero zero (c ∷ s) h e = e
is_line_more zero (suc room) (c ∷ s) h e = ground arith
is_line_more (suc k) zero (c ∷ s) h e = absurd (omega arith)
is_line_more (suc k) (suc room) (c ∷ s) h e = ground (arith, is_line_more k room s (omega arith))

-- Digits take the room of their number.
pub is_line-digits :
    (a s : Text) (k room : ℕ)
    → All IsDigit a
    → length a + k ≤ room
    → is_line k s ≡ true
    → is_line room (a ++ s) ≡ true
unfolding is_line
is_line-digits [] s k room all h e = is_line_more k room s (omega arith) e
is_line-digits (c ∷ a) s k zero (d, all) h e = absurd (omega arith)
is_line-digits (c ∷ a) s k (suc room) (d, all) h e =
    ground (arith, is_line-digits a s k room all (omega arith) e)

fgets_lines-line :
    (limit room : ℕ) (before line s : Text)
    → is_line room line ≡ true
    → fgets_lines limit room before (line ++ s)
      ≡ (reverse before ++ line) ∷ fgets_lines limit limit [] s
unfolding is_line fgets_lines
fgets_lines-line limit room before [] s e = absurd (ground arith)
fgets_lines-line limit zero before (c ∷ []) s e =
    ap (λ line. line ∷ fgets_lines limit limit [] s) (reverse-cons c before)
fgets_lines-line limit zero before (c ∷ d ∷ line) s e = absurd (ground arith)
fgets_lines-line limit (suc room) before (c ∷ []) s e = elim (Bool-cases (c == 10)) [
  | inl q ↦ rw q (ap (λ line. line ∷ fgets_lines limit limit [] s) (reverse-cons c before))
  | inr q ↦ absurd (ground arith)
]
fgets_lines-line limit (suc room) before (c ∷ d ∷ line) s e = elim (Bool-cases (c == 10)) [
  | inl q ↦ absurd (ground arith)
  | inr q ↦ rw q (
      fgets_lines-line limit room (c ∷ before) (d ∷ line) s (rw q at e)
      ∙ ap (λ front. front ∷ fgets_lines limit limit [] s)
          (ap (λ front. front ++ (d ∷ line)) (reverse-cons c before)
            ∙ append_assoc (reverse before) (c ∷ []) (d ∷ line)))
]

-- The buffer of 1024 bytes reads lines of at most 1023 bytes as they were written.
pub fgets_lines-flatten :
    (lines : List Text) → All IsLine lines → fgets_lines 1022 1022 [] (flatten lines) ≡ lines
unfolding fgets_lines flatten
fgets_lines-flatten [] h = refl
fgets_lines-flatten (line ∷ lines) (e, h) =
    fgets_lines-line 1022 1022 [] line (flatten lines) e
    ∙ ap (◌∷◌ line) (fgets_lines-flatten lines h)
