-- ===== src/Text/Dirname.antt =====
-- `dirname` gives a shorter path, "/" or ".".
use mathlib.Core.List.{reverse, reverse-cons}
use mini_container.Prelude.{
  ◌<◌, ◌≤◌, ◌≡◌, refl, ap, ◌⊎◌, inl, inr, false, [], ◌∷◌, arith, length, length-append, Bool-cases,
  ◌==◌,
}
use mini_container.Text.Bytes.{Text, text, dirname, drop_slashes, drop_name, is_empty}

-- The two directories that `dirname` ends in.
abbrev pub IsTop : Text → Type 0
IsTop path = (path ≡ text "/") ⊎ (path ≡ text ".")

length-drop_slashes : (s : Text) → length (drop_slashes s) ≤ length s
unfolding drop_slashes
length-drop_slashes [] = omega arith
length-drop_slashes (c ∷ s) = ground (arith, length-drop_slashes s)

length-drop_name : (s : Text) → length (drop_name s) ≤ length s
unfolding drop_name
length-drop_name [] = omega arith
length-drop_name (c ∷ s) = ground (arith, length-drop_name s)

length-reverse : (s : Text) → length (reverse s) ≡ length s
length-reverse [] = refl
length-reverse (c ∷ s) =
    omega
      (arith, ap length (reverse-cons c s), length-append (reverse s) (c ∷ []), length-reverse s)

-- What is left before a name ends in a slash.
drop_name-cases : (s : Text) → (drop_name s ≡ []) ⊎ ((t : Text) × (drop_name s ≡ 47 ∷ t))
unfolding drop_name
drop_name-cases [] = inl refl
drop_name-cases (c ∷ s) = elim (Bool-cases (c == 47)) [
  | inl e ↦ inr (s, ground arith)
  | inr e ↦ rw e (drop_name-cases s)
]

above_name :
    (s : Text) → is_empty (drop_name s) ≡ false → length (drop_slashes (drop_name s)) < length s
unfolding drop_slashes
above_name s h = elim (drop_name-cases s) [
  | inl e ↦ absurd (cc (e, h))
  | inr (t, e) ↦
      ground (arith, length-drop_slashes t, length-drop_name s, ap length e, ap drop_slashes e)
]

-- The parent of a path is shorter than it, or "/" or ".".
pub dirname-IsTop : (path : Text) → IsTop (dirname path) ⊎ (length (dirname path) < length path)
unfolding dirname text
dirname-IsTop path =
    let named = drop_slashes (reverse path) in
    ground (
      arith,
      above_name named,
      length-drop_slashes (reverse path),
      length-reverse path,
      length-reverse (drop_slashes (drop_name named)),
    )
