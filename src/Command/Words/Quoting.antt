-- ===== src/Command/Words/Quoting.antt =====
-- Which commands `split_words` cuts into which words.
use mathlib.Core.List.{append_assoc, append-nil}
use mini_container.Prelude.{
  ℕ, ◌≡◌, ◌≢◌, refl, ap, sym, ◌∙◌, true, false, List, [], ◌∷◌, ◌++◌, All, ◌==◌, if◌then◌else◌,
  arith, inl, inr, Bool-cases,
}
use mini_container.Text.{Text, is_empty}
use mini_container.Command.Words.{
  Splitter, splitting, push_word, split_step, split_from, split_words,
}

-- The rest of a word, behind the byte `previous`: no single quote, and no backslash at the end.
abbrev CanEnd : ℕ → Text → Type 0
CanEnd previous [] = previous ≢ 92
CanEnd previous (c ∷ word) = (c ≢ 39) × CanEnd c word

abbrev pub IsQuotable : Text → Type 0
IsQuotable [] = ⊥
IsQuotable (c ∷ word) = CanEnd 0 (c ∷ word)

-- The words in single quotes, a space behind each.
abbrev pub quoted_line : List Text → Text
quoted_line [] = []
quoted_line (word ∷ words) = 39 ∷ (word ++ (39 ∷ (32 ∷ quoted_line words)))

abbrev inside : List Text → Text → Splitter
inside args current = record {
  args = args;
  current_arg = current;
  in_quotes = true;
  quote_char = 39;
}

inside_step :
    (previous c : ℕ) (args : List Text) (current : Text)
    → c ≢ 39
    → split_step previous c (inside args current) ≡ inside args (current ++ (c ∷ []))
unfolding split_step
inside_step previous c args current h = ground arith

closing_step :
    (previous : ℕ) (args : List Text) (current : Text)
    → previous ≢ 92
    → split_step previous 39 (inside args current) ≡ splitting args current
unfolding split_step
closing_step previous args current h = ground arith

split_quoted :
    (previous : ℕ) (word rest : Text) (args : List Text) (current : Text)
    → CanEnd previous word
    → split_from previous (word ++ (39 ∷ rest)) (inside args current)
      ≡ split_from 39 rest (splitting args (current ++ word))
unfolding split_from
split_quoted previous [] rest args current h =
    ap (split_from 39 rest) (closing_step previous args current h)
    ∙ ap (λ t. split_from 39 rest (splitting args t)) (sym (append-nil current))
split_quoted previous (c ∷ word) rest args current (h, more) =
    ap (split_from c (word ++ (39 ∷ rest))) (inside_step previous c args current h)
    ∙ split_quoted c word rest args (current ++ (c ∷ [])) more
    ∙ ap (λ t. split_from 39 rest (splitting args t)) (append_assoc current (c ∷ []) word)

opening_step :
    (previous : ℕ) (args : List Text)
    → previous ≢ 92
    → split_step previous 39 (splitting args []) ≡ inside args []
unfolding split_step
opening_step previous args h = ground arith

split_line :
    (previous : ℕ) (words args : List Text)
    → previous ≢ 92
    → All IsQuotable words
    → split_from previous (quoted_line words) (splitting args []) ≡ splitting (args ++ words) []
unfolding split_from split_step
split_line previous [] args h all = ap (λ xs. splitting xs []) (sym (append-nil args))
split_line previous ([] ∷ words) args h (bad, all) = absurd bad
split_line previous ((c ∷ word) ∷ words) args h (ok, all) =
    let rest = 32 ∷ quoted_line words in
    ap (split_from 39 ((c ∷ word) ++ (39 ∷ rest))) (opening_step previous args h)
    ∙ split_quoted 39 (c ∷ word) rest args [] ok
    ∙ split_line 32 words (args ++ ((c ∷ word) ∷ [])) (omega arith) all
    ∙ ap (λ xs. splitting xs []) (append_assoc args ((c ∷ word) ∷ []) words)

-- Words that are not empty, hold no single quote and do not end in a backslash, written in single
-- quotes with a space behind each, are read back as they are, also where they hold spaces or double
-- quotes.
pub split_words-quoted_line :
    (words : List Text) → All IsQuotable words → split_words (quoted_line words) ≡ words
unfolding split_words
split_words-quoted_line words all = rw (split_line 0 words [] (omega arith) all) refl

-- The plain words of a text: what stands between spaces, the first word apart, since a word may
-- come before it.
abbrev pub add_word : Text → List Text → List Text
add_word word words = if is_empty word then words else word ∷ words

abbrev cut_first : ℕ → Text × List Text → Text × List Text
cut_first c (word, words) = if c == 32 then ([], add_word word words) else (c ∷ word, words)

abbrev chunks : Text → Text × List Text
chunks [] = ([], [])
chunks (c ∷ s) = cut_first c (chunks s)

abbrev pub plain_words : Text → List Text
plain_words s = let (word, words) = chunks s in add_word word words

abbrev pub IsPlain : ℕ → Type 0
IsPlain c = (c ≢ b'"') × (c ≢ 39)

space_step :
    (previous : ℕ) (args : List Text) (current : Text)
    → split_step previous 32 (splitting args current) ≡ splitting (push_word args current) []
unfolding split_step
space_step previous args current = ground arith

other_step :
    (previous c : ℕ) (args : List Text) (current : Text)
    → IsPlain c
    → (c == 32) ≡ false
    → split_step previous c (splitting args current) ≡ splitting args (current ++ (c ∷ []))
unfolding split_step
other_step previous c args current h other = ground arith

push-add_word :
    (args : List Text) (word : Text) (words : List Text)
    → push_word args word ++ words ≡ args ++ add_word word words
push-add_word args [] words = refl
push-add_word args (c ∷ word) words = append_assoc args ((c ∷ word) ∷ []) words

abbrev words_of : Splitter → List Text
words_of t = push_word t.args t.current_arg

split_plain :
    (previous : ℕ) (s : Text) (args : List Text) (current : Text)
    → All IsPlain s
    → words_of (split_from previous s (splitting args current))
      ≡ args ++ add_word (current ++ (chunks s).0) (chunks s).1
unfolding split_from
split_plain previous [] args current h =
    sym (append-nil (push_word args current))
    ∙ push-add_word args current []
    ∙ ap (λ t. args ++ add_word t []) (sym (append-nil current))
split_plain previous (c ∷ s) args current (h, all) =
    let (word, words) = chunks s in
    elim (Bool-cases (c == 32)) [
      | inl space ↦
          let is_space : c ≡ 32 = ground arith in
          ap (λ b. words_of (split_from c s (split_step previous b (splitting args current))))
            is_space
          ∙ ap (λ t. words_of (split_from c s t)) (space_step previous args current)
          ∙ split_plain c s (push_word args current) [] all
          ∙ push-add_word args current (add_word word words)
          ∙ rw (space, append-nil current) refl
      | inr other ↦
          ap (λ t. words_of (split_from c s t)) (other_step previous c args current h other)
          ∙ split_plain c s args (current ++ (c ∷ [])) all
          ∙ ap (λ t. args ++ add_word t words) (append_assoc current (c ∷ []) word)
          ∙ rw other refl
    ]

-- On a command without quotes the loop gives the words between the spaces.
pub split_words-plain_words : (s : Text) → All IsPlain s → split_words s ≡ plain_words s
unfolding split_words
split_words-plain_words s all = split_plain 0 s [] [] all
