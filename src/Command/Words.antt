-- ===== src/Command/Words.antt =====
-- The command that `interactive_create_container` of src/main.cpp reads, cut into words.
pub mod Quoting
use mini_container.Prelude.{
  ℕ, Bool, true, false, not, ◌&&◌, ◌||◌, List, [], ◌∷◌, ◌++◌, ◌==◌, if◌then◌else◌,
}
use mini_container.Text.{Text, is_empty}

-- The variables of the loop over the command.
pub record Splitter : Type 0 where
  pub args : List Text
  pub current_arg : Text
  pub in_quotes : Bool
  pub quote_char : ℕ

abbrev pub splitting : List Text → Text → Splitter
splitting args current = record {
  args = args;
  current_arg = current;
  in_quotes = false;
  quote_char = 0;
}

abbrev is_quote : ℕ → Bool
is_quote c = c == b'"' || c == 39

abbrev pub add_byte : ℕ → Splitter → Splitter
add_byte c s = record s { current_arg = s.current_arg ++ (c ∷ []) }

-- A word that is done; an empty one is dropped.
abbrev pub push_word : List Text → Text → List Text
push_word args word = if is_empty word then args else args ++ (word ∷ [])

-- The body of the loop, for the byte `c` behind `previous`.
unfoldable pub split_step : ℕ → ℕ → Splitter → Splitter
split_step previous c s =
    if is_quote c && not (previous == 92)
    then (if not s.in_quotes
        then record s { in_quotes = true; quote_char = c }
        else if c == s.quote_char
        then record s { in_quotes = false; quote_char = 0 }
        else add_byte c s)
    else if c == 32 && not s.in_quotes
    then record s { args = push_word s.args s.current_arg; current_arg = [] }
    else add_byte c s

-- No byte stands before the first; 0 is no backslash.
unfoldable pub split_from : ℕ → Text → Splitter → Splitter
split_from previous [] s = s
split_from previous (c ∷ cmd) s = split_from c cmd (split_step previous c s)

unfoldable pub split_words : Text → List Text
unfolding split_from
split_words cmd = let s = split_from 0 cmd (splitting [] []) in push_word s.args s.current_arg
