-- ===== src/Tests/Files.antt =====
-- The file and namespace calls at concrete inputs.
use mini_container.Prelude.{◌∷◌, [], some, List, Option}
use mini_container.Text.{Text}

abbrev command : List (Option Text)
command = some (b'l' ∷ b's' ∷ []) ∷ []
