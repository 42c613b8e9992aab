-- ===== src/Doubles.antt =====
-- The type `double` as src/main.cpp and src/web_server_simple.cpp use it: a record of operations.
-- Nothing is assumed of them but their types, unless a theorem names a premise.
use mini_container.Prelude.{ℕ, Bool}
use mini_container.Text.{Text}

-- The conversion of an integer, the operations, `<`, the text by `std::to_string`, and the text by
-- `%.<n>f`.
pub record Doubles : Type 1 where
  pub Double : Type 0
  pub of_ulong : ℕ → Double
  pub mul : Double → Double → Double
  pub div : Double → Double → Double
  pub sub : Double → Double → Double
  pub less : Double → Double → Bool
  pub to_string : Double → Text
  pub printed : ℕ → Double → Text
