-- ===== src/Prompt/Examples.antt =====
-- The theorems about menu choices at concrete inputs.
use yage.Prelude.{pos, ◌≡◌, arith}
use yage.Text.{codes, trim_space}
use yage.Prompt.{normalize_numeric_menu_choice, choice, itoa}
use yage.Prompt.Choice.{
  first_digits, normalize_numeric_menu_choice-first_digits, normalize_numeric_menu_choice-itoa,
}

normalize_numeric_menu_choice-first_digits_example :
    normalize_numeric_menu_choice (codes " 2-2 ") (pos 3)
    ≡ choice (first_digits (trim_space (codes " 2-2 "))) (pos 3)
normalize_numeric_menu_choice-first_digits_example =
    normalize_numeric_menu_choice-first_digits (codes " 2-2 ") (pos 3)

normalize_numeric_menu_choice-itoa_example :
    normalize_numeric_menu_choice (itoa 12) (pos 30) ≡ itoa 12
normalize_numeric_menu_choice-itoa_example =
    normalize_numeric_menu_choice-itoa 12 30 (omega arith) (omega arith) (omega arith)
