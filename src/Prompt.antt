-- ===== src/Prompt.antt =====
-- internal/ui/promptx/promptx.go: reading a choice from a numbered menu. Texts are lists of code
-- points. The regular expressions are the functions that split a text as they do.
pub mod Choice
mod Examples
use yage.Prelude.{
  ℕ, zero, suc, ◌+◌, ◌-◌, ◌*◌, ◌/◌, ◌%◌, ◌^◌, min, Bool, true, false, not, ◌&&◌, ◌||◌, Option, none,
  some, List, [], ◌∷◌, ◌++◌, eqb, ltb, leb, if◌then◌else◌, ℤ, pos, negsuc,
}
use yage.Text.{trim_space, is_digit}

-- The digits in front, and what follows them.
abbrev pub leading : List ℕ → List ℕ
leading [] = []
leading (c ∷ cs) = let rest = leading cs in if is_digit c then c ∷ rest else []

abbrev pub after_leading : List ℕ → List ℕ
after_leading [] = []
after_leading (c ∷ cs) = let rest = after_leading cs in if is_digit c then rest else c ∷ cs

abbrev pub skip_others : List ℕ → List ℕ
skip_others [] = []
skip_others (c ∷ cs) = let rest = skip_others cs in if is_digit c then c ∷ cs else rest

abbrev pub is_empty : List ℕ → Bool
is_empty [] = true
is_empty (_ ∷ _) = false

-- ^[0-9]+$
pub digits_only : List ℕ → Bool
digits_only s = not (is_empty s) && is_empty (after_leading s)

abbrev pub is_dash_digits : List ℕ → Bool
is_dash_digits [] = false
is_dash_digits (c ∷ cs) = eqb c b'-' && not (is_empty cs) && is_empty (after_leading cs)

-- ^([0-9]+)-([0-9]+)$
pub dash_range : List ℕ → Bool
dash_range s = not (is_empty (leading s)) && is_dash_digits (after_leading s)

-- The value of digits. Atoi gives the largest int where that is too large.
abbrev pub value_from : ℕ → List ℕ → ℕ
value_from n [] = n
value_from n (c ∷ cs) = value_from (n * 10 + (c - b'0')) cs

pub number_of : List ℕ → ℕ
number_of s = min (value_from 0 s) (2 ^ 63 - 1)

-- strconv.Itoa for what is not negative: the digits of `n`, with `rounds` for the number of digits.
pub digits_from : (rounds n : ℕ) → List ℕ → List ℕ
digits_from zero n tail = tail
digits_from (suc rounds) n tail =
    let more = digits_from rounds (n / 10) ((b'0' + n % 10) ∷ tail) in
    if ltb n 10 then (b'0' + n) ∷ tail else more

abbrev pub itoa : ℕ → List ℕ
itoa n = digits_from (n + 1) n []

-- `max` is a signed int; only a positive one is a limit.
pub checked : ℕ → ℤ → List ℕ
unfolding digits_from
checked num (pos (suc max)) = if ltb num 1 || ltb (suc max) num then [] else itoa num
checked num _ = itoa num

pub parsed : List ℕ → Option (List ℕ)
unfolding digits_only dash_range
parsed s =
    if digits_only s
    then some s
    else if dash_range s
    then some (leading s)
    else if not (is_empty (leading (skip_others s)))
    then some (leading (skip_others s))
    else none

abbrev pub choice : Option (List ℕ) → ℤ → List ℕ
choice none max = []
choice (some digits) max = checked (number_of digits) max

pub normalize_numeric_menu_choice : List ℕ → ℤ → List ℕ
unfolding number_of checked parsed
normalize_numeric_menu_choice raw max =
    let s = trim_space raw in if is_empty s then [] else choice (parsed s) max
