-- ===== src/Prompt/Choice.antt =====
-- What a choice is read as.
use yage.Prelude.{
  ℕ, zero, suc, ◌+◌, ◌-◌, ◌*◌, ◌/◌, ◌%◌, ◌^◌, ◌<◌, ◌≤◌, min, true, false, ◌||◌, Option, none, some,
  List, [], ◌∷◌, ltb, if◌then◌else◌, ℤ, pos, All, ◌≡◌, refl, arith, ap, sym, ◌∙◌, Bool-cases, inl,
  inr, ◌⊎◌,
}
use yage.Text.{is_space, trim_space_solid, trim_space, is_digit}
use yage.Prompt.{
  leading, after_leading, skip_others, is_empty, digits_only, is_dash_digits, dash_range,
  value_from, number_of, digits_from, itoa, checked, parsed, choice, normalize_numeric_menu_choice,
}
use mathlib.Core.Path.{subst}

leading_all : (s : List ℕ) → is_empty (after_leading s) ≡ true → leading s ≡ s
leading_all [] h = refl
leading_all (c ∷ cs) h = elim (Bool-cases (is_digit c)) [
  | inl e ↦ rw e (ap (◌∷◌ c) (leading_all cs (ground (arith, h, e))))
  | inr e ↦ absurd (ground (arith, h, e))
]

skip_others-leading : (s : List ℕ) → is_empty (leading s) ≡ false → skip_others s ≡ s
skip_others-leading [] h = refl
skip_others-leading (c ∷ cs) h = ground (arith, h)

-- The first run of digits, if there is one.
abbrev pub first_digits : List ℕ → Option (List ℕ)
first_digits s = if is_empty (leading (skip_others s)) then none else some (leading (skip_others s))

parsed-first_digits : (s : List ℕ) → parsed s ≡ first_digits s
unfolding parsed digits_only dash_range
parsed-first_digits [] = refl
parsed-first_digits (c ∷ cs) = elim (Bool-cases (is_digit c)) [
  | inl e ↦ elim (Bool-cases (is_empty (after_leading cs))) [
    | inl a ↦ rw (e, a) (rw (e, leading_all cs a) refl)
    | inr a ↦ elim (Bool-cases (is_dash_digits (after_leading cs))) [
      | inl d ↦ rw (e, a, d) (rw e refl)
      | inr d ↦ rw (e, a, d) (rw e refl)
    ]
  ]
  | inr e ↦ elim (Bool-cases (is_empty (leading (skip_others cs)))) [
    | inl l ↦ rw (e, l) refl
    | inr l ↦ rw (e, l) refl
  ]
]

-- Whichever expression matches, the choice is the first run of digits of the trimmed input, as a
-- number within the limit, and there is none where the input has no digit.
pub normalize_numeric_menu_choice-first_digits :
    (raw : List ℕ) (max : ℤ)
    → normalize_numeric_menu_choice raw max ≡ choice (first_digits (trim_space raw)) max
unfolding normalize_numeric_menu_choice
normalize_numeric_menu_choice-first_digits raw max = go (trim_space raw)
  where
    go :
        (s : List ℕ)
        → (if is_empty s then [] else choice (parsed s) max) ≡ choice (first_digits s) max
    go [] = refl
    go (c ∷ cs) = ap (λ o. choice o max) (parsed-first_digits (c ∷ cs))

-- With a limit above 0 a choice that is not empty is written as a number from 1 to the limit.
pub normalize_numeric_menu_choice-within :
    (raw : List ℕ) (max : ℕ)
    → let out = normalize_numeric_menu_choice raw (pos (suc max)) in
      (out ≡ []) ⊎ ((n : ℕ) × (1 ≤ n) × (n ≤ suc max) × (out ≡ itoa n))
unfolding checked
normalize_numeric_menu_choice-within raw max =
    subst (λ (out : List ℕ). (out ≡ []) ⊎ ((n : ℕ) × (1 ≤ n) × (n ≤ suc max) × (out ≡ itoa n)))
      (sym (normalize_numeric_menu_choice-first_digits raw (pos (suc max))))
      (go (first_digits (trim_space raw)))
  where
    limited :
        (num : ℕ)
        → (checked num (pos (suc max)) ≡ [])
          ⊎ ((n : ℕ) × (1 ≤ n) × (n ≤ suc max) × (checked num (pos (suc max)) ≡ itoa n))
    limited num = elim (Bool-cases (ltb num 1 || ltb (suc max) num)) [
      | inl e ↦ inl (ap (λ b. if b then [] else itoa num) e)
      | inr e ↦
          inr (num, ground (arith, e), ground (arith, e), ap (λ b. if b then [] else itoa num) e)
    ]

    go :
        (o : Option (List ℕ))
        → (choice o (pos (suc max)) ≡ [])
          ⊎ ((n : ℕ) × (1 ≤ n) × (n ≤ suc max) × (choice o (pos (suc max)) ≡ itoa n))
    go none = inl refl
    go (some digits) = limited (number_of digits)

value_from-digits_from :
    (rounds n : ℕ) (tail : List ℕ)
    → n < rounds
    → value_from 0 (digits_from rounds n tail) ≡ value_from n tail
unfolding digits_from
value_from-digits_from zero n tail h = absurd (omega arith)
value_from-digits_from (suc rounds) n tail h = elim (Bool-cases (ltb n 10)) [
  | inl e ↦ let s : 0 * 10 + (48 + n - 48) ≡ n = omega arith in rw e (ap (λ k. value_from k tail) s)
  | inr e ↦
      let big : 10 ≤ n = ground (arith, e) in
      let s : n / 10 * 10 + (48 + n % 10 - 48) ≡ n = omega arith in
      rw e (
        value_from-digits_from rounds (n / 10) ((48 + n % 10) ∷ tail) (omega (arith, big))
        ∙ ap (λ k. value_from k tail) s)
]

IsDigits : List ℕ → Type 0
IsDigits = All (λ (c : ℕ). is_digit c ≡ true)

digits_from-IsDigits :
    (rounds n : ℕ) (tail : List ℕ) → IsDigits tail → IsDigits (digits_from rounds n tail)
unfolding digits_from IsDigits is_digit
digits_from-IsDigits zero n tail d = d
digits_from-IsDigits (suc rounds) n tail d = elim (Bool-cases (ltb n 10)) [
  | inl e ↦ rw e (ground (arith, e), d)
  | inr e ↦ rw e (digits_from-IsDigits rounds (n / 10) ((48 + n % 10) ∷ tail) (ground arith, d))
]

digits_from_nonempty :
    (rounds n : ℕ) (tail : List ℕ)
    → (is_empty tail ≡ false) ⊎ (1 ≤ rounds)
    → is_empty (digits_from rounds n tail) ≡ false
unfolding digits_from
digits_from_nonempty zero n tail (inl h) = h
digits_from_nonempty zero n tail (inr h) = absurd (omega arith)
digits_from_nonempty (suc rounds) n tail h = elim (Bool-cases (ltb n 10)) [
  | inl e ↦ rw e refl
  | inr e ↦ rw e (digits_from_nonempty rounds (n / 10) ((48 + n % 10) ∷ tail) (inl refl))
]

solid : (s : List ℕ) → IsDigits s → All (λ (c : ℕ). is_space c ≡ false) s
unfolding IsDigits is_digit is_space
solid [] d = tt
solid (c ∷ cs) d = let h = d.0 in (ground (arith, h), solid cs d.1)

leading_digits : (s : List ℕ) → IsDigits s → leading s ≡ s
unfolding IsDigits
leading_digits [] d = refl
leading_digits (c ∷ cs) d =
    ap (λ b. if b then c ∷ leading cs else []) d.0 ∙ ap (◌∷◌ c) (leading_digits cs d.1)

digits_first : (s : List ℕ) → IsDigits s → leading (skip_others s) ≡ s
unfolding IsDigits
digits_first [] d = refl
digits_first (c ∷ cs) d =
    ap (λ b. leading (if b then c ∷ cs else skip_others cs)) d.0 ∙ leading_digits (c ∷ cs) d

-- A number from 1 to the limit is read as itself.
pub normalize_numeric_menu_choice-itoa :
    (n max : ℕ)
    → 1 ≤ n
    → n ≤ max
    → max < 2 ^ 63
    → normalize_numeric_menu_choice (itoa n) (pos max) ≡ itoa n
unfolding checked number_of IsDigits
normalize_numeric_menu_choice-itoa n zero lo hi bound = absurd (omega arith)
normalize_numeric_menu_choice-itoa n (suc max) lo hi bound =
    let digits = digits_from-IsDigits (n + 1) n [] tt in
    let trimmed = trim_space_solid (itoa n) (solid (itoa n) digits) in
    let first = digits_first (itoa n) digits in
    let some_digit = digits_from_nonempty (n + 1) n [] (inr (omega arith)) in
    let fits : min n (2 ^ 63 - 1) ≡ n = omega arith in
    let value : number_of (itoa n) ≡ n =
      ap (λ k. min k (2 ^ 63 - 1)) (value_from-digits_from (n + 1) n [] (omega arith)) ∙ fits in
    let allowed : (ltb n 1 || ltb (suc max) n) ≡ false = ground arith in
    normalize_numeric_menu_choice-first_digits (itoa n) (pos (suc max))
    ∙ ap (λ s. choice (first_digits s) (pos (suc max))) trimmed
    ∙ ap (λ s. choice (if is_empty s then none else some s) (pos (suc max))) first
    ∙ ap (λ b. choice (if b then none else some (itoa n)) (pos (suc max))) some_digit
    ∙ ap (λ k. checked k (pos (suc max))) value
    ∙ ap (λ b. if b then [] else itoa n) allowed
