-- ===== src/Settings/Itoa.antt =====
-- strconv.Itoa for what is not negative, and strconv.Atoi on what it gives.
use Prim.Native.Char.{Char, code}
use text.Mathlib.TextLemmas.{cons≢nil}
use yage.Prelude.{
  ℕ, zero, suc, ◌+◌, ◌-◌, ◌*◌, ◌/◌, ◌%◌, ◌^◌, ◌<◌, ◌≤◌, String, true, false, some, pos, ltb, eqb,
  if◌then◌else◌, ◌≡◌, refl, ◌∙◌, ap, arith, Bool-cases, inl, inr, ◌&&◌, leb, ◌==◌, eq_iff,
}
use yage.Settings.Join.{lacks}
use yage.Settings.Trim.{trim_space, is_solid, trim_space_solid}
use yage.Text.{is_space, codes, atoi, is_digit, digits_value, magnitude, non_negative}

abbrev digit : ℕ → Char
digit zero = "0"
digit (suc zero) = "1"
digit (suc (suc zero)) = "2"
digit (suc (suc (suc zero))) = "3"
digit (suc (suc (suc (suc zero)))) = "4"
digit (suc (suc (suc (suc (suc zero))))) = "5"
digit (suc (suc (suc (suc (suc (suc zero)))))) = "6"
digit (suc (suc (suc (suc (suc (suc (suc zero))))))) = "7"
digit (suc (suc (suc (suc (suc (suc (suc (suc zero)))))))) = "8"
digit _ = "9"

-- The digits of `n`, with `rounds` for their number, before `tail`.
digits : (rounds n : ℕ) → String → String
digits zero n tail = tail
digits (suc rounds) n tail =
    let more = digits rounds (n / 10) (String.◌∷◌ (digit (n % 10)) tail) in
    if ltb n 10 then String.◌∷◌ (digit n) tail else more

unfoldable pub itoa : ℕ → String
unfolding digits
itoa n = digits (n + 1) n ""

forty_two : itoa 1042 ≡ "1042"
unfolding itoa
forty_two = refl

digit-code : (n : ℕ) → n < 10 → code (digit n) ≡ b'0' + n
digit-code zero h = refl
digit-code (suc zero) h = refl
digit-code (suc (suc zero)) h = refl
digit-code (suc (suc (suc zero))) h = refl
digit-code (suc (suc (suc (suc zero)))) h = refl
digit-code (suc (suc (suc (suc (suc zero))))) h = refl
digit-code (suc (suc (suc (suc (suc (suc zero)))))) h = refl
digit-code (suc (suc (suc (suc (suc (suc (suc zero))))))) h = refl
digit-code (suc (suc (suc (suc (suc (suc (suc (suc zero)))))))) h = refl
digit-code (suc (suc (suc (suc (suc (suc (suc (suc (suc zero))))))))) h = refl
digit-code (suc (suc (suc (suc (suc (suc (suc (suc (suc (suc n)))))))))) h = absurd (omega arith)

-- The digits in front of others are read to their value.
digits_value-digits :
    (rounds n : ℕ) (tail : String)
    → n < rounds
    → digits_value 0 (codes (digits rounds n tail)) ≡ digits_value n (codes tail)
unfolding digits digits_value is_digit
digits_value-digits zero n tail h = absurd (omega arith)
digits_value-digits (suc rounds) n tail h = elim (Bool-cases (ltb n 10)) [
  | inl e ↦
      let small : n < 10 = ground (arith, e) in
      let value : 0 * 10 + (48 + n - 48) ≡ n = omega arith in
      let is_one : (leb 48 (48 + n) && leb (48 + n) 57) ≡ true = ground (arith, small) in
      rw e (rw (digit-code n small) (rw is_one (ap (λ k. digits_value k (codes tail)) value)))
  | inr e ↦
      let big : 10 ≤ n = ground (arith, e) in
      let low : n % 10 < 10 = omega arith in
      let value : n / 10 * 10 + (48 + n % 10 - 48) ≡ n = omega arith in
      let is_one : (leb 48 (48 + n % 10) && leb (48 + n % 10) 57) ≡ true = ground (arith, low) in
      rw e (
        digits_value-digits rounds (n / 10) (String.◌∷◌ (digit (n % 10)) tail) (omega (arith, big))
        ∙ rw (digit-code (n % 10) low) (rw is_one (ap (λ k. digits_value k (codes tail)) value)))
]

IsNumber : String → Type 0
IsNumber String.[] = ⊥
IsNumber (String.◌∷◌ c s) = is_digit (code c) ≡ true

digits-IsNumber : (rounds n : ℕ) (tail : String) → n < rounds → IsNumber (digits rounds n tail)
unfolding digits IsNumber is_digit
digits-IsNumber zero n tail h = absurd (omega arith)
digits-IsNumber (suc rounds) n tail h = elim (Bool-cases (ltb n 10)) [
  | inl e ↦
      let small : n < 10 = ground (arith, e) in
      rw e (rw (digit-code n small) (ground (arith, small)))
  | inr e ↦
      let big : 10 ≤ n = ground (arith, e) in
      rw e (digits-IsNumber rounds (n / 10) (String.◌∷◌ (digit (n % 10)) tail) (omega (arith, big)))
]

atoi-number : (t : String) → IsNumber t → atoi (codes t) ≡ non_negative (digits_value 0 (codes t))
unfolding atoi IsNumber is_digit magnitude
atoi-number String.[] h = absurd h
atoi-number (String.◌∷◌ c s) h =
    let plus : eqb (code c) 43 ≡ false = ground (arith, h) in
    let minus : eqb (code c) 45 ≡ false = ground (arith, h) in rw minus (rw plus refl)

-- What Itoa prints of an int that is not negative, Atoi reads.
pub atoi-itoa : (n : ℕ) → n < 2 ^ 63 → atoi (codes (itoa n)) ≡ some (pos n)
unfolding itoa non_negative digits_value
atoi-itoa n h =
    let small : ltb n (2 ^ 63) ≡ true = ground (arith, h) in
    atoi-number (digits (n + 1) n "") (digits-IsNumber (n + 1) n "" (omega arith))
    ∙ ap non_negative (digits_value-digits (n + 1) n "" (omega arith))
    ∙ rw small refl

number-filled : (t : String) → IsNumber t → (t == "") ≡ false
unfolding IsNumber
number-filled String.[] h = absurd h
number-filled (String.◌∷◌ c s) h = elim (Bool-cases (String.◌∷◌ c s == "")) [
  | inl e ↦ absurd (cons≢nil ((eq_iff (String.◌∷◌ c s) "").0 e))
  | inr e ↦ e
]

pub itoa_filled : (n : ℕ) → (itoa n == "") ≡ false
unfolding itoa
itoa_filled n = number-filled (digits (n + 1) n "") (digits-IsNumber (n + 1) n "" (omega arith))

pub digits_value-itoa : (n : ℕ) → digits_value 0 (codes (itoa n)) ≡ some n
unfolding itoa digits_value
digits_value-itoa n = digits_value-digits (n + 1) n "" (omega arith)

digit-solid : (n : ℕ) → n < 10 → is_space (code (digit n)) ≡ false
unfolding is_space
digit-solid n h = rw (digit-code n h) (ground (arith, h))

digits-solid :
    (rounds n : ℕ) (tail : String) → is_solid tail ≡ true → is_solid (digits rounds n tail) ≡ true
unfolding digits is_solid
digits-solid zero n tail h = h
digits-solid (suc rounds) n tail h = elim (Bool-cases (ltb n 10)) [
  | inl e ↦ rw e (rw (digit-solid n (ground (arith, e))) h)
  | inr e ↦ rw e (
      digits-solid rounds (n / 10) (String.◌∷◌ (digit (n % 10)) tail)
        (rw (digit-solid (n % 10) (omega arith)) h))
]

pub trim_space-itoa : (n : ℕ) → trim_space (itoa n) ≡ itoa n
unfolding itoa is_solid
trim_space-itoa n = trim_space_solid (itoa n) (digits-solid (n + 1) n "" refl)

digit-lacks : (n : ℕ) → n < 10 → eqb (code (digit n)) b'#' ≡ false
digit-lacks n h = rw (digit-code n h) (ground (arith, h))

digits-lacks :
    (rounds n : ℕ) (tail : String)
    → lacks b'#' tail ≡ true
    → lacks b'#' (digits rounds n tail) ≡ true
unfolding digits
digits-lacks zero n tail h = h
digits-lacks (suc rounds) n tail h = elim (Bool-cases (ltb n 10)) [
  | inl e ↦ rw e (rw (digit-lacks n (ground (arith, e))) h)
  | inr e ↦ rw e (
      digits-lacks rounds (n / 10) (String.◌∷◌ (digit (n % 10)) tail)
        (rw (digit-lacks (n % 10) (omega arith)) h))
]

-- A printed number has no number sign.
pub lacks-itoa : (n : ℕ) → lacks b'#' (itoa n) ≡ true
unfolding itoa
lacks-itoa n = digits-lacks (n + 1) n "" refl
