-- ===== src/Float/Thousandths.antt =====
-- An instance of the interface that runs: naturals counting thousandths, with rounding down, the
-- negative integers sent to zero, and one value above all for infinity.
use native.Mathlib.Nat.{div-le_of_le-mul, div-zero, le-div_iff_mul-le, div-mul-le_self, le_trans}
use yage.Prelude.{
  ℕ, suc, ◌+◌, ◌*◌, ◌/◌, ◌≡◌, ◌≤◌, refl, zero, Bool, true, false, ℤ, pos, pos_part, Option, some,
  none, leb, ltb, arith,
}
use yage.Float.{Float, IsIeee}

abbrev pub Amount : Type 0
Amount = Option ℕ

abbrev lift : (ℕ → ℕ → ℕ) → Amount → Amount → Amount
lift f (some a) (some b) = some (f a b)
lift f _ _ = none

abbrev amount_le : Amount → Amount → Bool
amount_le _ none = true
amount_le none (some b) = false
amount_le (some a) (some b) = leb a b

abbrev amount_lt : Amount → Amount → Bool
amount_lt none _ = false
amount_lt (some a) none = true
amount_lt (some a) (some b) = ltb a b

abbrev whole : Amount → ℤ
whole none = pos 0
whole (some a) = pos (a / 1000)

abbrev whole_up : Amount → ℤ
whole_up none = pos 0
whole_up (some a) = pos ((a + 999) / 1000)

abbrev pub thousandths : Float
thousandths = record {
  F = Amount;
  lit = λ n d. some (1000 * n / d);
  inf = none;
  of_int = λ a. some (1000 * pos_part a);
  add = lift (λ a b. a + b);
  mul = lift (λ a b. a * b / 1000);
  div = lift (λ a b. 1000 * a / b);
  le = amount_le;
  lt = amount_lt;
  is_inf = elim [ none ↦ true | some _ ↦ false ];
  trunc = whole;
  ceil = whole_up;
}

div_one_le : (n d : ℕ) → n ≤ suc d → 1000 * n / suc d ≤ 1000
div_one_le n d h = div-le_of_le-mul (suc d) (omega arith)

div-le-div : (a b c : ℕ) → a ≤ b → a / c ≤ b / c
div-le-div a b zero h = rw (div-zero, div-zero) (omega arith)
div-le-div a b (suc c) h =
    (le-div_iff_mul-le (omega arith)).1 (le_trans (div-mul-le_self a (suc c)) h)

amount_div_mono :
    (x y : Amount) (d : ℕ)
    → amount_le x y ≡ true
    → amount_le (lift (λ a b. 1000 * a / b) x (some d)) (lift (λ a b. 1000 * a / b) y (some d))
      ≡ true
amount_div_mono none none d h = refl
amount_div_mono none (some b) d h = cc
amount_div_mono (some a) none d h = refl
amount_div_mono (some a) (some b) d h =
    ground (arith, div-le-div (1000 * a) (1000 * b) d (ground arith))

pub thousandths-IsIeee : IsIeee thousandths
thousandths-IsIeee = record {
  le_trans = ground arith;
  le_refl_left = ground arith;
  le_refl_right = ground arith;
  lt-eq-not-le = ground arith;
  lt_le = ground arith;
  lt_trans = ground arith;
  inf_num = refl;
  inf_is_inf = refl;
  lt_not_inf = ground arith;
  lit_pos = λ n d. ground arith;
  lit_le_one = λ n d h. ground (arith, div_one_le n d h);
  of_int_mono = ground arith;
  div_mono = λ x y d _ h. amount_div_mono x y (1000 * pos_part d) h;
  div_pos = ground arith;
  le-add = ground arith;
}
