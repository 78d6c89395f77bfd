-- ===== src/Float.antt =====
-- float64 as an interface: the operations that the code uses, and the laws of IEEE 754 arithmetic
-- that the theorems rely on. A constant of the source is `lit n d`, the float nearest to n / d.
-- NaN is the value that is not `≼` itself. Int64 conversions toward integers give ℤ.
pub mod Thousandths
use yage.Prelude.{ℕ, suc, ◌≤◌, ◌≡◌, Bool, true, false, ℤ, pos, leb_ℤ, ltb_ℤ, not}

pub record Float : Type 1 where
  pub F : Type 0
  pub lit : ℕ → ℕ → F
  pub inf : F
  pub of_int : ℤ → F
  pub add : F → F → F
  pub mul : F → F → F
  pub div : F → F → F
  pub le : F → F → Bool
  pub lt : F → F → Bool
  pub is_inf : F → Bool
  -- `int64(x)` and `int64(math.Ceil(x))`
  pub trunc : F → ℤ
  pub ceil : F → ℤ

-- x <= y
abbrev pub IsLe : (f : Float) → f.F → f.F → Type 0
IsLe f x y = f.le x y ≡ true

pub record IsIeee (f : Float) : Type 0 where
  pub le_trans : (x y z : f.F) → IsLe f x y → IsLe f y z → IsLe f x z
  pub le_refl_left : (x y : f.F) → IsLe f x y → IsLe f x x
  pub le_refl_right : (x y : f.F) → IsLe f x y → IsLe f y y
  -- among numbers, the order is total and `<` is its strict part
  pub lt-eq-not-le : (x y : f.F) → IsLe f x x → IsLe f y y → f.lt x y ≡ not (f.le y x)
  pub lt_le : (x y : f.F) → f.lt x y ≡ true → IsLe f x y
  pub lt_trans : (x y z : f.F) → f.lt x y ≡ true → f.lt y z ≡ true → f.lt x z ≡ true
  pub inf_num : IsLe f f.inf f.inf
  pub inf_is_inf : f.is_inf f.inf ≡ true
  pub lt_not_inf : (x y : f.F) → f.lt x y ≡ true → f.is_inf x ≡ false
  pub lit_pos : (n d : ℕ) → IsLe f (f.lit 0 1) (f.lit n (suc d))
  pub lit_le_one : (n d : ℕ) → n ≤ suc d → IsLe f (f.lit n (suc d)) (f.lit 1 1)
  -- conversions, and rounding after each operation, are monotone
  pub of_int_mono : (a b : ℤ) → leb_ℤ a b ≡ true → IsLe f (f.of_int a) (f.of_int b)
  pub div_mono :
      (x y : f.F) (d : ℤ)
      → ltb_ℤ (pos 0) d ≡ true
      → IsLe f x y
      → IsLe f (f.div x (f.of_int d)) (f.div y (f.of_int d))
  pub div_pos :
      (x : f.F) (n d : ℕ)
      → IsLe f (f.lit 0 1) x
      → IsLe f (f.lit 0 1) (f.div x (f.lit (suc n) (suc d)))
  pub le-add : (x y : f.F) → IsLe f (f.lit 0 1) x → IsLe f (f.lit 0 1) y → IsLe f x (f.add x y)
