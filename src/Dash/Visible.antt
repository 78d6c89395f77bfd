-- ===== src/Dash/Visible.antt =====
-- The visible fields, as a list, and what of the model they depend on.
use yage.Prelude.{
  ℕ, zero, suc, ◌+◌, ◌≤◌, false, some, List, [], ◌∷◌, eqb, get_elem?, ◌≡◌, refl, arith, All,
  Bool-cases, Option-cases, inl, inr, ap, ◌∙◌,
}
use yage.Dash.{DashModel, is_hidden, visible_from, focus_on, index_of}
use mathlib.Core.Path.{subst}

pub get_elem?-All :
    {A : Type 0} (P : A → Type 0) (xs : List A) (i : ℕ) (x : A)
    → All P xs
    → get_elem? xs i ≡ some x
    → P x
get_elem?-All P [] i x a h = absurd (ground (arith, h))
get_elem?-All P (y ∷ ys) zero x a h = let e : y ≡ x = cc h in subst P e a.0
get_elem?-All P (y ∷ ys) (suc i) x a h = get_elem?-All P ys i x a.1 h

module _ {R : Type 0} where
  pub visible_from-visible :
      (m : DashModel R) (rounds start : ℕ)
      → All (λ (x : ℕ). is_hidden m x ≡ false) (visible_from m rounds start)
  unfolding visible_from
  visible_from-visible m zero start = tt
  visible_from-visible m (suc rounds) start = elim (Bool-cases (is_hidden m start)) [
    | inl e ↦ rw e (visible_from-visible m rounds (start + 1))
    | inr e ↦ rw e (e, visible_from-visible m rounds (start + 1))
  ]

  pub visible_from-from :
      (m : DashModel R) (rounds start : ℕ)
      → All (λ (x : ℕ). start ≤ x) (visible_from m rounds start)
  unfolding visible_from
  visible_from-from m zero start = tt
  visible_from-from m (suc rounds) start =
      let later =
        All-weaken start (visible_from m rounds (start + 1))
          (visible_from-from m rounds (start + 1)) in
      elim (Bool-cases (is_hidden m start)) [
        | inl e ↦ rw e later
        | inr e ↦ rw e (omega arith, later)
      ]
    where
      All-weaken : (s : ℕ) (xs : List ℕ) → All (λ (x : ℕ). s + 1 ≤ x) xs → All (λ (x : ℕ). s ≤ x) xs
      All-weaken s [] a = tt
      All-weaken s (x ∷ xs) a = let h = a.0 in (omega arith, All-weaken s xs a.1)

  pub is_hidden-focus_on :
      (fid x : ℕ) (m : DashModel R) → is_hidden (focus_on fid m) x ≡ is_hidden m x
  unfolding is_hidden focus_on
  is_hidden-focus_on fid x m = refl

  pub mode_visible : (m : DashModel R) → is_hidden m 0 ≡ false
  unfolding is_hidden
  mode_visible m = refl

pub index_of-get_elem? :
    (x : ℕ) (xs : List ℕ) (i : ℕ) → index_of x xs ≡ some i → get_elem? xs i ≡ some x
unfolding index_of
index_of-get_elem? x [] i h = absurd (ground (arith, h))
index_of-get_elem? x (y ∷ ys) zero h = elim (Bool-cases (eqb y x)) [
  | inl e ↦ ground (arith, e)
  | inr e ↦ elim (Option-cases (index_of x ys)) [
    | inl n ↦ absurd (ground (arith, h, e, n))
    | inr (j, n) ↦ absurd (ground (arith, h, e, n))
  ]
]
index_of-get_elem? x (y ∷ ys) (suc i) h = elim (Bool-cases (eqb y x)) [
  | inl e ↦ absurd (ground (arith, h, e))
  | inr e ↦ elim (Option-cases (index_of x ys)) [
    | inl n ↦ absurd (ground (arith, h, e, n))
    | inr (j, n) ↦
        let same : j ≡ i = ground (arith, h, e, n) in index_of-get_elem? x ys i (n ∙ ap some same)
  ]
]
