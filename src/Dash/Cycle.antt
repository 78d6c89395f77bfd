-- ===== src/Dash/Cycle.antt =====
-- Positions in a list of increasing numbers, and one step around it.
use yage.Prelude.{
  ℕ, zero, suc, ◌+◌, ◌-◌, ◌%◌, ◌<◌, ◌≤◌, Bool, true, false, not, Option, none, some, List, [], ◌∷◌,
  eqb, length, get_elem?, ◌≡◌, refl, arith, All, Bool-cases, inl, inr, ap, sym, ◌∙◌, ◌⊎◌,
}
use mathlib.Core.Option
use native.Mathlib.Nat.{mod-lt, mod-eq_of_lt, mod_self, add-mod_right}
use yage.Dash.{ltb, index_of, next_position}
use yage.Dash.Visible.{get_elem?-All, index_of-get_elem?}

abbrev pub IsIncreasing : List ℕ → Type 0
IsIncreasing [] = Unit
IsIncreasing (x ∷ xs) = All (λ (y : ℕ). x + 1 ≤ y) xs × IsIncreasing xs

pub index_of-position :
    (xs : List ℕ) (i x : ℕ) → IsIncreasing xs → get_elem? xs i ≡ some x → index_of x xs ≡ some i
unfolding index_of
index_of-position [] i x inc h = absurd (ground (arith, h))
index_of-position (y ∷ ys) zero x inc h =
    let e : y ≡ x = cc h in let same : eqb y x ≡ true = ground (arith, e) in rw same refl
index_of-position (y ∷ ys) (suc i) x inc h =
    let above : y + 1 ≤ x = get_elem?-All (λ z. y + 1 ≤ z) ys i x inc.0 h in
    let other : eqb y x ≡ false = ground (arith, above) in
    rw other (ap (Option.map suc) (index_of-position ys i x inc.1 h))

pub index_of-lt : (x : ℕ) (xs : List ℕ) (i : ℕ) → index_of x xs ≡ some i → i < length xs
unfolding index_of
index_of-lt x xs i h = within xs i (index_of-get_elem? x xs i h)
  where
    within : (xs : List ℕ) (i : ℕ) → get_elem? xs i ≡ some x → i < length xs
    within [] i h = absurd (ground (arith, h))
    within (y ∷ ys) zero h = omega arith
    within (y ∷ ys) (suc i) h = let r = within ys i h in omega arith

pub next_position-lt :
    (forward : Bool) (n : ℕ) (o : Option ℕ) → 0 < n → next_position forward n o < n
unfolding next_position
next_position-lt forward n none h = h
next_position-lt true n (some i) h = mod-lt (i + 1) h
next_position-lt false n (some i) h = mod-lt (i + n - 1) h

up : (n i : ℕ) → i < n → ((i + 1 < n) × ((i + 1) % n ≡ i + 1)) ⊎ ((i + 1 ≡ n) × ((i + 1) % n ≡ 0))
up n i h = elim (Bool-cases (ltb (i + 1) n)) [
  | inl e ↦ let lt : i + 1 < n = ground (arith, e) in inl (lt, mod-eq_of_lt lt)
  | inr e ↦ let eq : i + 1 ≡ n = ground (arith, e, h) in inr (eq, ap (λ k. k % n) eq ∙ mod_self n)
]

wrapped : (n i : ℕ) → i < n → (i + n) % n ≡ i
wrapped n i h = add-mod_right i n ∙ mod-eq_of_lt h

down :
    (n i : ℕ)
    → i < n
    → ((0 < i) × ((i + n - 1) % n ≡ i - 1)) ⊎ ((i ≡ 0) × ((i + n - 1) % n ≡ n - 1))
down n zero h = inr (
  refl,
  let e : zero + n - 1 ≡ n - 1 = omega arith in ap (λ k. k % n) e ∙ mod-eq_of_lt (omega arith),
)
down n (suc i) h =
    let e : suc i + n - 1 ≡ i + n = omega arith in
    let p : suc i - 1 ≡ i = omega arith in
    inl (omega arith, ap (λ k. k % n) e ∙ wrapped n i (omega arith) ∙ sym p)

-- One step each way, within the list.
pub next_position-back :
    (forward : Bool) (n i : ℕ)
    → i < n
    → next_position (not forward) n (some (next_position forward n (some i))) ≡ i
unfolding next_position
next_position-back true n i h = elim (up n i h) [
  | inl (lt, e) ↦
      let s : i + 1 + n - 1 ≡ i + n = omega arith in
      ap (λ k. (k + n - 1) % n) e ∙ ap (λ k. k % n) s ∙ wrapped n i h
  | inr (eq, e) ↦
      let s : 0 + n - 1 ≡ i = omega arith in
      ap (λ k. (k + n - 1) % n) e ∙ ap (λ k. k % n) s ∙ mod-eq_of_lt h
]
next_position-back false n i h = elim (down n i h) [
  | inl (pos, e) ↦
      let s : i - 1 + 1 ≡ i = omega arith in
      ap (λ k. (k + 1) % n) e ∙ ap (λ k. k % n) s ∙ mod-eq_of_lt h
  | inr (z, e) ↦
      let s : n - 1 + 1 ≡ n = omega arith in
      ap (λ k. (k + 1) % n) e ∙ ap (λ k. k % n) s ∙ mod_self n ∙ sym z
]
