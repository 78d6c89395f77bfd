-- ===== src/Prelude/Sorted.antt =====
-- Go's sort.Strings: texts in the order of their bytes, which is that of their code points.
use Prim.Native.Nat.{ℕ, Ordering, compare as compare_ℕ}
use Prim.Native.Char.{code}
use Prim.Native.String.{String, compare, then as and_then}
use Prim.Native.String.compare
use mathlib.Core.Path.{subst, ◌≡◌, refl, ap, sym, ◌∙◌}
use mathlib.Core.Logic.{inl, inr}
use mathlib.Core.Bool.{Bool, true, false, ◌||◌}
use mathlib.Core.List.{List, [], ◌∷◌}
use native.Mathlib.Omega.{arith}
use text.Mathlib.Text.{◌==◌}
use yage.Prelude.Tests.{if◌then◌else◌, Bool-cases}
use yage.Prelude.Maps.{contains}

abbrev pub is_at_most : Ordering → Bool
is_at_most Ordering.gt = false
is_at_most _ = true

-- a ≤ b for texts
abbrev pub text_leb : String → String → Bool
text_leb a b = is_at_most (compare a b)

unfoldable pub insert_sorted : String → List String → List String
insert_sorted x [] = x ∷ []
insert_sorted x (y ∷ ys) =
    let rest = insert_sorted x ys in if text_leb x y then x ∷ y ∷ ys else y ∷ rest

unfoldable pub sort : List String → List String
sort [] = []
sort (x ∷ xs) = insert_sorted x (sort xs)

flip : Ordering → Ordering
flip Ordering.lt = Ordering.gt
flip Ordering.eq = Ordering.eq
flip Ordering.gt = Ordering.lt

flip-then : (a b : Ordering) → flip (and_then a b) ≡ and_then (flip a) (flip b)
unfolding flip
flip-then Ordering.lt b = refl
flip-then Ordering.eq b = refl
flip-then Ordering.gt b = refl

compare_ℕ-flip : (m n : ℕ) → compare_ℕ n m ≡ flip (compare_ℕ m n)
unfolding flip
compare_ℕ-flip m n = ground arith

compare-flip : (s t : String) → compare t s ≡ flip (compare s t)
unfolding flip
compare-flip String.[] String.[] = compare.nil-nil ∙ ap flip (sym compare.nil-nil)
compare-flip String.[] (String.◌∷◌ d t) =
    compare.cons-nil d t ∙ ap flip (sym (compare.nil-cons d t))
compare-flip (String.◌∷◌ c s) String.[] =
    compare.nil-cons c s ∙ ap flip (sym (compare.cons-nil c s))
compare-flip (String.◌∷◌ c s) (String.◌∷◌ d t) =
    compare.cons-cons d c t s
    ∙ cc (compare_ℕ-flip (code c) (code d), compare-flip s t)
    ∙ sym (flip-then (compare_ℕ (code c) (code d)) (compare s t))
    ∙ ap flip (sym (compare.cons-cons c d s t))

text_leb-total : (x y : String) → text_leb x y ≡ false → text_leb y x ≡ true
unfolding flip
text_leb-total x y h = ground (arith, compare-flip x y)

-- Each text is at most the next.
abbrev pub IsSorted : List String → Type 0
IsSorted [] = Unit
IsSorted (x ∷ []) = Unit
IsSorted (x ∷ y ∷ ys) = (text_leb x y ≡ true) × IsSorted (y ∷ ys)

insert_sorted-IsSorted :
    (x : String) (ys : List String) → IsSorted ys → IsSorted (insert_sorted x ys)
unfolding insert_sorted
insert_sorted-IsSorted x [] s = tt
insert_sorted-IsSorted x (y ∷ []) s = elim (Bool-cases (text_leb x y)) [
  | inl h ↦ rw h (h, tt)
  | inr h ↦ rw h (text_leb-total x y h, tt)
]
insert_sorted-IsSorted x (y ∷ z ∷ zs) s = elim (Bool-cases (text_leb x y)) [
  | inl h ↦ rw h (h, s)
  | inr h ↦
      let rest = insert_sorted-IsSorted x (z ∷ zs) s.1 in
      rw h (elim (Bool-cases (text_leb x z)) [
        | inl k ↦ rw k (text_leb-total x y h, (k, s.1))
        | inr k ↦
            rw k
              (s.0, subst (λ b. IsSorted (if b then x ∷ z ∷ zs else z ∷ insert_sorted x zs)) k rest)
      ])
]

pub sort-IsSorted : (xs : List String) → IsSorted (sort xs)
unfolding sort
sort-IsSorted [] = tt
sort-IsSorted (x ∷ xs) = insert_sorted-IsSorted x (sort xs) (sort-IsSorted xs)

insert_sorted-contains :
    (x : String) (ys : List String) (t : String)
    → contains (insert_sorted x ys) t ≡ (x == t || contains ys t)
unfolding insert_sorted contains
insert_sorted-contains x [] t = refl
insert_sorted-contains x (y ∷ ys) t = ground (arith, insert_sorted-contains x ys t)

pub sort-contains : (xs : List String) (t : String) → contains (sort xs) t ≡ contains xs t
unfolding sort contains
sort-contains [] t = refl
sort-contains (x ∷ xs) t =
    insert_sorted-contains x (sort xs) t ∙ ap (λ b. x == t || b) (sort-contains xs t)
