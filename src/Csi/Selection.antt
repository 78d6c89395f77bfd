-- ===== src/Csi/Selection.antt =====
-- Which drivers Selector picks, and in which order.
use yage.Prelude.{
  String, Bool, not, ◌&&◌, Option, none, some, List, [], ◌∷◌, Map, lookup, contains, ◌==◌, ◌≡◌,
  refl, eq_iff, arith, ap, sym, ◌∙◌, Bool-cases, inl, inr, filter,
}
use yage.Config.{Config}
use yage.Csi.{get, found_or, registered, with_found, select_from, chosen_names, selector}

-- Each name once, where it stands first.
abbrev pub first_occurrences : List String → List String
first_occurrences [] = []
first_occurrences (n ∷ ns) = n ∷ filter (λ m. not (n == m)) (first_occurrences ns)

module _ {A : Type 0} where
  abbrev pub add_some : Option A → List A → List A
  add_some none xs = xs
  add_some (some x) xs = x ∷ xs

module _ {D : Type 0} where
  -- The values of those keys that there are.
  abbrev pub values_at : Map D → List String → List D
  values_at m [] = []
  values_at m (n ∷ ns) = add_some (lookup n m) (values_at m ns)

filter-filter :
    (p q r : String → Bool) (xs : List String)
    → ((x : String) → r x ≡ (q x && p x))
    → filter p (filter q xs) ≡ filter r xs
filter-filter p q r [] h = refl
filter-filter p q r (x ∷ xs) h = ground (arith, h x, filter-filter p q r xs h)

filter_all : (xs : List String) → filter (λ n. not (contains [] n)) xs ≡ xs
unfolding contains
filter_all [] = refl
filter_all (x ∷ xs) = ap (◌∷◌ x) (filter_all xs)

module _ {D : Type 0} (m : Map D) where
  with_found-add_some :
      (n : String) (ds : List D) → with_found (get m n) ds ≡ add_some (lookup n m) ds
  unfolding get found_or with_found
  with_found-add_some n ds = go (lookup n m)
    where
      go : (o : Option D) → with_found (found_or n (registered m) o) ds ≡ add_some o ds
      go none = refl
      go (some d) = refl

  select_from-values_at :
      (seen ns : List String)
      → select_from m seen ns
        ≡ values_at m (filter (λ n. not (contains seen n)) (first_occurrences ns))
  unfolding select_from contains
  select_from-values_at seen [] = refl
  select_from-values_at seen (n ∷ ns) = elim (Bool-cases (contains seen n)) [
    | inl h ↦
        let same =
          filter-filter (λ x. not (contains seen x)) (λ x. not (n == x))
            (λ x. not (contains seen x)) (first_occurrences ns)
            (λ x. ground (arith, eq_iff n x, h)) in
        rw h (select_from-values_at seen ns ∙ ap (values_at m) (sym same))
    | inr h ↦
        let less =
          filter-filter (λ x. not (contains seen x)) (λ x. not (n == x))
            (λ x. not (contains (n ∷ seen) x)) (first_occurrences ns) (λ x. ground arith) in
        rw h (
          with_found-add_some n _
          ∙ ap (add_some (lookup n m))
              (select_from-values_at (n ∷ seen) ns ∙ ap (values_at m) (sym less)))
  ]

  -- Selector gives the registered drivers of the names that the configuration has, or of the
  -- provider's defaults if it has none, in the order in which the names stand first, each once.
  pub selector-values_at :
      {F : Type 0} (cfg : Config F)
      → selector m cfg ≡ values_at m (first_occurrences (chosen_names cfg))
  unfolding selector
  selector-values_at cfg =
      let names = first_occurrences (chosen_names cfg) in
      select_from-values_at [] (chosen_names cfg) ∙ ap (values_at m) (filter_all names)
