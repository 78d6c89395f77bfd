-- ===== src/Feasibility/Cloud/Cheapest.antt =====
-- The loop that picks the recommended provider, as a search for a minimum.
use yage.Prelude.{
  String, ◌≡◌, refl, ◌⊎◌, inl, inr, true, false, ◌&&◌, Option, none, some, List, [], ◌∷◌, Map,
  lookup, arith, Bool-cases,
}
use yage.Float.{Float, IsIeee}
use yage.Feasibility.Verdict.{comfortable, ProviderVerdict}
use yage.Feasibility.Cloud.{take_cheaper, recommend, when_comfortable}
use mathlib.Core.Path.{subst}

-- Whether an item stands in a list.
abbrev pub Among : {A : Type 0} → A → List A → Type 0
Among a [] = ⊥
Among a (x ∷ xs) = (a ≡ x) ⊎ Among a xs

module _ (f : Float) (laws : IsIeee f) where
  open f use {F, lit, inf, lt}

  -- A comfortable provider, with what it costs.
  pub record IsCandidate (rows : Map (ProviderVerdict F)) (name : String) (cost : F) : Type 0 where
    pub row : ProviderVerdict F
    pub found : lookup name rows ≡ some row
    pub is_comfortable : row.verdict ≡ comfortable
    pub cost_eq : row.min_cost ≡ cost
    pub cost_pos : lt (lit 0 1) cost ≡ true

  lt_irrefl : (x y : F) → lt x y ≡ true → lt y y ≡ false
  lt_irrefl x y h =
      let n = laws.le_refl_right x y (laws.lt_le x y h) in ground (arith, laws.lt-eq-not-le y y n n)

  -- Taking a cheaper row either keeps the best, which no candidate of that name undercuts, or
  -- moves to a candidate that is cheaper.
  take_cheaper-cases :
      (rows : Map (ProviderVerdict F)) (name : String) (best : String × F)
      → let next = take_cheaper f name (lookup name rows) best in
        ((next ≡ best) × ((x : F) → IsCandidate rows name x → lt x best.1 ≡ false))
        ⊎ ((next.0 ≡ name) × IsCandidate rows name next.1 × (lt next.1 best.1 ≡ true))
  take_cheaper-cases rows name best = go (lookup name rows) refl
    where
      go :
          (o : Option (ProviderVerdict F))
          → lookup name rows ≡ o
          → let next = take_cheaper f name o best in
            ((next ≡ best) × ((x : F) → IsCandidate rows name x → lt x best.1 ≡ false))
            ⊎ ((next.0 ≡ name) × IsCandidate rows name next.1 × (lt next.1 best.1 ≡ true))
      go none e = inl (unfold take_cheaper in refl, λ x c. cc (e, c.found))
      go (some pv) e =
          elim (Bool-cases
            (when_comfortable pv.verdict && (lt (lit 0 1) pv.min_cost && lt pv.min_cost best.1))) [
              | inl h ↦ inr (
                  unfold take_cheaper in
                  rw h (
                    refl,
                    record {
                      row = pv;
                      found = e;
                      is_comfortable = ground arith;
                      cost_eq = refl;
                      cost_pos = ground arith;
                    },
                    ground arith,
                  ))
              | inr h ↦ inl (
                unfold take_cheaper in rw h refl,
                λ x c. ground (arith, e, c.found, c.is_comfortable, c.cost_eq, c.cost_pos),
              )
            ]

  -- The best of a list of names, from a best so far.
  pub record IsBest (rows : Map (ProviderVerdict F)) (names : List String)
      (best result : String × F) : Type 0 where
    pub kept :
        (result ≡ best)
        ⊎ (Among result.0 names × IsCandidate rows result.0 result.1 × (lt result.1 best.1 ≡ true))
    pub minimal :
        (n : String) (x : F) → Among n names → IsCandidate rows n x → lt x result.1 ≡ false

  module _ (rows : Map (ProviderVerdict F)) (name : String) (names : List String) where
    IsBest-keep :
        (best result : String × F)
        → ((x : F) → IsCandidate rows name x → lt x best.1 ≡ false)
        → IsBest rows names best result
        → IsBest rows (name ∷ names) best result
    IsBest-keep best result cheap ih = record {
      kept = elim ih.kept [ inl e ↦ inl e | inr (a, c, l) ↦ inr (inr a, c, l) ];
      minimal = λ n x a c. elim a [
        | inl e ↦
            let here = cheap x (subst (λ m. IsCandidate rows m x) e c) in
            elim ih.kept [
              | inl same ↦ rw same here
              | inr (_, _, l) ↦ ground (arith, laws.lt_trans x result.1 best.1, here, l)
            ]
        | inr b ↦ ih.minimal n x b c
      ];
    }

    IsBest-move :
        (best next result : String × F)
        → next.0 ≡ name
        → IsCandidate rows name next.1
        → lt next.1 best.1 ≡ true
        → IsBest rows names next result
        → IsBest rows (name ∷ names) best result
    IsBest-move best next result moved cand less ih = record {
      kept = elim ih.kept [
        | inl e ↦ inr (rw e (inl moved, rw moved cand, less))
        | inr (a, c, l) ↦ inr (inr a, c, laws.lt_trans _ _ _ l less)
      ];
      minimal = λ n x a c. elim a [
        | inl e ↦
            let c' = subst (λ m. IsCandidate rows m x) e c in
            let same : x ≡ next.1 =
              ground (arith, c'.found, cand.found, c'.cost_eq, cand.cost_eq) in
            let irrefl = lt_irrefl (lit 0 1) next.1 cand.cost_pos in
            elim ih.kept [
              | inl there ↦ rw (same, there) irrefl
              | inr (_, _, l) ↦
                  rw same (ground (arith, laws.lt_trans next.1 result.1 next.1, irrefl, l))
            ]
        | inr b ↦ ih.minimal n x b c
      ];
    }

  pub recommend-IsBest :
      (rows : Map (ProviderVerdict F)) (names : List String) (best : String × F)
      → IsBest rows names best (recommend f rows names best)
  unfolding recommend
  recommend-IsBest rows [] best = record { kept = inl refl; minimal = λ n x a _. absurd a }
  recommend-IsBest rows (name ∷ names) best =
      let next = take_cheaper f name (lookup name rows) best in
      let ih = recommend-IsBest rows names next in
      let result = recommend f rows names next in
      elim (take_cheaper-cases rows name best) [
        | inl (same, cheap) ↦
            IsBest-keep rows name names best result cheap
              (subst (λ b. IsBest rows names b result) same ih)
        | inr (moved, cand, less) ↦ IsBest-move rows name names best next result moved cand less ih
      ]
