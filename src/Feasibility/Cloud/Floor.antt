-- ===== src/Feasibility/Cloud/Floor.antt =====
-- The loop that lowers the floor, apart from the rows that the same loop fills.
use yage.Prelude.{
  sym, ◌∙◌, String, ◌≡◌, refl, ◌⊎◌, inl, inr, true, false, ◌&&◌, Option, none, some, List, [], ◌∷◌,
  Map, arith, Bool-cases, foldl, map,
}
use yage.Config.{Config}
use yage.Float.{Float, IsIeee}
use yage.Feasibility.{Shape}
use yage.Feasibility.Verdict.{ProviderVerdict}
use yage.Feasibility.Price.{Prices, CheapInstance, region_for, price_provider}
use yage.Feasibility.Cloud.{catalog_row, insert, price_all, lower_floor}
use yage.Feasibility.Cloud.Cheapest.{Among}
use mathlib.Core.Option.{some-injective}
use mathlib.Core.Path.{subst}

module _ (f : Float) (laws : IsIeee f) where
  open f use {F, lit, inf, lt}

  -- `result` is the least of `floor` and the positive prices.
  pub record IsFloor (prices : List (Option F)) (floor result : F) : Type 0 where
    pub kept :
        (result ≡ floor)
        ⊎ (Among (some result) prices × (lt (lit 0 1) result ≡ true) × (lt result floor ≡ true))
    pub minimal : (x : F) → Among (some x) prices → lt (lit 0 1) x ≡ true → lt x result ≡ false

  lower_floor-cases :
      (floor : F) (price : Option F)
      → let next = lower_floor f floor price in
        ((next ≡ floor) × ((x : F) → some x ≡ price → lt (lit 0 1) x ≡ true → lt x floor ≡ false))
        ⊎ ((some next ≡ price) × (lt (lit 0 1) next ≡ true) × (lt next floor ≡ true))
  unfolding lower_floor
  lower_floor-cases floor none = inl (refl, λ x e _. cc)
  lower_floor-cases floor (some p) = elim (Bool-cases (lt (lit 0 1) p && lt p floor)) [
    | inl h ↦ inr (rw h (refl, ground arith, ground arith))
    | inr h ↦ inl (rw h refl, λ x e pos. ground arith)
  ]

  lt-asym : (x y : F) → lt x y ≡ true → lt y x ≡ false
  lt-asym x y h =
      let num = laws.lt_le x y h in
      ground
        (arith, laws.lt-eq-not-le y x (laws.le_refl_right x y num) (laws.le_refl_left x y num), num)

  lt_irrefl : (x y : F) → lt x y ≡ true → lt y y ≡ false
  lt_irrefl x y h =
      let n = laws.le_refl_right x y (laws.lt_le x y h) in ground (arith, laws.lt-eq-not-le y y n n)

  pub lower_all-IsFloor :
      (floor : F) (prices : List (Option F))
      → IsFloor prices floor (foldl (lower_floor f) floor prices)
  lower_all-IsFloor floor [] = record { kept = inl refl; minimal = λ x a _. absurd a }
  lower_all-IsFloor floor (price ∷ prices) =
      let next = lower_floor f floor price in
      let result = foldl (lower_floor f) next prices in
      let ih = lower_all-IsFloor next prices in
      elim (lower_floor-cases floor price) [
        | inl (same, cheap) ↦ record {
          kept = elim ih.kept [
            | inl e ↦ inl (e ∙ same)
            | inr (a, p, l) ↦ inr (inr a, p, subst (λ b. lt result b ≡ true) same l)
          ];
          minimal = λ x a pos. elim a [
            | inl e ↦
                let here = cheap x e pos in
                elim ih.kept [
                  | inl there ↦ rw (there, same) here
                  | inr (_, _, l) ↦ ground (
                    arith,
                    laws.lt_trans x result floor,
                    here,
                    subst (λ b. lt result b ≡ true) same l,
                  )
                ]
            | inr b ↦ ih.minimal x b pos
          ];
        }
        | inr (this, p0, less) ↦ record {
          kept = elim ih.kept [
            | inl e ↦ inr (rw e (inl this, p0, less))
            | inr (a, p, l) ↦ inr (inr a, p, laws.lt_trans _ _ _ l less)
          ];
          minimal = λ x a pos. elim a [
            | inl e ↦
                let same : x ≡ next = some-injective _ _ (e ∙ sym this) in
                elim ih.kept [
                  | inl there ↦ rw (same, there) (lt_irrefl (lit 0 1) next p0)
                  | inr (_, _, l) ↦ rw same (lt-asym result next l)
                ]
            | inr b ↦ ih.minimal x b pos
          ];
        }
      ]

module _ (f : Float) (prices : Prices f.F) (cfg : Config f.F) (sh : Shape) where
  abbrev pub price_of : String × CheapInstance → Option f.F
  price_of (name, entry) =
      (price_provider f prices name entry (region_for name cfg entry.region) sh).0

  pub price_all-floor :
      (headroom floor : f.F) (rows : Map (ProviderVerdict f.F))
      (entries : List (String × CheapInstance))
      → (price_all f prices cfg sh headroom rows floor entries).1
        ≡ foldl (lower_floor f) floor (map price_of entries)
  unfolding price_all
  price_all-floor headroom floor rows [] = refl
  price_all-floor headroom floor rows ((name, entry) ∷ rest) =
      let price = price_provider f prices name entry (region_for name cfg entry.region) sh in
      price_all-floor headroom (lower_floor f floor price.0)
        (insert name (catalog_row f name sh headroom cfg.budget_usd_month price) rows) rest
