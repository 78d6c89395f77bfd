-- ===== src/Feasibility/Cloud/Results.antt =====
-- What Check returns for the cloud fork.
use yage.Prelude.{
  ap, String, ◌≡◌, refl, ◌⊎◌, inl, inr, true, false, Option, some, List, [], ◌∷◌, if◌then◌else◌,
  map, lookup, insert, All,
}
use mathlib.Core.Option
use yage.Config.{Config}
use yage.Float.{Float, IsIeee}
use yage.Feasibility.{Shape}
use yage.Feasibility.Verdict.{free_tier_table}
use yage.Feasibility.Price.{Prices, CheapInstance, cheap_instances, region_for, price_provider}
use yage.Feasibility.Cloud.{
  price_all, catalog_row, verdict_of, names_of, add_free_tiers, free_tier_row, post_headroom_of,
}
use yage.Feasibility.Cloud.Cheapest.{Among, IsCandidate, recommend-IsBest}
use yage.Feasibility.Cloud.Floor.{IsFloor, lower_all-IsFloor, price_of, price_all-floor}
use mathlib.Core.Path.{sym, subst}

module _ (f : Float) (laws : IsIeee f) where
  open f use {F, lit, inf, lt}

  -- Either 0, when no positive price is below infinity, or the least positive price.
  abbrev pub IsLeastPrice : List (Option F) → F → Type 0
  IsLeastPrice found least =
      ((least ≡ lit 0 1)
        × ((x : F) → Among (some x) found → lt (lit 0 1) x ≡ true → lt x inf ≡ false))
      ⊎ (Among (some least) found
          × (lt (lit 0 1) least ≡ true)
          × ((x : F) → Among (some x) found → lt (lit 0 1) x ≡ true → lt x least ≡ false))

  pub IsFloor-IsLeastPrice :
      (found : List (Option F)) (r : F)
      → IsFloor f laws found inf r
      → IsLeastPrice found (if f.is_inf r then lit 0 1 else r)
  IsFloor-IsLeastPrice found r least = elim least.kept [
    | inl e ↦
        inl (
          rw (e, laws.inf_is_inf) refl,
          λ x a p. subst (λ b. lt x b ≡ false) e (least.minimal x a p),
        )
    | inr (a, p, l) ↦ inr (rw (laws.lt_not_inf r inf l) (a, p, least.minimal))
  ]

module _ (f : Float) (laws : IsIeee f) (prices : Prices f.F) (cfg : Config f.F) (sh : Shape) where
  open f use {F, lit, inf, lt}

  -- The recommendation is empty when no provider of the catalog is comfortable at a positive price
  -- below infinity. Otherwise it is such a provider, and no other such provider is cheaper.
  pub recommended-cheapest :
      let v = verdict_of f prices cfg sh in
      let names = names_of cheap_instances in
      ((v.recommended ≡ "")
        × ((n : String) (x : F)
            → Among n names
            → IsCandidate f laws v.per_provider n x
            → lt x inf ≡ false))
      ⊎ ((c : F) × Among v.recommended names
          × IsCandidate f laws v.per_provider v.recommended c
          × ((n : String) (x : F)
              → Among n names
              → IsCandidate f laws v.per_provider n x
              → lt x c ≡ false))
  unfolding verdict_of
  recommended-cheapest =
      let rows = (verdict_of f prices cfg sh).per_provider in
      let best = recommend-IsBest f laws rows (names_of cheap_instances) ("", inf) in
      elim best.kept [
        | inl e ↦ inl (
          ap (λ (t : String × F). t.0) e,
          λ n x a c. subst (λ (t : String × F). lt x t.1 ≡ false) e (best.minimal n x a c),
        )
        | inr (a, c, _) ↦ inr (_, a, c, best.minimal)
      ]

  -- The absolute floor is 0 when the catalog has no positive price below infinity. Otherwise it is
  -- the price of a provider of the catalog, and no positive price is lower.
  pub absolute_floor-cheapest :
      IsLeastPrice f laws
        (map (price_of f prices cfg sh) cheap_instances)
        (verdict_of f prices cfg sh).absolute_floor
  unfolding verdict_of
  absolute_floor-cheapest =
      let found = map (price_of f prices cfg sh) cheap_instances in
      let same =
        price_all-floor f prices cfg sh (post_headroom_of f cfg.budget_usd_month) inf []
          cheap_instances in
      subst (λ r. IsLeastPrice f laws found (if f.is_inf r then lit 0 1 else r)) (sym same)
        (IsFloor-IsLeastPrice f laws found _ (lower_all-IsFloor f laws inf found))

module _ (f : Float) (prices : Prices f.F) (cfg : Config f.F) (sh : Shape) where
  -- Every provider of the catalog has the row that its price gives, and the free tiers of the
  -- others have theirs.
  pub per_provider_rows :
      let rows = (verdict_of f prices cfg sh).per_provider in
      All
        (λ (e : String × CheapInstance).
          lookup e.0 rows
          ≡ some (
              catalog_row f e.0 sh
                (post_headroom_of f cfg.budget_usd_month)
                cfg.budget_usd_month
                (price_provider f prices e.0 e.1 (region_for e.0 cfg e.1.region) sh)))
        cheap_instances
      × All
          (λ (n : String).
            (lookup n rows) ≡ Option.map (λ q. free_tier_row f q sh) (lookup n free_tier_table))
          ("digitalocean" ∷ "linode" ∷ "oci" ∷ [])
  unfolding verdict_of price_all add_free_tiers lookup insert
  per_provider_rows = ((refl, (refl, (refl, (refl, tt)))), (refl, (refl, (refl, tt))))
