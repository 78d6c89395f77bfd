-- ===== src/Feasibility/Cloud.antt =====
-- internal/feasibility/feasibility.go: Check, the cloud fork of the gate.
pub mod Cheapest
pub mod Floor
pub mod Results
use yage.Prelude.{
  String, Bool, true, false, not, ◌&&◌, Option, none, some, List, [], ◌∷◌, ◌++◌, Map, lookup,
  insert, if◌then◌else◌, map,
}
use yage.Config.{Config}
use yage.Float.{Float}
use yage.Feasibility.{Shape, project_shape}
use yage.Feasibility.Verdict.{
  FeasibilityVerdict, comfortable, infeasible, ProviderVerdict, Verdict, FreeTierQuota,
  free_tier_table, fits_free_tier, free_tier_only, Blocking, floor_exceeded, quota_fits,
  verdict_for, collect_blocking_reasons, Reason,
}
use yage.Feasibility.Price.{Prices, CheapInstance, cheap_instances, region_for, price_provider}

abbrev pub fits_tier : Option FreeTierQuota → Shape → Bool
fits_tier none sh = false
fits_tier (some q) sh = quota_fits q sh

abbrev pub cliff_of : Option FreeTierQuota → String
cliff_of none = ""
cliff_of (some q) = q.cliff

abbrev pub when_comfortable : FeasibilityVerdict → Bool
when_comfortable comfortable = true
when_comfortable _ = false

module _ (f : Float) where
  open f use {F, lit, mul, lt}

  -- The row of a provider of the catalog, from its price.
  pub catalog_row : String → Shape → F → F → Option F × Reason → ProviderVerdict F
  catalog_row name sh post_headroom budget (none, reason) = record {
    verdict = infeasible;
    min_cost = lit 0 1;
    reason = reason;
    free_tier_fit = false;
    free_tier_cliff = "";
  }
  catalog_row name sh post_headroom budget (some min_cost, reason) = record {
    verdict = verdict_for f min_cost post_headroom budget;
    min_cost = min_cost;
    reason = reason;
    free_tier_fit = fits_tier (lookup name free_tier_table) sh;
    free_tier_cliff = cliff_of (lookup name free_tier_table);
  }

  -- A row without a price leaves the floor alone.
  pub lower_floor : F → Option F → F
  lower_floor floor none = floor
  lower_floor floor (some min_cost) =
      if lt (lit 0 1) min_cost && lt min_cost floor then min_cost else floor

  pub free_tier_row : FreeTierQuota → Shape → ProviderVerdict F
  free_tier_row quota sh =
      let fit = quota_fits quota sh in
      record {
        verdict = if fit then comfortable else infeasible;
        min_cost = lit 0 1;
        reason = if fit then fits_free_tier else free_tier_only;
        free_tier_fit = fit;
        free_tier_cliff = quota.cliff;
      }

  -- The providers that have a free tier alone.
  pub add_free_tiers :
      Shape → Map (ProviderVerdict F) → List (String × FreeTierQuota) → Map (ProviderVerdict F)
  add_free_tiers sh rows [] = rows
  add_free_tiers sh rows ((name, quota) ∷ rest) =
      add_free_tiers sh
        (elim (lookup name rows) [
          | some _ ↦ rows
          | none ↦ insert name (free_tier_row quota sh) rows
        ])
        rest

  pub take_cheaper : String → Option (ProviderVerdict F) → String × F → String × F
  take_cheaper name none best = best
  take_cheaper name (some pv) (rec_name, rec_cost) =
      if when_comfortable pv.verdict && (lt (lit 0 1) pv.min_cost && lt pv.min_cost rec_cost)
      then (name, pv.min_cost)
      else (rec_name, rec_cost)

  pub recommend : Map (ProviderVerdict F) → List String → String × F → String × F
  recommend rows [] best = best
  recommend rows (name ∷ names) best =
      recommend rows names (take_cheaper name (lookup name rows) best)

  -- budget × (1 - DefaultHeadroomPct), a constant of 0.8
  pub post_headroom_of : F → F
  post_headroom_of budget = mul budget (lit 80 100)

abbrev pub names_of : List (String × CheapInstance) → List String
names_of = map (λ (e : String × CheapInstance). e.0)

module _ (f : Float) (prices : Prices f.F) where
  open f use {F, lit, inf, lt, is_inf}

  -- The loop over the catalog, which fills the rows and lowers the floor.
  pub price_all :
      Config F
      → Shape
      → F
      → Map (ProviderVerdict F)
      → F
      → List (String × CheapInstance)
      → Map (ProviderVerdict F) × F
  price_all cfg sh post_headroom rows floor [] = (rows, floor)
  price_all cfg sh post_headroom rows floor ((name, entry) ∷ rest) =
      let region = region_for name cfg entry.region in
      let price = price_provider f prices name entry region sh in
      let pv = catalog_row f name sh post_headroom cfg.budget_usd_month price in
      price_all cfg sh post_headroom (insert name pv rows) (lower_floor f floor price.0) rest

  pub verdict_of : Config F → Shape → Verdict F
  verdict_of cfg sh =
      let budget = cfg.budget_usd_month in
      let (priced_rows, floor) =
        price_all cfg sh (post_headroom_of f budget) [] inf cheap_instances in
      let rows = add_free_tiers f sh priced_rows free_tier_table in
      let absolute_floor = if is_inf floor then lit 0 1 else floor in
      let (rec_name, rec_cost) = recommend f rows (names_of cheap_instances) ("", inf) in
      let over = lt (lit 0 1) budget && (lt (lit 0 1) absolute_floor && lt budget absolute_floor) in
      record {
        per_provider = rows;
        recommended = rec_name;
        absolute_floor = absolute_floor;
        blocking_reasons =
            collect_blocking_reasons f sh cfg
            ++ (if over then floor_exceeded absolute_floor budget ∷ [] else []);
      }

  -- `none` for either is what gives ErrNotApplicable.
  pub check : Option (Config F) → Option (Verdict F)
  check none = none
  check (some cfg) = elim (project_shape f cfg) [ none ↦ none | some sh ↦ some (verdict_of cfg sh) ]
