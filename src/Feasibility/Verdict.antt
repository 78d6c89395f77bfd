-- ===== src/Feasibility/Verdict.antt =====
-- internal/feasibility/feasibility.go: verdicts, free-tier quotas and blocking reasons. The texts
-- made by fmt.Sprintf are values that hold their arguments.
use yage.Prelude.{
  String, Bool, true, false, ◌&&◌, ◌||◌, List, [], ◌∷◌, ◌++◌, ◌==◌, ℤ, pos, leb_ℤ, ltb_ℤ, Map,
  if◌then◌else◌,
}
use yage.Config.{Config}
use yage.Float.{Float}
use yage.Feasibility.{Shape, atoi_or}

pub data FeasibilityVerdict : Type 0 where
  comfortable tight infeasible : FeasibilityVerdict

-- FeasibilityVerdict.String
pub show : FeasibilityVerdict → String
show comfortable = "comfortable"
show tight = "tight"
show infeasible = "infeasible"

pub data Reason : Type 0 where
  -- live pricing unavailable, for a SKU in a region
  unavailable : String → String → Reason
  -- nodes, SKU, storage and egress in GB, region
  priced : ℤ → String → ℤ → ℤ → String → Reason
  free_tier_only fits_free_tier no_inventory capacity_message : Reason

pub data Blocking (F : Type 0) : Type 0 where
  prod_requires_ha : String → Blocking F
  ha_requires_three : ℤ → Blocking F
  egress_unset : Blocking F
  floor_exceeded : F → F → Blocking F

pub record ProviderVerdict (F : Type 0) : Type 0 where
  pub verdict : FeasibilityVerdict
  pub min_cost : F
  pub reason : Reason
  pub free_tier_fit : Bool
  pub free_tier_cliff : String

pub record Verdict (F : Type 0) : Type 0 where
  pub per_provider : Map (ProviderVerdict F)
  pub recommended : String
  pub absolute_floor : F
  pub blocking_reasons : List (Blocking F)

pub record FreeTierQuota : Type 0 where
  pub max_cp_nodes : ℤ
  pub max_worker_nodes : ℤ
  pub max_db_gb : ℤ
  pub cliff : String

abbrev no_quota : String → FreeTierQuota
no_quota cliff = record {
  max_cp_nodes = pos 0;
  max_worker_nodes = pos 0;
  max_db_gb = pos 0;
  cliff = cliff;
}

-- The order of the table does not matter, as its keys differ.
abbrev pub free_tier_table : Map FreeTierQuota
free_tier_table =
    (
      "oci",
      record {
        max_cp_nodes = pos 1;
        max_worker_nodes = pos 1;
        max_db_gb = pos 20;
        cliff = "+1 worker or +20 GB DB";
      },
    )
    ∷ ("linode", no_quota "no always-free compute (60-day $100 credit only)")
    ∷ ("digitalocean", no_quota "no always-free compute (60-day $200 credit only)")
    ∷ ("hetzner", no_quota "no always-free compute (hourly billing from t=0)")
    ∷ []

unfoldable pub quota_fits : FreeTierQuota → Shape → Bool
quota_fits q sh =
    if leb_ℤ q.max_cp_nodes (pos 0)
    then false
    else if ltb_ℤ q.max_cp_nodes sh.cp_nodes
    then false
    else if ltb_ℤ q.max_db_gb sh.db_gb
    then false
    else true

unfoldable pub or_default : String → String → String
or_default s def = if s == "" then def else s

abbrev when {ℓ} : {A : Type ℓ} → Bool → A → List A
when true a = a ∷ []
when false a = []

module _ (f : Float) where
  open f use {F, lit, mul, le, lt}

  -- ComfortableThreshold is 0.60 and TightThreshold 0.90.
  unfoldable pub verdict_for : F → F → F → FeasibilityVerdict
  verdict_for min_cost post_headroom budget =
      if le budget (lit 0 1) || le post_headroom (lit 0 1)
      then comfortable
      else if le min_cost (mul post_headroom (lit 60 100))
      then comfortable
      else if le min_cost (mul post_headroom (lit 90 100))
      then tight
      else infeasible

  -- What both forks check of the resilience.
  unfoldable pub resilience_reasons : Shape → Config F → List (Blocking F)
  unfolding or_default atoi_or
  resilience_reasons sh cfg =
      let got = atoi_or cfg.control_plane_machine_count (pos 0) in
      when (sh.environment == "prod" && (sh.resilience == "" || sh.resilience == "single"))
        (prod_requires_ha (or_default sh.resilience "single"))
      ++ when
          ((sh.resilience == "ha" || sh.resilience == "ha-mr")
            && (ltb_ℤ (pos 0) got && ltb_ℤ got (pos 3)))
          (ha_requires_three got)

  unfoldable pub collect_blocking_reasons : Shape → Config F → List (Blocking F)
  collect_blocking_reasons sh cfg =
      resilience_reasons sh cfg
      ++ when
          (lt (lit 0 1) cfg.budget_usd_month
            && (leb_ℤ sh.egress_gb (pos 0) && leb_ℤ (pos 0) sh.egress_gb))
          egress_unset

  unfoldable pub collect_on_prem_blocking_reasons : Shape → Config F → List (Blocking F)
  collect_on_prem_blocking_reasons = resilience_reasons
