-- ===== src/Feasibility/OnPrem.antt =====
-- internal/feasibility/onprem.go: the on-prem fork of the gate. The text of the capacity check,
-- which a row has as its reason, is the mark `capacity_message`.
use yage.Prelude.{
  String, ◌≡◌, refl, Bool, true, false, ◌&&◌, Option, none, some, List, [], ◌∷◌, ℤ, pos, add64,
  mul64, Map, lookup, insert, if◌then◌else◌, All, arith,
}
use yage.Config.{Config}
use yage.Float.{Float}
use yage.Capacity.{Plan, HostCapacity}
use yage.Capacity.Check
use yage.Feasibility.{Shape, project_shape, workers_for}
use yage.Feasibility.Verdict.{
  FeasibilityVerdict, comfortable, tight, infeasible, ProviderVerdict, Verdict, no_inventory,
  capacity_message, collect_on_prem_blocking_reasons,
}

abbrev node_cores : ℤ
node_cores = pos 2

abbrev node_mem_mib : ℤ
node_mem_mib = pos 4096

abbrev node_disk_gb : ℤ
node_disk_gb = pos 40

abbrev pub on_prem_names : List String
on_prem_names = "docker" ∷ "openstack" ∷ "proxmox" ∷ "vsphere" ∷ []

-- The plan that stands for the shape: control planes and workers of one size.
unfoldable pub plan_of : Shape → Plan
plan_of sh =
    let workers = workers_for sh (mul64 node_cores (pos 1000)) node_mem_mib in
    let nodes = add64 sh.cp_nodes workers in
    record {
      cpu_cores = mul64 nodes node_cores;
      memory_mib = mul64 nodes node_mem_mib;
      storage_gb = add64 (mul64 nodes node_disk_gb) sh.db_gb;
      items =
          record {
            name = "control-plane";
            replicas = sh.cp_nodes;
            cpu_cores = node_cores;
            memory_mib = node_mem_mib;
            disk_gb = node_disk_gb;
          }
          ∷ record {
            name = "worker";
            replicas = workers;
            cpu_cores = node_cores;
            memory_mib = node_mem_mib;
            disk_gb = add64 node_disk_gb sh.db_gb;
          }
          ∷ [];
    }

unfoldable pub of_capacity : Check.Verdict → FeasibilityVerdict
of_capacity Check.fits = comfortable
of_capacity Check.tight = tight
of_capacity Check.abort = infeasible

abbrev is_comfortable : FeasibilityVerdict → Bool
is_comfortable comfortable = true
is_comfortable _ = false

module _ (f : Float) where
  open f use {F, lit, add, mul, div, lt}

  unfoldable pub monthly_tco : Config F → F
  monthly_tco cfg =
      let amort =
        if lt (lit 0 1) cfg.hardware_cost_usd && lt (lit 0 1) cfg.hardware_useful_life_years
        then div cfg.hardware_cost_usd (mul cfg.hardware_useful_life_years (lit 12 1))
        else lit 0 1 in
      let electricity =
        mul (mul (mul cfg.hardware_watts (lit 1 1000)) (lit 720 1)) cfg.hardware_kwh_rate_usd in
      add (add amort electricity) cfg.hardware_support_usd_month

  -- The row of a provider, with the host's inventory if there is one.
  unfoldable pub on_prem_row : Config F → Shape → Option HostCapacity → ProviderVerdict F
  on_prem_row cfg sh none = record {
    verdict = infeasible;
    min_cost = monthly_tco cfg;
    reason = no_inventory;
    free_tier_fit = false;
    free_tier_cliff = "";
  }
  on_prem_row cfg sh (some host) = record {
    verdict =
        of_capacity
          (Check.check_combined f (plan_of sh) host none cfg.resource_budget_fraction
            cfg.overcommit_tolerance_pct).0;
    min_cost = monthly_tco cfg;
    reason = capacity_message;
    free_tier_fit = false;
    free_tier_cliff = "";
  }

  pub fill_rows :
      Config F
      → Shape
      → Option HostCapacity
      → Map (ProviderVerdict F)
      → List String
      → Map (ProviderVerdict F)
  fill_rows cfg sh host rows [] = rows
  fill_rows cfg sh host rows (name ∷ names) =
      fill_rows cfg sh host (insert name (on_prem_row cfg sh host) rows) names

  -- The loop that stops at the first comfortable provider; a missing row reads as the zero value,
  -- which is comfortable.
  pub first_comfortable : Map (ProviderVerdict F) → List String → String
  first_comfortable rows [] = ""
  first_comfortable rows (name ∷ names) = elim (lookup name rows) [
    | none ↦ name
    | some pv ↦ if is_comfortable pv.verdict then name else first_comfortable rows names
  ]

  pub on_prem_verdict : Config F → Shape → Option HostCapacity → Verdict F
  on_prem_verdict cfg sh host =
      let rows = fill_rows cfg sh host [] on_prem_names in
      record {
        per_provider = rows;
        recommended = first_comfortable rows on_prem_names;
        absolute_floor = monthly_tco cfg;
        blocking_reasons = collect_on_prem_blocking_reasons f sh cfg;
      }

  pub check_on_prem : Option (Config F) → Option HostCapacity → Option (Verdict F)
  check_on_prem none host = none
  check_on_prem (some cfg) host = elim (project_shape f cfg) [
    | none ↦ none
    | some sh ↦ some (on_prem_verdict cfg sh host)
  ]

  -- Every on-prem provider has the same row, and the recommendation is the first name of the list
  -- or none at all, as the verdict of that row is comfortable or not.
  pub on_prem_verdict-uniform :
      (cfg : Config F) (sh : Shape) (host : Option HostCapacity)
      → let v = on_prem_verdict cfg sh host in
        let row = on_prem_row cfg sh host in
        All (λ (name : String). lookup name v.per_provider ≡ some row) on_prem_names
        × (v.recommended ≡ (if is_comfortable row.verdict then "docker" else ""))
  unfolding on_prem_verdict fill_rows first_comfortable lookup insert
  on_prem_verdict-uniform cfg sh host = ((refl, (refl, (refl, (refl, tt)))), ground arith)
