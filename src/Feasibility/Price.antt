-- ===== src/Feasibility/Price.antt =====
-- internal/feasibility/feasibility.go: what the projected cluster costs at one provider. The live
-- prices of internal/pricing are a parameter; `none` is an error of theirs.
use yage.Prelude.{
  String, Option, none, some, List, [], ◌∷◌, ◌==◌, ℤ, pos, leb_ℤ, add64, mul64, if◌then◌else◌,
}
use yage.Config.{Config}
use yage.Float.{Float}
use yage.Feasibility.{Shape, workers_for}
use yage.Feasibility.Verdict.{Reason, unavailable, priced}

pub record Prices (F : Type 0) : Type 0 where
  -- the price for a month of vendor, SKU and region
  pub fetch : String → String → String → Option F
  pub hetzner_volume_usd_per_gb_month : Option F
  pub azure_managed_disk_usd_per_gb_month : String → String → Option F
  pub aws_egress_usd_per_gb : String → Option F

pub record CheapInstance : Type 0 where
  pub sku : String
  pub cores : ℤ
  pub mem_mib : ℤ
  pub region : String
  pub pricing_vendor : String

-- In the order of the sorted names, in which Check goes through the table.
abbrev pub cheap_instances : List (String × CheapInstance)
cheap_instances =
    (
      "aws",
      record {
        sku = "t3.medium";
        cores = pos 2;
        mem_mib = pos 4096;
        region = "us-east-1";
        pricing_vendor = "aws";
      },
    )
    ∷ (
      "azure",
      record {
        sku = "Standard_D2s_v3";
        cores = pos 2;
        mem_mib = pos 8192;
        region = "eastus";
        pricing_vendor = "azure";
      },
    )
    ∷ (
      "gcp",
      record {
        sku = "n2-standard-2";
        cores = pos 2;
        mem_mib = pos 8192;
        region = "us-central1";
        pricing_vendor = "gcp";
      },
    )
    ∷ (
      "hetzner",
      record {
        sku = "cx23";
        cores = pos 2;
        mem_mib = pos 4096;
        region = "fsn1";
        pricing_vendor = "hetzner";
      },
    )
    ∷ []

abbrev nonempty_or : String → String → String
nonempty_or r fallback = if r == "" then fallback else r

unfoldable pub region_for : {F : Type 0} → String → Config F → String → String
region_for name cfg fallback =
    if name == "aws"
    then nonempty_or cfg.aws_region fallback
    else if name == "azure"
    then nonempty_or cfg.azure_location fallback
    else if name == "gcp"
    then nonempty_or cfg.gcp_region fallback
    else fallback

module _ (f : Float) (prices : Prices f.F) where
  open f use {F, lit, of_int, add, mul}

  -- An amount at a rate, free where the rate is unknown.
  abbrev at_rate : ℤ → Option F → F
  at_rate gb none = lit 0 1
  at_rate gb (some rate) = mul (of_int gb) rate

  unfoldable pub storage_cost_for : String → String → ℤ → F
  storage_cost_for name region db_gb =
      if leb_ℤ db_gb (pos 0)
      then lit 0 1
      else if name == "aws"
      then at_rate db_gb (prices.fetch "aws" "ebs:gp3" region)
      else if name == "gcp"
      then at_rate db_gb (prices.fetch "gcp" "pd:balanced" region)
      else if name == "hetzner"
      then at_rate db_gb prices.hetzner_volume_usd_per_gb_month
      else if name == "azure"
      then at_rate db_gb
          (prices.azure_managed_disk_usd_per_gb_month region "Standard SSD Managed Disks")
      else lit 0 1

  unfoldable pub egress_cost_for : String → String → ℤ → F
  egress_cost_for name region gb =
      if leb_ℤ gb (pos 0)
      then lit 0 1
      else if name == "aws"
      then at_rate gb (prices.aws_egress_usd_per_gb region)
      else lit 0 1

  unfoldable pub total_nodes : CheapInstance → Shape → ℤ
  unfolding workers_for
  total_nodes entry sh =
      add64 sh.cp_nodes (workers_for sh (mul64 entry.cores (pos 1000)) entry.mem_mib)

  -- The cost, if the instance has a price, and the reason.
  unfoldable pub price_provider : String → CheapInstance → String → Shape → Option F × Reason
  unfolding total_nodes storage_cost_for egress_cost_for
  price_provider name entry region sh = elim (prices.fetch entry.pricing_vendor entry.sku region) [
    | none ↦ (none, unavailable entry.sku region)
    | some month ↦ (
      some (
          add
            (add (mul (of_int (total_nodes entry sh)) month)
              (storage_cost_for name region sh.db_gb))
            (egress_cost_for name region sh.egress_gb)),
      priced (total_nodes entry sh) entry.sku sh.db_gb sh.egress_gb region,
    )
  ]
