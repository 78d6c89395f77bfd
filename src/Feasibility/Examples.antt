-- ===== src/Feasibility/Examples.antt =====
-- The theorems about the feasibility gate at concrete inputs.
use yage.Prelude.{
  arith, add64, mul64, div64, ◌≡◌, refl, ◌≤◌, ◌⊎◌, ◌*◌, true, false, String, none, some, pos, ◌==◌,
  if◌then◌else◌, map, ℕ,
}
use yage.Config.Sample.{sample}
use yage.Float.Thousandths.{Amount, thousandths, thousandths-IsIeee}
use yage.Feasibility.{
  div64, mul64, add64, cp_nodes_for, db_resources_for, template_of, app_resources_for, has_apps,
  Shape, project_shape, workers_for,
}
use yage.Feasibility.Price.{Prices, cheap_instances}
use yage.Feasibility.Cloud.{verdict_of, names_of}
use yage.Feasibility.Cloud.Cheapest.{Among, IsCandidate}
use yage.Feasibility.Cloud.Floor.{price_of}
use yage.Feasibility.Cloud.Results.{recommended-cheapest, absolute_floor-cheapest, IsLeastPrice}
use yage.Feasibility.Sizing.{workers_for-fewest}

abbrev shape : Shape
shape = record {
  required_cores = pos 7315;
  required_mem = pos 12258;
  cp_nodes = pos 1;
  db_gb = pos 20;
  egress_gb = pos 0;
  resilience = "single";
  environment = "prod";
  has_db = true;
  has_apps = true;
}

runs_of_project_shape : project_shape thousandths sample ≡ some shape
unfolding project_shape has_apps app_resources_for template_of db_resources_for cp_nodes_for add64
    mul64 div64
runs_of_project_shape = refl

-- Hetzner at $5 and AWS at $30 for a node and month, and no other price.
abbrev list_prices : Prices Amount
list_prices = record {
  fetch = λ vendor sku region.
      if vendor == "aws"
      then some (some 30_000)
      else if vendor == "hetzner"
      then some (some 5_000)
      else none;
  hetzner_volume_usd_per_gb_month = none;
  azure_managed_disk_usd_per_gb_month = λ region sku. none;
  aws_egress_usd_per_gb = λ region. none;
}

workers_for-fewest_example :
    (w : ℕ) × (workers_for shape (pos 2000) (pos 4096) ≡ pos w)
    × (1 ≤ w)
    × (7315 ≤ w * 2000)
    × (12258 ≤ w * 4096)
    × ((v : ℕ) → 1 ≤ v → 7315 ≤ v * 2000 → 12258 ≤ v * 4096 → w ≤ v)
workers_for-fewest_example =
    workers_for-fewest shape 7315 12258 1999 4095 refl refl (omega arith) (omega arith)

abbrev IsSampleCandidate : String → Amount → Type 0
IsSampleCandidate =
    IsCandidate thousandths thousandths-IsIeee
      (verdict_of thousandths list_prices sample shape).per_provider

recommended-cheapest_example :
    let v = verdict_of thousandths list_prices sample shape in
    let names = names_of cheap_instances in
    ((v.recommended ≡ "")
      × ((n : String) (x : Amount)
          → Among n names
          → IsSampleCandidate n x
          → thousandths.lt x thousandths.inf ≡ false))
    ⊎ ((c : Amount) × Among v.recommended names
        × IsSampleCandidate v.recommended c
        × ((n : String) (x : Amount)
            → Among n names
            → IsSampleCandidate n x
            → thousandths.lt x c ≡ false))
recommended-cheapest_example =
    recommended-cheapest thousandths thousandths-IsIeee list_prices sample shape

absolute_floor-cheapest_example :
    IsLeastPrice thousandths thousandths-IsIeee
      (map (price_of thousandths list_prices sample shape) cheap_instances)
      (verdict_of thousandths list_prices sample shape).absolute_floor
absolute_floor-cheapest_example =
    absolute_floor-cheapest thousandths thousandths-IsIeee list_prices sample shape
