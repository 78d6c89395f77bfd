-- ===== src/Config/Sample.antt =====
-- A configuration for the examples, over floats that count thousandths.
use yage.Prelude.{true, false, [], ◌∷◌, pos, some}
use yage.Float.Thousandths.{Amount}
use yage.Config.{Config, Role, WorkloadShape}

abbrev small_role : Role
small_role = record {
  num_sockets = "1";
  num_cores = "2";
  memory_mib = "4096";
  boot_volume_size = "40";
}

abbrev pub shop : WorkloadShape
shop = record {
  apps =
      record { count = pos 3; template = "heavy"; custom_cores = pos 0; custom_mem_mib = pos 0 }
      ∷ [];
  database_gb = pos 20;
  egress_gb_month = pos 0;
  resilience = "single";
  environment = "prod";
  has_queue = false;
  has_obj_store = false;
  has_cache = false;
}

abbrev pub sample : Config Amount
sample = record {
  infra_provider = "aws";
  airgapped = false;
  pivot_enabled = true;
  control_plane_machine_count = "3";
  worker_machine_count = " 2";
  mgmt_control_plane_machine_count = "";
  mgmt_worker_machine_count = "none";
  control_plane = small_role;
  worker = small_role;
  mgmt_control_plane = small_role;
  csi_drivers = [];
  workload = shop;
  aws_region = "";
  azure_location = "westeurope";
  gcp_region = "";
  budget_usd_month = some 300_000;
  resource_budget_fraction = some 0;
  overcommit_tolerance_pct = some 0;
  hardware_cost_usd = some 0;
  hardware_useful_life_years = some 0;
  hardware_watts = some 0;
  hardware_kwh_rate_usd = some 0;
  hardware_support_usd_month = some 0;
}
