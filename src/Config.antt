-- ===== src/Config.antt =====
-- internal/config/config.go: the fields of Config that the modelled components read. `F` is the
-- type of floats.
pub mod Sample
use yage.Prelude.{String, Bool, List, ℤ}

-- A Proxmox machine role: its sockets, cores, memory and boot volume, as the flags give them.
pub record Role : Type 0 where
  pub num_sockets : String
  pub num_cores : String
  pub memory_mib : String
  pub boot_volume_size : String

pub record AppGroup : Type 0 where
  pub count : ℤ
  pub template : String
  pub custom_cores : ℤ
  pub custom_mem_mib : ℤ

pub record WorkloadShape : Type 0 where
  pub apps : List AppGroup
  pub database_gb : ℤ
  pub egress_gb_month : ℤ
  pub resilience : String
  pub environment : String
  pub has_queue : Bool
  pub has_obj_store : Bool
  pub has_cache : Bool

pub record Config (F : Type 0) : Type 0 where
  pub infra_provider : String
  pub airgapped : Bool
  pub pivot_enabled : Bool
  pub control_plane_machine_count : String
  pub worker_machine_count : String
  pub mgmt_control_plane_machine_count : String
  pub mgmt_worker_machine_count : String
  pub control_plane : Role
  pub worker : Role
  pub mgmt_control_plane : Role
  pub csi_drivers : List String
  pub workload : WorkloadShape
  pub aws_region : String
  pub azure_location : String
  pub gcp_region : String
  pub budget_usd_month : F
  pub resource_budget_fraction : F
  pub overcommit_tolerance_pct : F
  pub hardware_cost_usd : F
  pub hardware_useful_life_years : F
  pub hardware_watts : F
  pub hardware_kwh_rate_usd : F
  pub hardware_support_usd_month : F
