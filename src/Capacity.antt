-- ===== src/Capacity.antt =====
-- internal/cluster/capacity/capacity.go: the resource plan of the configured clusters.
pub mod Check
pub mod Totals
mod Examples
use yage.Prelude.{
  ℕ, String, Bool, Option, none, some, List, [], ◌∷◌, ◌++◌, ℤ, pos, leb_ℤ, ltb_ℤ, add64, mul64,
  if◌then◌else◌, ◌||◌, Map, false,
}
use yage.Text.{codes, trim_space, atoi}
use yage.Config.{Config, Role}

pub record PlanItem : Type 0 where
  pub name : String
  pub replicas : ℤ
  pub cpu_cores : ℤ
  pub memory_mib : ℤ
  pub disk_gb : ℤ

pub record Plan : Type 0 where
  pub cpu_cores : ℤ
  pub memory_mib : ℤ
  pub storage_gb : ℤ
  pub items : List PlanItem

pub record HostCapacity : Type 0 where
  pub nodes : List String
  pub cpu_cores : ℤ
  pub memory_mib : ℤ
  pub storage_gb : ℤ
  pub storage_by : Map ℤ

pub record ExistingUsage : Type 0 where
  pub vm_count : ℤ
  pub cpu_cores : ℤ
  pub memory_mib : ℤ
  pub storage_gb : ℤ
  pub by_pool : Map ℤ

unfoldable pub total : PlanItem → ℤ × ℤ × ℤ
total p = (mul64 p.cpu_cores p.replicas, mul64 p.memory_mib p.replicas, mul64 p.disk_gb p.replicas)

abbrev or_default : Option ℤ → ℤ → ℤ
or_default none def = def
or_default (some n) def = n

-- The test for an empty text is covered: Atoi refuses it.
unfoldable pub atoi_or : String → ℤ → ℤ
unfolding trim_space atoi
atoi_or s def = or_default (atoi (trim_space (codes s))) def

abbrev pub empty_plan : Plan
empty_plan = record { cpu_cores = pos 0; memory_mib = pos 0; storage_gb = pos 0; items = [] }

-- The end of the closure `add` of both plans.
pub add_item : Plan → PlanItem → Plan
unfolding total
add_item p item =
    if leb_ℤ item.replicas (pos 0)
    then p
    else let (cpu, m, d) = total item in
      record {
        cpu_cores = add64 p.cpu_cores cpu;
        memory_mib = add64 p.memory_mib m;
        storage_gb = add64 p.storage_gb d;
        items = p.items ++ item ∷ [];
      }

pub sized_item : String → ℤ → Role → PlanItem
sized_item name replicas r = record {
  name = name;
  replicas = replicas;
  cpu_cores = mul64 (atoi_or r.num_sockets (pos 1)) (atoi_or r.num_cores (pos 1));
  memory_mib = atoi_or r.memory_mib (pos 0);
  disk_gb = atoi_or r.boot_volume_size (pos 0);
}

abbrev pub k3s_cp_cores : ℤ
k3s_cp_cores = pos 2

abbrev pub k3s_cp_mem_mib : ℤ
k3s_cp_mem_mib = pos 1024

abbrev pub k3s_cp_disk_gb : ℤ
k3s_cp_disk_gb = pos 20

abbrev pub k3s_worker_mem : ℤ
k3s_worker_mem = pos 1024

abbrev pub k3s_worker_disk : ℤ
k3s_worker_disk = pos 15

pub k3s_item : String → ℤ → ℤ → ℤ → ℤ → PlanItem
k3s_item name replicas cpu mem disk = record {
  name = name;
  replicas = replicas;
  cpu_cores = cpu;
  memory_mib = mem;
  disk_gb = disk;
}

module _ {F : Type 0} where
  pub plan_for : Config F → Plan
  plan_for cfg =
      let wcp = atoi_or cfg.control_plane_machine_count (pos 1) in
      let wwk = atoi_or cfg.worker_machine_count (pos 0) in
      let p = add_item empty_plan (sized_item "workload control-plane" wcp cfg.control_plane) in
      let q = add_item p (sized_item "workload worker" wwk cfg.worker) in
      if cfg.pivot_enabled
      then (let mcp = atoi_or cfg.mgmt_control_plane_machine_count (pos 1) in
          let mwk = atoi_or cfg.mgmt_worker_machine_count (pos 0) in
          let r = add_item q (sized_item "mgmt control-plane" mcp cfg.mgmt_control_plane) in
          add_item r (sized_item "mgmt worker" mwk cfg.worker))
      else q

  pub plan_for_k3s : Config F → Plan
  plan_for_k3s cfg =
      let wcp = atoi_or cfg.control_plane_machine_count (pos 1) in
      let wwk = atoi_or cfg.worker_machine_count (pos 0) in
      let p =
        add_item empty_plan (
          k3s_item "workload control-plane (k3s)" wcp k3s_cp_cores k3s_cp_mem_mib k3s_cp_disk_gb) in
      let q =
        add_item p
          (k3s_item "workload worker (k3s)" wwk k3s_cp_cores k3s_worker_mem k3s_worker_disk) in
      if cfg.pivot_enabled
      then (let mcp = atoi_or cfg.mgmt_control_plane_machine_count (pos 1) in
          let mwk = atoi_or cfg.mgmt_worker_machine_count (pos 0) in
          let r =
            add_item q (
              k3s_item "mgmt control-plane (k3s)" mcp k3s_cp_cores k3s_cp_mem_mib k3s_cp_disk_gb) in
          add_item r (k3s_item "mgmt worker (k3s)" mwk k3s_cp_cores k3s_worker_mem k3s_worker_disk))
      else q

-- Host pointers may be nil in this method only.
pub is_small_env : Option HostCapacity → Bool
is_small_env none = false
is_small_env (some h) = ltb_ℤ h.cpu_cores (pos 8) || ltb_ℤ h.memory_mib (mul64 (pos 16) (pos 1024))
