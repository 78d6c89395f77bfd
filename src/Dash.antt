-- ===== src/Dash.antt =====
-- internal/ui/xapiri/dashboard_focus.go: which fields of the dashboard are visible, and how the focus
-- moves. Of the model of the dashboard it has what these functions read and change; a text input is
-- whether it has the focus. A position out of range, where the code panics, reads as the empty text
-- or as no field. `R` is the type of the rows of costs.
pub mod Fields
pub mod Visible
pub mod Cycle
pub mod Moves
pub mod Rows
pub mod Providers
mod Examples
use yage.Prelude.{
  ℕ, zero, suc, ◌+◌, ◌-◌, ◌%◌, String, Bool, true, false, not, ◌&&◌, ◌||◌, Option, none, some, List,
  [], ◌∷◌, ◌++◌, ◌==◌, eqb, ltb, if◌then◌else◌, length, get_elem?, filter, contains,
}
use mathlib.Core.Option
use yage.Dash.Fields.Options.{
  si_mode, si_provider, toi_queue, toi_obj_store, toi_cache, toi_airgapped, toi_tco,
}
use yage.Dash.Fields.FocusA.{
  foc_apps, foc_bootstrap, foc_cache_cpu, foc_cache_mem, foc_dbgb, foc_egress_gb, foc_env,
  foc_has_cache, foc_has_obj_store, foc_has_queue, foc_k8s_ver, foc_kind_name, foc_mode,
  foc_obj_cpu, foc_obj_mem, foc_obj_vol, foc_overcommit, foc_provider, foc_proxmox_admin_insecure,
  foc_proxmox_admin_token, foc_proxmox_admin_username, foc_proxmox_cp_count,
  foc_proxmox_default_tmpl, foc_proxmox_mgmt_cp_cores, foc_proxmox_mgmt_cp_count,
  foc_proxmox_mgmt_cp_disk_gb, foc_proxmox_mgmt_cp_mem_mib, foc_proxmox_mgmt_cp_tmpl,
  foc_proxmox_mgmt_pool, foc_proxmox_mgmt_worker_cores, foc_proxmox_mgmt_worker_count,
  foc_proxmox_mgmt_worker_disk_gb, foc_proxmox_mgmt_worker_mem_mib, foc_proxmox_mgmt_worker_tmpl,
  foc_proxmox_pool, foc_proxmox_url, foc_proxmox_wl_worker_cores, foc_proxmox_wl_worker_disk_gb,
  foc_proxmox_wl_worker_mem_mib, foc_proxmox_wl_worker_tmpl, foc_proxmox_wlcp_cores,
  foc_proxmox_wlcp_disk_gb, foc_proxmox_wlcp_mem_mib, foc_proxmox_wlcp_tmpl,
  foc_proxmox_worker_count, foc_queue_cpu, foc_queue_mem, foc_queue_vol, foc_resil,
  foc_workload_name,
}
use yage.Dash.Fields.FocusB.{
  foc_count, foc_airgapped, foc_argo_path, foc_argo_ref, foc_argo_url, foc_budget, foc_ca_bundle,
  foc_cert_mgr, foc_cnpg, foc_cp_endpoint_ip, foc_crossplane, foc_dc_loc, foc_dns_servers,
  foc_ext_secrets, foc_gateway, foc_grafana, foc_headroom, foc_helm_mirror, foc_hw_cost,
  foc_hw_support, foc_hw_watts, foc_hwkwh, foc_img_mirror, foc_ip_prefix, foc_issuing_ca_cert,
  foc_issuing_ca_key, foc_kyverno, foc_metrics, foc_mgmt_cp_endpoint_ip, foc_mgmt_node_ip_ranges,
  foc_node_ip_ranges, foc_otel, foc_registry_flavor, foc_registry_network, foc_registry_node,
  foc_registry_storage, foc_registry_vm_flav, foc_spire, foc_tco, foc_victoria,
}
use yage.Dash.Fields.Table.{FieldMeta, text, dash_fields}

pub record SelectState : Type 0 where
  pub options : List String
  pub cur : ℕ

abbrev pub or_empty : Option String → String
or_empty none = ""
or_empty (some t) = t

abbrev pub value : SelectState → String
value s = or_empty (get_elem? s.options s.cur)

pub next : SelectState → SelectState
next s = record s { cur = (s.cur + 1) % length s.options }

pub prev : SelectState → SelectState
prev s = record s { cur = (s.cur + length s.options - 1) % length s.options }

pub record DashModel (R : Type 0) : Type 0 where
  pub selects : ℕ → SelectState
  pub toggles : ℕ → Bool
  pub text_inputs : ℕ → Bool
  pub focus : ℕ
  pub cost_rows : List R
  -- cfg.ConfigName
  pub config_name : String

abbrev pub among : List ℕ → ℕ → Bool
among [] fid = false
among (x ∷ xs) fid = eqb x fid || among xs fid

module _ {R : Type 0} where
  pub is_cloud : DashModel R → Bool
  is_cloud m = value (m.selects si_mode) == "cloud"

  pub is_hidden : DashModel R → ℕ → Bool
  unfolding is_cloud
  is_hidden m fid =
      let cloud = is_cloud m in
      if among
        (foc_mode ∷ foc_provider ∷ foc_kind_name ∷ foc_k8s_ver ∷ foc_workload_name ∷ foc_env
          ∷ foc_resil ∷ foc_apps ∷ foc_dbgb ∷ foc_egress_gb ∷ [])
        fid
      then false
      else if among (foc_has_queue ∷ foc_has_obj_store ∷ foc_has_cache ∷ []) fid
      then not cloud
      else if among (foc_queue_cpu ∷ foc_queue_mem ∷ foc_queue_vol ∷ []) fid
      then not cloud || not (m.toggles toi_queue)
      else if among (foc_obj_cpu ∷ foc_obj_mem ∷ foc_obj_vol ∷ []) fid
      then not cloud || not (m.toggles toi_obj_store)
      else if among (foc_cache_cpu ∷ foc_cache_mem ∷ []) fid
      then not cloud || not (m.toggles toi_cache)
      else if among (foc_bootstrap ∷ foc_overcommit ∷ []) fid
      then cloud
      else if among
          (foc_proxmox_url ∷ foc_proxmox_admin_username ∷ foc_proxmox_admin_insecure
            ∷ foc_proxmox_admin_token ∷ foc_proxmox_default_tmpl ∷ foc_proxmox_wlcp_tmpl
            ∷ foc_proxmox_wlcp_cores ∷ foc_proxmox_wlcp_mem_mib ∷ foc_proxmox_wlcp_disk_gb
            ∷ foc_proxmox_wl_worker_tmpl ∷ foc_proxmox_wl_worker_cores
            ∷ foc_proxmox_wl_worker_mem_mib ∷ foc_proxmox_wl_worker_disk_gb
            ∷ foc_proxmox_mgmt_cp_tmpl ∷ foc_proxmox_mgmt_cp_cores ∷ foc_proxmox_mgmt_cp_mem_mib
            ∷ foc_proxmox_mgmt_cp_disk_gb ∷ foc_proxmox_mgmt_worker_tmpl
            ∷ foc_proxmox_mgmt_worker_cores ∷ foc_proxmox_mgmt_worker_mem_mib
            ∷ foc_proxmox_mgmt_worker_disk_gb ∷ foc_proxmox_pool ∷ foc_proxmox_mgmt_pool
            ∷ foc_proxmox_cp_count ∷ foc_proxmox_worker_count ∷ foc_proxmox_mgmt_cp_count
            ∷ foc_proxmox_mgmt_worker_count ∷ [])
          fid
      then not (value (m.selects si_provider) == "proxmox")
      else if among
          (foc_cp_endpoint_ip ∷ foc_node_ip_ranges ∷ foc_gateway ∷ foc_ip_prefix ∷ foc_dns_servers
            ∷ [])
          fid
      then cloud
      else if among (foc_mgmt_cp_endpoint_ip ∷ foc_mgmt_node_ip_ranges ∷ []) fid
      then cloud
      else if among (foc_argo_url ∷ foc_argo_path ∷ foc_argo_ref ∷ []) fid
      then false
      else if among (foc_airgapped ∷ []) fid
      then false
      else if among (foc_img_mirror ∷ foc_ca_bundle ∷ foc_helm_mirror ∷ []) fid
      then not (m.toggles toi_airgapped)
      else if among
          (foc_kyverno ∷ foc_cert_mgr ∷ foc_cnpg ∷ foc_crossplane ∷ foc_ext_secrets ∷ foc_otel
            ∷ foc_grafana ∷ foc_victoria ∷ foc_metrics ∷ foc_spire ∷ [])
          fid
      then false
      else if among (foc_dc_loc ∷ foc_budget ∷ foc_headroom ∷ []) fid
      then not cloud
      else if among (foc_tco ∷ []) fid
      then cloud
      else if among (foc_hw_cost ∷ foc_hw_watts ∷ foc_hwkwh ∷ foc_hw_support ∷ []) fid
      then cloud || not (m.toggles toi_tco)
      else if among
          (foc_registry_node ∷ foc_registry_vm_flav ∷ foc_registry_network ∷ foc_registry_storage
            ∷ foc_registry_flavor ∷ [])
          fid
      then not (value (m.selects si_provider) == "proxmox")
      else if among (foc_issuing_ca_cert ∷ foc_issuing_ca_key ∷ []) fid
      then cloud
      else false

  -- The fields from `start` on that are visible, for `rounds` of them.
  pub visible_from : DashModel R → (rounds start : ℕ) → List ℕ
  visible_from m zero start = []
  visible_from m (suc rounds) start =
      let rest = visible_from m rounds (start + 1) in
      if is_hidden m start then rest else start ∷ rest

  pub visible_focus_list : DashModel R → List ℕ
  unfolding visible_from
  visible_focus_list m = visible_from m foc_count 0

-- The text input of a field, if it is one.
abbrev pub input_of : Option FieldMeta → Option ℕ
input_of none = none
input_of (some meta) = elim meta.kind [ text ↦ some meta.sub_idx | _ ↦ none ]

abbrev pub text_input_at : ℕ → Option ℕ
text_input_at fid = input_of (get_elem? dash_fields fid)

-- Focus and Blur of a text input
abbrev pub set_input : Option ℕ → Bool → (ℕ → Bool) → ℕ → Bool
set_input none b inputs j = inputs j
set_input (some i) b inputs j = if eqb i j then b else inputs j

-- Where a number stands first in a list.
pub index_of : ℕ → List ℕ → Option ℕ
index_of x [] = none
index_of x (y ∷ ys) = if eqb y x then some 0 else Option.map suc (index_of x ys)

pub next_position : (forward : Bool) → ℕ → Option ℕ → ℕ
next_position forward n none = 0
next_position forward n (some cur) = if forward then (cur + 1) % n else (cur + n - 1) % n

module _ {R : Type 0} where
  -- The focus goes to a field: the old text input is blurred, the new one is focused.
  pub focus_on : ℕ → DashModel R → DashModel R
  focus_on fid m = record m {
    text_inputs =
        set_input (text_input_at fid) true (set_input (text_input_at m.focus) false m.text_inputs);
    focus = fid;
  }

  pub jump_focus : ℕ → DashModel R → DashModel R
  unfolding focus_on
  jump_focus fid m = if is_hidden m fid then m else focus_on fid m

  pub focus_at : Option ℕ → DashModel R → DashModel R
  unfolding focus_on
  focus_at none m = m
  focus_at (some fid) m = focus_on fid m

  pub move_focus : (forward : Bool) → DashModel R → DashModel R
  unfolding index_of next_position focus_at visible_focus_list
  move_focus forward m =
      let vis = visible_focus_list m in
      let cur = next_position forward (length vis) (index_of m.focus vis) in
      focus_at (get_elem? vis cur) m
