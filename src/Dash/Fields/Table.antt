-- ===== src/Dash/Fields/Table.antt =====
-- internal/ui/xapiri/dashboard_fields.go: what each field is, in the order of the fields.
use yage.Prelude.{ℕ, String, Bool, true, false, List, [], ◌∷◌, ◌++◌}
use yage.Dash.Fields.Inputs.{
  ti_apps, ti_argo_path, ti_argo_ref, ti_argo_url, ti_budget, ti_ca_bundle, ti_cache_cpu,
  ti_cache_mem, ti_cp_endpoint_ip, ti_dbgb, ti_dc_loc, ti_dns_servers, ti_egress_gb, ti_gateway,
  ti_headroom, ti_helm_mirror, ti_hw_cost, ti_hw_support, ti_hw_watts, ti_hwkwh, ti_img_mirror,
  ti_ip_prefix, ti_issuing_ca_cert, ti_issuing_ca_key, ti_k8s_ver, ti_kind_name,
  ti_mgmt_cp_endpoint_ip, ti_mgmt_node_ip_ranges, ti_node_ip_ranges, ti_obj_cpu, ti_obj_mem,
  ti_obj_vol, ti_proxmox_admin_insecure, ti_proxmox_admin_token, ti_proxmox_admin_username,
  ti_proxmox_cp_count, ti_proxmox_default_tmpl, ti_proxmox_mgmt_cp_cores, ti_proxmox_mgmt_cp_count,
  ti_proxmox_mgmt_cp_disk_gb, ti_proxmox_mgmt_cp_mem_mib, ti_proxmox_mgmt_cp_tmpl,
  ti_proxmox_mgmt_pool, ti_proxmox_mgmt_worker_cores, ti_proxmox_mgmt_worker_count,
  ti_proxmox_mgmt_worker_disk_gb, ti_proxmox_mgmt_worker_mem_mib, ti_proxmox_mgmt_worker_tmpl,
  ti_proxmox_pool, ti_proxmox_url, ti_proxmox_wl_worker_cores, ti_proxmox_wl_worker_disk_gb,
  ti_proxmox_wl_worker_mem_mib, ti_proxmox_wl_worker_tmpl, ti_proxmox_wlcp_cores,
  ti_proxmox_wlcp_disk_gb, ti_proxmox_wlcp_mem_mib, ti_proxmox_wlcp_tmpl, ti_proxmox_worker_count,
  ti_queue_cpu, ti_queue_mem, ti_queue_vol, ti_registry_network, ti_registry_node,
  ti_registry_storage, ti_registry_vm_flav, ti_workload_name,
}
use yage.Dash.Fields.Options.{
  si_bootstrap, si_env, si_mode, si_provider, si_registry_flav, si_resil, toi_airgapped, toi_cache,
  toi_cert_mgr, toi_cnpg, toi_crossplane, toi_ext_secrets, toi_grafana, toi_kyverno, toi_metrics,
  toi_obj_store, toi_otel, toi_overcommit, toi_queue, toi_spire, toi_tco, toi_victoria,
}

pub data Kind : Type 0 where
  text : Kind
  select : Kind
  toggle : Kind

pub record FieldMeta : Type 0 where
  pub kind : Kind
  -- the position among the text inputs, the selects or the toggles
  pub sub_idx : ℕ
  pub label : String
  pub section : String
  pub cost_key : Bool
  pub secret : Bool

abbrev field : Kind → ℕ → String → String → Bool → Bool → FieldMeta
field kind sub_idx label section cost_key secret = record {
  kind = kind;
  sub_idx = sub_idx;
  label = label;
  section = section;
  cost_key = cost_key;
  secret = secret;
}

abbrev pub cluster_fields : List FieldMeta
cluster_fields =
    field select si_mode "mode" "Mode" false false
    ∷ field select si_provider "provider" "Provider" false false
    ∷ field text ti_kind_name "kind name" "Cluster" false false
    ∷ field text ti_k8s_ver "k8s version" "" false false
    ∷ field text ti_workload_name "workload name" "" false false
    ∷ field select si_env "environment" "Tier" true false
    ∷ field select si_resil "resilience" "" true false
    ∷ field text ti_apps "apps" "Workload" true false
    ∷ field text ti_dbgb "db (GB)" "" true false
    ∷ field text ti_egress_gb "egress GB/mo" "" true false
    ∷ field toggle toi_queue "message queue" "Add-ons" true false
    ∷ field text ti_queue_cpu "  queue CPU (m)" "" true false
    ∷ field text ti_queue_mem "  queue mem (Mi)" "" true false
    ∷ field text ti_queue_vol "  queue vol (GB)" "" true false
    ∷ field toggle toi_obj_store "object storage" "" true false
    ∷ field text ti_obj_cpu "  obj CPU (m)" "" true false
    ∷ field text ti_obj_mem "  obj mem (Mi)" "" true false
    ∷ field text ti_obj_vol "  obj vol (GB)" "" true false
    ∷ field toggle toi_cache "in-mem cache" "" true false
    ∷ field text ti_cache_cpu "  cache CPU (m)" "" true false
    ∷ field text ti_cache_mem "  cache mem (Mi)" "" true false
    ∷ field select si_bootstrap "bootstrap mode" "Bootstrap" false false
    ∷ field toggle toi_overcommit "allow overcommit" "" false false
    ∷ []

abbrev pub proxmox_fields : List FieldMeta
proxmox_fields =
    field text ti_proxmox_url "pve url" "Proxmox Connection" false false
    ∷ field text ti_proxmox_admin_username "admin username" "" false false
    ∷ field text ti_proxmox_admin_insecure "tls insecure" "" false false
    ∷ field text ti_proxmox_admin_token "admin token" "" false true
    ∷ field text ti_proxmox_default_tmpl "default tmpl ID" "Proxmox Config" false false
    ∷ field text ti_proxmox_wlcp_tmpl "wl CP tmpl ID" "" false false
    ∷ field text ti_proxmox_wlcp_cores "  cores" "" false false
    ∷ field text ti_proxmox_wlcp_mem_mib "  mem MiB" "" false false
    ∷ field text ti_proxmox_wlcp_disk_gb "  disk GB" "" false false
    ∷ field text ti_proxmox_wl_worker_tmpl "wl worker tmpl ID" "" false false
    ∷ field text ti_proxmox_wl_worker_cores "  cores" "" false false
    ∷ field text ti_proxmox_wl_worker_mem_mib "  mem MiB" "" false false
    ∷ field text ti_proxmox_wl_worker_disk_gb "  disk GB" "" false false
    ∷ field text ti_proxmox_mgmt_cp_tmpl "mgmt CP tmpl ID" "" false false
    ∷ field text ti_proxmox_mgmt_cp_cores "  cores" "" false false
    ∷ field text ti_proxmox_mgmt_cp_mem_mib "  mem MiB" "" false false
    ∷ field text ti_proxmox_mgmt_cp_disk_gb "  disk GB" "" false false
    ∷ field text ti_proxmox_mgmt_worker_tmpl "mgmt worker tmpl ID" "" false false
    ∷ field text ti_proxmox_mgmt_worker_cores "  cores" "" false false
    ∷ field text ti_proxmox_mgmt_worker_mem_mib "  mem MiB" "" false false
    ∷ field text ti_proxmox_mgmt_worker_disk_gb "  disk GB" "" false false
    ∷ field text ti_proxmox_pool "wl pool name" "" false false
    ∷ field text ti_proxmox_mgmt_pool "mgmt pool name" "" false false
    ∷ field text ti_proxmox_cp_count "wl CP replicas" "" false false
    ∷ field text ti_proxmox_worker_count "wl worker replicas" "" false false
    ∷ field text ti_proxmox_mgmt_cp_count "mgmt CP replicas" "" false false
    ∷ field text ti_proxmox_mgmt_worker_count "mgmt worker replicas" "" false false
    ∷ []

abbrev pub platform_fields : List FieldMeta
platform_fields =
    field text ti_cp_endpoint_ip "CP endpoint IP" "Workload Network" false false
    ∷ field text ti_node_ip_ranges "node IP ranges" "" false false
    ∷ field text ti_gateway "gateway" "" false false
    ∷ field text ti_ip_prefix "IP prefix" "" false false
    ∷ field text ti_dns_servers "DNS servers" "" false false
    ∷ field text ti_mgmt_cp_endpoint_ip "CP endpoint IP" "Mgmt Network" false false
    ∷ field text ti_mgmt_node_ip_ranges "node IP ranges" "" false false
    ∷ field text ti_argo_url "app-of-apps URL" "ArgoCD" false false
    ∷ field text ti_argo_path "app-of-apps path" "" false false
    ∷ field text ti_argo_ref "app-of-apps ref" "" false false
    ∷ field toggle toi_airgapped "airgapped" "Airgap" false false
    ∷ field text ti_img_mirror "image mirror" "" false false
    ∷ field text ti_ca_bundle "CA bundle path" "" false false
    ∷ field text ti_helm_mirror "helm mirror" "" false false
    ∷ field toggle toi_kyverno "kyverno" "Add-ons installed" false false
    ∷ field toggle toi_cert_mgr "cert-manager" "" false false
    ∷ field toggle toi_cnpg "CNPG" "" false false
    ∷ field toggle toi_crossplane "crossplane" "" false false
    ∷ field toggle toi_ext_secrets "ext-secrets" "" false false
    ∷ field toggle toi_otel "otel" "" false false
    ∷ field toggle toi_grafana "grafana" "" false false
    ∷ field toggle toi_victoria "victoriametrics" "" false false
    ∷ field toggle toi_metrics "metrics-server" "" false false
    ∷ field toggle toi_spire "spire" "" false false
    ∷ []

abbrev pub budget_fields : List FieldMeta
budget_fields =
    field text ti_dc_loc "data-center loc" "Geo" false false
    ∷ field text ti_budget "budget USD/mo" "Budget" false false
    ∷ field text ti_headroom "headroom %" "" false false
    ∷ field toggle toi_tco "TCO enabled" "TCO" false false
    ∷ field text ti_hw_cost "  HW cost USD" "" false false
    ∷ field text ti_hw_watts "  HW watts" "" false false
    ∷ field text ti_hwkwh "  kWh rate USD" "" false false
    ∷ field text ti_hw_support "  support USD/mo" "" false false
    ∷ field text ti_registry_node "registry node" "Registry" false false
    ∷ field text ti_registry_vm_flav "  VM flavor" "" false false
    ∷ field text ti_registry_network "  network" "" false false
    ∷ field text ti_registry_storage "  storage" "" false false
    ∷ field select si_registry_flav "  flavor" "" false false
    ∷ field text ti_issuing_ca_cert "issuing CA cert" "Issuing CA" false true
    ∷ field text ti_issuing_ca_key "issuing CA key" "" false true
    ∷ []

abbrev pub dash_fields : List FieldMeta
dash_fields = cluster_fields ++ proxmox_fields ++ platform_fields ++ budget_fields
