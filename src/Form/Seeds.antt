-- ===== src/Form/Seeds.antt =====
-- internal/ui/xapiri/dashboard.go: what newDashModel puts into the text inputs and the toggles.
use yage.Prelude.{ℕ, List, [], ◌∷◌}
use yage.Form.{
  Seed, seed_apps, seed_budget, seed_dbgb, seed_default, seed_egress, seed_headroom, seed_number,
  seed_size, seed_text, Toggle, turned, queue_on, obj_store_on, cache_on, has_costs,
  cache_cpu_milli, cache_mem_mib, obj_store_cpu_milli, obj_store_mem_mib, obj_store_vol_gb,
  queue_cpu_milli, queue_mem_mib, queue_vol_gb,
}
use yage.Dash.Fields.Inputs.{
  ti_apps, ti_argo_path, ti_argo_ref, ti_argo_url, ti_budget, ti_ca_bundle, ti_cache_cpu,
  ti_cache_mem, ti_cp_endpoint_ip, ti_dbgb, ti_dc_loc, ti_dns_servers, ti_egress_gb, ti_gateway,
  ti_headroom, ti_helm_mirror, ti_hw_cost, ti_hw_support, ti_hw_watts, ti_hwkwh, ti_img_mirror,
  ti_ip_prefix, ti_issuing_ca_cert, ti_issuing_ca_key, ti_k8s_ver, ti_kind_name,
  ti_mgmt_cp_endpoint_ip, ti_mgmt_node_ip_ranges, ti_node_ip_ranges, ti_obj_cpu, ti_obj_mem,
  ti_obj_vol, ti_proxmox_admin_insecure, ti_proxmox_admin_token, ti_proxmox_admin_username,
  ti_proxmox_cp_count, ti_proxmox_default_tmpl, ti_proxmox_mgmt_cp_cores, ti_proxmox_mgmt_cp_count,
  ti_proxmox_mgmt_cp_disk_gb, ti_proxmox_mgmt_cp_mem_mib, ti_proxmox_mgmt_cp_tmpl,
  ti_proxmox_mgmt_pool, ti_proxmox_mgmt_worker_cores, ti_proxmox_mgmt_worker_count,
  ti_proxmox_mgmt_worker_disk_gb, ti_proxmox_mgmt_worker_mem_mib, ti_proxmox_mgmt_worker_tmpl,
  ti_proxmox_pool, ti_proxmox_url, ti_proxmox_wl_worker_cores, ti_proxmox_wl_worker_disk_gb,
  ti_proxmox_wl_worker_mem_mib, ti_proxmox_wl_worker_tmpl, ti_proxmox_wlcp_cores,
  ti_proxmox_wlcp_disk_gb, ti_proxmox_wlcp_mem_mib, ti_proxmox_wlcp_tmpl, ti_proxmox_worker_count,
  ti_queue_cpu, ti_queue_mem, ti_queue_vol, ti_registry_network, ti_registry_node,
  ti_registry_storage, ti_registry_vm_flav, ti_workload_name,
}
use yage.Dash.Fields.Options.{
  toi_airgapped, toi_cache, toi_cert_mgr, toi_cnpg, toi_crossplane, toi_ext_secrets, toi_grafana,
  toi_kyverno, toi_metrics, toi_obj_store, toi_otel, toi_overcommit, toi_queue, toi_spire, toi_tco,
  toi_victoria,
}

abbrev pub input_seeds : List (ℕ × Seed)
input_seeds =
    (ti_kind_name, seed_default "KindClusterName" "yage-mgmt")
    ∷ (ti_k8s_ver, seed_default "WorkloadKubernetesVersion" "v1.35.0")
    ∷ (ti_apps, seed_apps "4 medium")
    ∷ (ti_dbgb, seed_dbgb)
    ∷ (ti_egress_gb, seed_egress)
    ∷ (ti_queue_cpu, seed_size queue_cpu_milli 1000)
    ∷ (ti_queue_mem, seed_size queue_mem_mib 2048)
    ∷ (ti_queue_vol, seed_size queue_vol_gb 20)
    ∷ (ti_obj_cpu, seed_size obj_store_cpu_milli 1000)
    ∷ (ti_obj_mem, seed_size obj_store_mem_mib 2048)
    ∷ (ti_obj_vol, seed_size obj_store_vol_gb 500)
    ∷ (ti_cache_cpu, seed_size cache_cpu_milli 500)
    ∷ (ti_cache_mem, seed_size cache_mem_mib 2048)
    ∷ (ti_dc_loc, seed_text "Cost.Currency.DataCenterLocation")
    ∷ (ti_budget, seed_budget)
    ∷ (ti_headroom, seed_headroom)
    ∷ (ti_workload_name, seed_text "WorkloadClusterName")
    ∷ (ti_cp_endpoint_ip, seed_text "ControlPlaneEndpointIP")
    ∷ (ti_node_ip_ranges, seed_text "NodeIPRanges")
    ∷ (ti_gateway, seed_text "Gateway")
    ∷ (ti_ip_prefix, seed_text "IPPrefix")
    ∷ (ti_dns_servers, seed_text "DNSServers")
    ∷ (ti_mgmt_cp_endpoint_ip, seed_text "Mgmt.ControlPlaneEndpointIP")
    ∷ (ti_mgmt_node_ip_ranges, seed_text "Mgmt.NodeIPRanges")
    ∷ (ti_proxmox_url, seed_text "Providers.Proxmox.URL")
    ∷ (ti_proxmox_admin_username, seed_text "Providers.Proxmox.AdminUsername")
    ∷ (ti_proxmox_admin_insecure, seed_text "Providers.Proxmox.AdminInsecure")
    ∷ (ti_proxmox_admin_token, seed_text "Providers.Proxmox.AdminToken")
    ∷ (ti_proxmox_default_tmpl, seed_text "Providers.Proxmox.TemplateID")
    ∷ (ti_proxmox_wlcp_tmpl, seed_text "WorkloadControlPlaneTemplateID")
    ∷ (ti_proxmox_wlcp_cores, seed_text "Providers.Proxmox.ControlPlaneNumCores")
    ∷ (ti_proxmox_wlcp_mem_mib, seed_text "Providers.Proxmox.ControlPlaneMemoryMiB")
    ∷ (ti_proxmox_wlcp_disk_gb, seed_text "Providers.Proxmox.ControlPlaneBootVolumeSize")
    ∷ (ti_proxmox_wl_worker_tmpl, seed_text "WorkloadWorkerTemplateID")
    ∷ (ti_proxmox_wl_worker_cores, seed_text "Providers.Proxmox.WorkerNumCores")
    ∷ (ti_proxmox_wl_worker_mem_mib, seed_text "Providers.Proxmox.WorkerMemoryMiB")
    ∷ (ti_proxmox_wl_worker_disk_gb, seed_text "Providers.Proxmox.WorkerBootVolumeSize")
    ∷ (ti_proxmox_mgmt_cp_tmpl, seed_text "Providers.Proxmox.Mgmt.ControlPlaneTemplateID")
    ∷ (ti_proxmox_mgmt_cp_cores, seed_text "Providers.Proxmox.Mgmt.ControlPlaneNumCores")
    ∷ (ti_proxmox_mgmt_cp_mem_mib, seed_text "Providers.Proxmox.Mgmt.ControlPlaneMemoryMiB")
    ∷ (ti_proxmox_mgmt_cp_disk_gb, seed_text "Providers.Proxmox.Mgmt.ControlPlaneBootVolumeSize")
    ∷ (ti_proxmox_mgmt_worker_tmpl, seed_text "Providers.Proxmox.Mgmt.WorkerTemplateID")
    ∷ (ti_proxmox_mgmt_worker_cores, seed_text "Providers.Proxmox.Mgmt.WorkerNumCores")
    ∷ (ti_proxmox_mgmt_worker_mem_mib, seed_text "Providers.Proxmox.Mgmt.WorkerMemoryMiB")
    ∷ (ti_proxmox_mgmt_worker_disk_gb, seed_text "Providers.Proxmox.Mgmt.WorkerBootVolumeSize")
    ∷ (ti_proxmox_pool, seed_text "Providers.Proxmox.Pool")
    ∷ (ti_proxmox_mgmt_pool, seed_text "Providers.Proxmox.Mgmt.Pool")
    ∷ (ti_proxmox_cp_count, seed_text "ControlPlaneMachineCount")
    ∷ (ti_proxmox_worker_count, seed_text "WorkerMachineCount")
    ∷ (ti_proxmox_mgmt_cp_count, seed_text "Mgmt.ControlPlaneMachineCount")
    ∷ (ti_proxmox_mgmt_worker_count, seed_text "Mgmt.WorkerMachineCount")
    ∷ (ti_argo_url, seed_text "ArgoCD.AppOfAppsGitURL")
    ∷ (ti_argo_path, seed_text "ArgoCD.AppOfAppsGitPath")
    ∷ (ti_argo_ref, seed_text "ArgoCD.AppOfAppsGitRef")
    ∷ (ti_img_mirror, seed_text "ImageRegistryMirror")
    ∷ (ti_ca_bundle, seed_text "InternalCABundle")
    ∷ (ti_helm_mirror, seed_text "HelmRepoMirror")
    ∷ (ti_hw_cost, seed_number "HardwareCostUSD" 2)
    ∷ (ti_hw_watts, seed_number "HardwareWatts" 0)
    ∷ (ti_hwkwh, seed_number "HardwareKWHRateUSD" 4)
    ∷ (ti_hw_support, seed_number "HardwareSupportUSDMonth" 2)
    ∷ (ti_registry_node, seed_text "RegistryNode")
    ∷ (ti_registry_vm_flav, seed_text "RegistryVMFlavor")
    ∷ (ti_registry_network, seed_text "RegistryNetwork")
    ∷ (ti_registry_storage, seed_text "RegistryStorage")
    ∷ (ti_issuing_ca_cert, seed_text "IssuingCARootCert")
    ∷ (ti_issuing_ca_key, seed_text "IssuingCARootKey")
    ∷ []

abbrev pub toggle_seeds : List (ℕ × Toggle)
toggle_seeds =
    (toi_queue, queue_on)
    ∷ (toi_obj_store, obj_store_on)
    ∷ (toi_cache, cache_on)
    ∷ (toi_overcommit, turned "Capacity.AllowOvercommit")
    ∷ (toi_airgapped, turned "Airgapped")
    ∷ (toi_kyverno, turned "KyvernoEnabled")
    ∷ (toi_cert_mgr, turned "CertManagerEnabled")
    ∷ (toi_cnpg, turned "CNPGEnabled")
    ∷ (toi_crossplane, turned "CrossplaneEnabled")
    ∷ (toi_ext_secrets, turned "ExternalSecretsEnabled")
    ∷ (toi_otel, turned "OTELEnabled")
    ∷ (toi_grafana, turned "GrafanaEnabled")
    ∷ (toi_victoria, turned "VictoriaMetricsEnabled")
    ∷ (toi_metrics, turned "EnableMetricsServer")
    ∷ (toi_spire, turned "SPIREEnabled")
    ∷ (toi_tco, has_costs)
    ∷ []
