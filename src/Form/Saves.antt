-- ===== src/Form/Saves.antt =====
-- internal/ui/xapiri/dashboard_snapshot.go: the fields that buildSnapshotCfg sets from one input each,
-- in the order of the code, and the fields that flushToCfg copies.
use yage.Prelude.{String, List, [], ◌∷◌}
use yage.Form.{
  Save, save_default, save_filled, save_number, save_on, save_select, save_text, save_toggle,
  save_upper,
}
use yage.Dash.Fields.Inputs.{
  ti_argo_path, ti_argo_ref, ti_argo_url, ti_ca_bundle, ti_cp_endpoint_ip, ti_dc_loc,
  ti_dns_servers, ti_gateway, ti_helm_mirror, ti_hw_cost, ti_hw_support, ti_hw_watts, ti_hwkwh,
  ti_img_mirror, ti_ip_prefix, ti_issuing_ca_cert, ti_issuing_ca_key, ti_k8s_ver, ti_kind_name,
  ti_mgmt_cp_endpoint_ip, ti_mgmt_node_ip_ranges, ti_node_ip_ranges, ti_proxmox_admin_insecure,
  ti_proxmox_admin_username, ti_proxmox_cp_count, ti_proxmox_default_tmpl, ti_proxmox_mgmt_cp_cores,
  ti_proxmox_mgmt_cp_count, ti_proxmox_mgmt_cp_disk_gb, ti_proxmox_mgmt_cp_mem_mib,
  ti_proxmox_mgmt_cp_tmpl, ti_proxmox_mgmt_pool, ti_proxmox_mgmt_worker_cores,
  ti_proxmox_mgmt_worker_count, ti_proxmox_mgmt_worker_disk_gb, ti_proxmox_mgmt_worker_mem_mib,
  ti_proxmox_mgmt_worker_tmpl, ti_proxmox_pool, ti_proxmox_url, ti_proxmox_wl_worker_cores,
  ti_proxmox_wl_worker_disk_gb, ti_proxmox_wl_worker_mem_mib, ti_proxmox_wl_worker_tmpl,
  ti_proxmox_wlcp_cores, ti_proxmox_wlcp_disk_gb, ti_proxmox_wlcp_mem_mib, ti_proxmox_wlcp_tmpl,
  ti_proxmox_worker_count, ti_registry_network, ti_registry_node, ti_registry_storage,
  ti_registry_vm_flav, ti_workload_name,
}
use yage.Dash.Fields.Options.{
  si_bootstrap, si_registry_flav, toi_airgapped, toi_cert_mgr, toi_cnpg, toi_crossplane,
  toi_ext_secrets, toi_grafana, toi_kyverno, toi_metrics, toi_otel, toi_overcommit, toi_spire,
  toi_victoria,
}

abbrev pub name_saves : List Save
name_saves =
    save_default "KindClusterName" ti_kind_name "yage-mgmt"
    ∷ save_text "WorkloadKubernetesVersion" ti_k8s_ver
    ∷ save_filled "WorkloadClusterName" ti_workload_name
    ∷ []

abbrev pub connection_saves : List Save
connection_saves =
    save_text "ControlPlaneEndpointIP" ti_cp_endpoint_ip
    ∷ save_text "NodeIPRanges" ti_node_ip_ranges
    ∷ save_text "Gateway" ti_gateway
    ∷ save_text "IPPrefix" ti_ip_prefix
    ∷ save_text "DNSServers" ti_dns_servers
    ∷ save_text "Mgmt.ControlPlaneEndpointIP" ti_mgmt_cp_endpoint_ip
    ∷ save_text "Mgmt.NodeIPRanges" ti_mgmt_node_ip_ranges
    ∷ save_filled "Providers.Proxmox.URL" ti_proxmox_url
    ∷ save_filled "Providers.Proxmox.AdminUsername" ti_proxmox_admin_username
    ∷ save_filled "Providers.Proxmox.AdminInsecure" ti_proxmox_admin_insecure
    ∷ save_filled "Providers.Proxmox.TemplateID" ti_proxmox_default_tmpl
    ∷ save_text "WorkloadControlPlaneTemplateID" ti_proxmox_wlcp_tmpl
    ∷ save_filled "Providers.Proxmox.ControlPlaneNumCores" ti_proxmox_wlcp_cores
    ∷ save_filled "Providers.Proxmox.ControlPlaneMemoryMiB" ti_proxmox_wlcp_mem_mib
    ∷ save_filled "Providers.Proxmox.ControlPlaneBootVolumeSize" ti_proxmox_wlcp_disk_gb
    ∷ save_text "WorkloadWorkerTemplateID" ti_proxmox_wl_worker_tmpl
    ∷ save_filled "Providers.Proxmox.WorkerNumCores" ti_proxmox_wl_worker_cores
    ∷ save_filled "Providers.Proxmox.WorkerMemoryMiB" ti_proxmox_wl_worker_mem_mib
    ∷ save_filled "Providers.Proxmox.WorkerBootVolumeSize" ti_proxmox_wl_worker_disk_gb
    ∷ save_text "Providers.Proxmox.Mgmt.ControlPlaneTemplateID" ti_proxmox_mgmt_cp_tmpl
    ∷ save_filled "Providers.Proxmox.Mgmt.ControlPlaneNumCores" ti_proxmox_mgmt_cp_cores
    ∷ save_filled "Providers.Proxmox.Mgmt.ControlPlaneMemoryMiB" ti_proxmox_mgmt_cp_mem_mib
    ∷ save_filled "Providers.Proxmox.Mgmt.ControlPlaneBootVolumeSize" ti_proxmox_mgmt_cp_disk_gb
    ∷ save_text "Providers.Proxmox.Mgmt.WorkerTemplateID" ti_proxmox_mgmt_worker_tmpl
    ∷ save_filled "Providers.Proxmox.Mgmt.WorkerNumCores" ti_proxmox_mgmt_worker_cores
    ∷ save_filled "Providers.Proxmox.Mgmt.WorkerMemoryMiB" ti_proxmox_mgmt_worker_mem_mib
    ∷ save_filled "Providers.Proxmox.Mgmt.WorkerBootVolumeSize" ti_proxmox_mgmt_worker_disk_gb
    ∷ save_filled "Providers.Proxmox.Pool" ti_proxmox_pool
    ∷ save_filled "Providers.Proxmox.Mgmt.Pool" ti_proxmox_mgmt_pool
    ∷ save_filled "ControlPlaneMachineCount" ti_proxmox_cp_count
    ∷ save_filled "WorkerMachineCount" ti_proxmox_worker_count
    ∷ save_filled "Mgmt.ControlPlaneMachineCount" ti_proxmox_mgmt_cp_count
    ∷ save_filled "Mgmt.WorkerMachineCount" ti_proxmox_mgmt_worker_count
    ∷ save_filled "ArgoCD.AppOfAppsGitURL" ti_argo_url
    ∷ save_filled "ArgoCD.AppOfAppsGitPath" ti_argo_path
    ∷ save_filled "ArgoCD.AppOfAppsGitRef" ti_argo_ref
    ∷ save_toggle "Airgapped" toi_airgapped
    ∷ []

abbrev pub mirror_saves : List Save
mirror_saves =
    save_text "ImageRegistryMirror" ti_img_mirror
    ∷ save_text "InternalCABundle" ti_ca_bundle
    ∷ save_text "HelmRepoMirror" ti_helm_mirror
    ∷ []

abbrev pub platform_saves : List Save
platform_saves =
    save_toggle "KyvernoEnabled" toi_kyverno
    ∷ save_toggle "CertManagerEnabled" toi_cert_mgr
    ∷ save_toggle "CNPGEnabled" toi_cnpg
    ∷ save_toggle "CrossplaneEnabled" toi_crossplane
    ∷ save_toggle "ExternalSecretsEnabled" toi_ext_secrets
    ∷ save_toggle "OTELEnabled" toi_otel
    ∷ save_toggle "GrafanaEnabled" toi_grafana
    ∷ save_toggle "VictoriaMetricsEnabled" toi_victoria
    ∷ save_toggle "EnableMetricsServer" toi_metrics
    ∷ save_toggle "SPIREEnabled" toi_spire
    ∷ save_number "HardwareCostUSD" ti_hw_cost
    ∷ save_number "HardwareWatts" ti_hw_watts
    ∷ save_number "HardwareKWHRateUSD" ti_hwkwh
    ∷ save_number "HardwareSupportUSDMonth" ti_hw_support
    ∷ save_text "RegistryNode" ti_registry_node
    ∷ save_text "RegistryVMFlavor" ti_registry_vm_flav
    ∷ save_text "RegistryNetwork" ti_registry_network
    ∷ save_text "RegistryStorage" ti_registry_storage
    ∷ save_select "RegistryFlavor" si_registry_flav
    ∷ save_text "IssuingCARootCert" ti_issuing_ca_cert
    ∷ save_text "IssuingCARootKey" ti_issuing_ca_key
    ∷ []

abbrev pub argocd_saves : List Save
argocd_saves = save_on "ArgoCD.Enabled" ∷ save_on "ArgoCD.WorkloadEnabled" ∷ []

abbrev pub setting_saves : List Save
setting_saves =
    save_select "BootstrapMode" si_bootstrap
    ∷ save_toggle "Capacity.AllowOvercommit" toi_overcommit
    ∷ save_upper "Cost.Currency.DataCenterLocation" ti_dc_loc
    ∷ []

-- What is copied by its name; the structs ArgoCD and Workload are copied whole.
abbrev pub copied_fields : List String
copied_fields =
    "KindClusterName" ∷ "WorkloadKubernetesVersion" ∷ "ControlPlaneMachineCount"
    ∷ "WorkerMachineCount" ∷ "CertManagerEnabled" ∷ "Cost.Currency.DataCenterLocation"
    ∷ "BudgetUSDMonth" ∷ "MQCPUMillicoresOverride" ∷ "MQMemoryMiBOverride" ∷ "MQVolumeGBOverride"
    ∷ "ObjStoreCPUMillicoresOverride" ∷ "ObjStoreMemoryMiBOverride" ∷ "ObjStoreVolumeGBOverride"
    ∷ "CacheCPUMillicoresOverride" ∷ "CacheMemoryMiBOverride" ∷ "BootstrapMode"
    ∷ "Capacity.AllowOvercommit" ∷ "WorkloadClusterName" ∷ "InfraProvider"
    ∷ "InfraProviderDefaulted" ∷ "ControlPlaneEndpointIP" ∷ "NodeIPRanges" ∷ "Gateway" ∷ "IPPrefix"
    ∷ "DNSServers" ∷ "Mgmt.ControlPlaneEndpointIP" ∷ "Mgmt.NodeIPRanges" ∷ "Providers.Proxmox.URL"
    ∷ "Providers.Proxmox.AdminUsername" ∷ "Providers.Proxmox.AdminInsecure"
    ∷ "Providers.Proxmox.TemplateID" ∷ "WorkloadControlPlaneTemplateID"
    ∷ "Providers.Proxmox.ControlPlaneNumCores" ∷ "Providers.Proxmox.ControlPlaneMemoryMiB"
    ∷ "Providers.Proxmox.ControlPlaneBootVolumeSize" ∷ "WorkloadWorkerTemplateID"
    ∷ "Providers.Proxmox.WorkerNumCores" ∷ "Providers.Proxmox.WorkerMemoryMiB"
    ∷ "Providers.Proxmox.WorkerBootVolumeSize" ∷ "Providers.Proxmox.Mgmt.ControlPlaneTemplateID"
    ∷ "Providers.Proxmox.Mgmt.ControlPlaneNumCores" ∷ "Providers.Proxmox.Mgmt.ControlPlaneMemoryMiB"
    ∷ "Providers.Proxmox.Mgmt.ControlPlaneBootVolumeSize"
    ∷ "Providers.Proxmox.Mgmt.WorkerTemplateID" ∷ "Providers.Proxmox.Mgmt.WorkerNumCores"
    ∷ "Providers.Proxmox.Mgmt.WorkerMemoryMiB" ∷ "Providers.Proxmox.Mgmt.WorkerBootVolumeSize"
    ∷ "Providers.Proxmox.Pool" ∷ "Providers.Proxmox.Mgmt.Pool" ∷ "ControlPlaneMachineCount"
    ∷ "WorkerMachineCount" ∷ "Mgmt.ControlPlaneMachineCount" ∷ "Mgmt.WorkerMachineCount"
    ∷ "Airgapped" ∷ "ImageRegistryMirror" ∷ "InternalCABundle" ∷ "HelmRepoMirror" ∷ "KyvernoEnabled"
    ∷ "CertManagerEnabled" ∷ "CNPGEnabled" ∷ "CrossplaneEnabled" ∷ "ExternalSecretsEnabled"
    ∷ "OTELEnabled" ∷ "GrafanaEnabled" ∷ "VictoriaMetricsEnabled" ∷ "EnableMetricsServer"
    ∷ "SPIREEnabled" ∷ "HardwareCostUSD" ∷ "HardwareWatts" ∷ "HardwareKWHRateUSD"
    ∷ "HardwareSupportUSDMonth" ∷ "RegistryNode" ∷ "RegistryVMFlavor" ∷ "RegistryNetwork"
    ∷ "RegistryStorage" ∷ "RegistryFlavor" ∷ "IssuingCARootCert" ∷ "IssuingCARootKey" ∷ []
