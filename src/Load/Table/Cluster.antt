-- ===== src/Load/Table/Cluster.antt =====
-- internal/config/config.go: statements of Load, from ConfigName to Providers.Proxmox.Mgmt.PoolExplicit.
use yage.Prelude.{List, [], ◌∷◌, true, false}
use yage.Load.Syntax.{
  Statement, fill, set_bool, set_whole, set_str, env_bool, loose_or_set, is_set, lit, of_field,
  getenv,
}

abbrev pub cluster_settings : List Statement
cluster_settings =
    fill "ConfigName" (of_field "WorkloadClusterName")
    ∷ set_str "WorkloadKubernetesVersion" (getenv "WORKLOAD_KUBERNETES_VERSION" (lit "v1.35.0"))
    ∷ set_bool "WorkloadKubernetesVersionExplicit" (is_set "WORKLOAD_KUBERNETES_VERSION")
    ∷ set_str "ControlPlaneMachineCount" (getenv "CONTROL_PLANE_MACHINE_COUNT" (lit "1"))
    ∷ set_str "WorkerMachineCount" (getenv "WORKER_MACHINE_COUNT" (lit "2"))
    ∷ set_bool "Pivot.Enabled" (env_bool "PIVOT_ENABLED" true)
    ∷ set_bool "Pivot.KeepKind" (env_bool "PIVOT_KEEP_KIND" false)
    ∷ set_bool "Pivot.DryRun" (env_bool "PIVOT_DRY_RUN" false)
    ∷ set_str "Pivot.VerifyTimeout" (getenv "PIVOT_VERIFY_TIMEOUT" (lit "10m"))
    ∷ set_bool "Pivot.StopBeforeWorkload" (env_bool "YAGE_STOP_BEFORE_WORKLOAD" false)
    ∷ set_str "SkipProviders" (getenv "YAGE_SKIP_PROVIDERS" (lit ""))
    ∷ set_bool "CostCompareEnabled" (env_bool "YAGE_COST_COMPARE_CONFIG" false)
    ∷ set_bool "UseManagedPostgres" (env_bool "YAGE_USE_MANAGED_POSTGRES" true)
    ∷ set_whole "PostgresCPUMillicoresOverride" "YAGE_POSTGRES_CPU_MILLICORES" 0
    ∷ set_whole "PostgresMemoryMiBOverride" "YAGE_POSTGRES_MEMORY_MIB" 0
    ∷ set_whole "PostgresVolumeGBOverride" "YAGE_POSTGRES_VOLUME_GB" 0
    ∷ set_whole "MQCPUMillicoresOverride" "YAGE_MQ_CPU_MILLICORES" 0
    ∷ set_whole "MQMemoryMiBOverride" "YAGE_MQ_MEMORY_MIB" 0
    ∷ set_whole "MQVolumeGBOverride" "YAGE_MQ_VOLUME_GB" 0
    ∷ set_whole "ObjStoreCPUMillicoresOverride" "YAGE_OBJSTORE_CPU_MILLICORES" 0
    ∷ set_whole "ObjStoreMemoryMiBOverride" "YAGE_OBJSTORE_MEMORY_MIB" 0
    ∷ set_whole "ObjStoreVolumeGBOverride" "YAGE_OBJSTORE_VOLUME_GB" 0
    ∷ set_whole "CacheCPUMillicoresOverride" "YAGE_CACHE_CPU_MILLICORES" 0
    ∷ set_whole "CacheMemoryMiBOverride" "YAGE_CACHE_MEMORY_MIB" 0
    ∷ set_str "Mgmt.ClusterName" (getenv "MGMT_CLUSTER_NAME" (lit "capi-management"))
    ∷ set_bool "Mgmt.ClusterNameExplicit"
        (loose_or_set "MGMT_CLUSTER_NAME_EXPLICIT" "MGMT_CLUSTER_NAME")
    ∷ set_str "Mgmt.ClusterNamespace" (getenv "MGMT_CLUSTER_NAMESPACE" (lit "default"))
    ∷ set_bool "Mgmt.ClusterNamespaceExplicit"
        (loose_or_set "MGMT_CLUSTER_NAMESPACE_EXPLICIT" "MGMT_CLUSTER_NAMESPACE")
    ∷ set_str "Mgmt.KubernetesVersion"
        (getenv "MGMT_KUBERNETES_VERSION" (of_field "WorkloadKubernetesVersion"))
    ∷ set_bool "Mgmt.KubernetesVersionExplicit" (is_set "MGMT_KUBERNETES_VERSION")
    ∷ set_str "Mgmt.CiliumClusterID" (getenv "MGMT_CILIUM_CLUSTER_ID" (lit ""))
    ∷ set_str "Mgmt.ControlPlaneMachineCount" (getenv "MGMT_CONTROL_PLANE_MACHINE_COUNT" (lit "1"))
    ∷ set_str "Mgmt.WorkerMachineCount" (getenv "MGMT_WORKER_MACHINE_COUNT" (lit "0"))
    ∷ set_str "Mgmt.ControlPlaneEndpointIP" (getenv "MGMT_CONTROL_PLANE_ENDPOINT_IP" (lit ""))
    ∷ set_str "Mgmt.ControlPlaneEndpointPort"
        (getenv "MGMT_CONTROL_PLANE_ENDPOINT_PORT" (of_field "ControlPlaneEndpointPort"))
    ∷ set_str "Mgmt.NodeIPRanges" (getenv "MGMT_NODE_IP_RANGES" (lit ""))
    ∷ set_str "Mgmt.CiliumHubble" (getenv "MGMT_CILIUM_HUBBLE" (lit "true"))
    ∷ set_str "Mgmt.CiliumLBIPAM" (getenv "MGMT_CILIUM_LB_IPAM" (lit "false"))
    ∷ set_str "Mgmt.CAPIManifest" (getenv "MGMT_CAPI_MANIFEST" (lit ""))
    ∷ set_str "Providers.Proxmox.Mgmt.ControlPlaneNumSockets"
        (getenv "MGMT_CONTROL_PLANE_NUM_SOCKETS" (lit "1"))
    ∷ set_str "Providers.Proxmox.Mgmt.ControlPlaneNumCores"
        (getenv "MGMT_CONTROL_PLANE_NUM_CORES" (lit "2"))
    ∷ set_str "Providers.Proxmox.Mgmt.ControlPlaneMemoryMiB"
        (getenv "MGMT_CONTROL_PLANE_MEMORY_MIB" (lit "2048"))
    ∷ set_str "Providers.Proxmox.Mgmt.ControlPlaneBootVolumeDevice" (
        getenv "MGMT_CONTROL_PLANE_BOOT_VOLUME_DEVICE"
          (of_field "Providers.Proxmox.ControlPlaneBootVolumeDevice"))
    ∷ set_str "Providers.Proxmox.Mgmt.ControlPlaneBootVolumeSize"
        (getenv "MGMT_CONTROL_PLANE_BOOT_VOLUME_SIZE" (lit "30"))
    ∷ set_str "Providers.Proxmox.Mgmt.WorkerNumSockets" (getenv "MGMT_WORKER_NUM_SOCKETS" (lit "1"))
    ∷ set_str "Providers.Proxmox.Mgmt.WorkerNumCores" (getenv "MGMT_WORKER_NUM_CORES" (lit "2"))
    ∷ set_str "Providers.Proxmox.Mgmt.WorkerMemoryMiB"
        (getenv "MGMT_WORKER_MEMORY_MIB" (lit "2048"))
    ∷ set_str "Providers.Proxmox.Mgmt.WorkerBootVolumeDevice" (
        getenv "MGMT_WORKER_BOOT_VOLUME_DEVICE"
          (of_field "Providers.Proxmox.WorkerBootVolumeDevice"))
    ∷ set_str "Providers.Proxmox.Mgmt.WorkerBootVolumeSize"
        (getenv "MGMT_WORKER_BOOT_VOLUME_SIZE" (lit "30"))
    ∷ set_bool "Providers.Proxmox.Mgmt.CSIEnabled" (env_bool "MGMT_PROXMOX_CSI_ENABLED" false)
    ∷ set_str "Providers.Proxmox.Pool" (getenv "PROXMOX_POOL" (of_field "WorkloadClusterName"))
    ∷ set_bool "Providers.Proxmox.PoolExplicit"
        (loose_or_set "PROXMOX_POOL_EXPLICIT" "PROXMOX_POOL")
    ∷ set_str "Providers.Proxmox.Mgmt.Pool"
        (getenv "MGMT_PROXMOX_POOL" (of_field "Mgmt.ClusterName"))
    ∷ set_bool "Providers.Proxmox.Mgmt.PoolExplicit"
        (loose_or_set "MGMT_PROXMOX_POOL_EXPLICIT" "MGMT_PROXMOX_POOL")
    ∷ []
