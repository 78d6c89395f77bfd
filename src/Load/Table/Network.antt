-- ===== src/Load/Table/Network.antt =====
-- internal/config/config.go: statements of Load, from Providers.Proxmox.TopologyRegion to ConfigNameExplicit.
use yage.Prelude.{List, [], ◌∷◌, false}
use yage.Load.Syntax.{
  Statement, from_keyring, set_bool, set_str, env_bool, loose_or_set, lit, of_field, getenv,
}

abbrev pub network_settings : List Statement
network_settings =
    set_str "Providers.Proxmox.TopologyRegion" (getenv "PROXMOX_TOPOLOGY_REGION" (lit ""))
    ∷ set_str "Providers.Proxmox.TopologyZone" (getenv "PROXMOX_TOPOLOGY_ZONE" (lit ""))
    ∷ set_str "Providers.Proxmox.TemplateID"
        (getenv "PROXMOX_TEMPLATE_ID" (getenv "TEMPLATE_VMID" (lit "104")))
    ∷ set_str "Providers.Proxmox.Bridge" (getenv "PROXMOX_BRIDGE" (lit "vmbr0"))
    ∷ from_keyring "Providers.Proxmox.CAPIToken" "KeyProxmoxCAPIToken"
    ∷ from_keyring "Providers.Proxmox.CAPISecret" "KeyProxmoxCAPISecret"
    ∷ from_keyring "Providers.Proxmox.AdminToken" "KeyProxmoxAdminToken"
    ∷ set_str "ControlPlaneEndpointIP" (getenv "CONTROL_PLANE_ENDPOINT_IP" (lit "192.168.0.20"))
    ∷ set_str "ControlPlaneEndpointPort" (getenv "CONTROL_PLANE_ENDPOINT_PORT" (lit "6443"))
    ∷ set_str "NodeIPRanges" (getenv "NODE_IP_RANGES" (lit "192.168.0.21-192.168.0.30"))
    ∷ set_str "Gateway" (getenv "GATEWAY" (lit "192.168.0.1"))
    ∷ set_str "IPPrefix" (getenv "IP_PREFIX" (lit "24"))
    ∷ set_str "DNSServers" (getenv "DNS_SERVERS" (lit "8.8.8.8,8.8.4.4"))
    ∷ set_bool "DNSServersExplicit" (env_bool "DNS_SERVERS_EXPLICIT" false)
    ∷ set_bool "GatewayExplicit" (env_bool "GATEWAY_EXPLICIT" false)
    ∷ set_bool "IPPrefixExplicit" (env_bool "IP_PREFIX_EXPLICIT" false)
    ∷ set_bool "NodeIPRangesExplicit" (env_bool "NODE_IP_RANGES_EXPLICIT" false)
    ∷ set_bool "AllowedNodesExplicit" (env_bool "ALLOWED_NODES_EXPLICIT" false)
    ∷ set_str "AllowedNodes" (getenv "ALLOWED_NODES" (of_field "Providers.Proxmox.Node"))
    ∷ set_str "VMSSHKeys" (getenv "VM_SSH_KEYS" (lit ""))
    ∷ set_str "Providers.Proxmox.CSIURL" (getenv "PROXMOX_CSI_URL" (lit ""))
    ∷ set_str "Providers.Proxmox.CSITokenID" (getenv "PROXMOX_CSI_TOKEN_ID" (lit ""))
    ∷ set_str "Providers.Proxmox.CSITokenSecret" (getenv "PROXMOX_CSI_TOKEN_SECRET" (lit ""))
    ∷ set_str "Providers.Proxmox.CSIUserID" (getenv "PROXMOX_CSI_USER_ID" (lit ""))
    ∷ set_str "Providers.Proxmox.CSITokenPrefix" (getenv "PROXMOX_CSI_TOKEN_PREFIX" (lit "csi"))
    ∷ set_str "Providers.Proxmox.CSIInsecure"
        (getenv "PROXMOX_CSI_INSECURE" (of_field "Providers.Proxmox.AdminInsecure"))
    ∷ set_str "Providers.Proxmox.CSIStorageClassName"
        (getenv "PROXMOX_CSI_STORAGE_CLASS_NAME" (lit "proxmox-data-xfs"))
    ∷ set_str "Providers.Proxmox.CSIMgmtStorageClassName"
        (getenv "PROXMOX_CSI_MGMT_STORAGE_CLASS" (lit ""))
    ∷ set_str "Providers.Proxmox.CSIStorage" (getenv "PROXMOX_CSI_STORAGE" (lit "local-lvm"))
    ∷ set_str "Providers.Proxmox.CloudinitStorage"
        (getenv "PROXMOX_CLOUDINIT_STORAGE" (lit "local"))
    ∷ set_str "Providers.Proxmox.MemoryAdjustment" (getenv "PROXMOX_MEMORY_ADJUSTMENT" (lit "0"))
    ∷ set_str "Providers.Proxmox.CSIReclaimPolicy"
        (getenv "PROXMOX_CSI_RECLAIM_POLICY" (lit "Delete"))
    ∷ set_str "Providers.Proxmox.CSIFsType" (getenv "PROXMOX_CSI_FSTYPE" (lit "xfs"))
    ∷ set_str "Providers.Proxmox.CSIDefaultClass" (getenv "PROXMOX_CSI_DEFAULT_CLASS" (lit "true"))
    ∷ set_str "Providers.Proxmox.CAPIUserID" (getenv "PROXMOX_CAPI_USER_ID" (lit ""))
    ∷ set_str "Providers.Proxmox.CAPITokenPrefix" (getenv "PROXMOX_CAPI_TOKEN_PREFIX" (lit "capi"))
    ∷ set_str "Providers.Proxmox.ControlPlaneBootVolumeDevice"
        (getenv "CONTROL_PLANE_BOOT_VOLUME_DEVICE" (lit "scsi0"))
    ∷ set_str "Providers.Proxmox.ControlPlaneBootVolumeSize"
        (getenv "CONTROL_PLANE_BOOT_VOLUME_SIZE" (lit "40"))
    ∷ set_str "Providers.Proxmox.ControlPlaneNumSockets"
        (getenv "CONTROL_PLANE_NUM_SOCKETS" (lit "1"))
    ∷ set_str "Providers.Proxmox.ControlPlaneNumCores" (getenv "CONTROL_PLANE_NUM_CORES" (lit "2"))
    ∷ set_str "Providers.Proxmox.ControlPlaneMemoryMiB"
        (getenv "CONTROL_PLANE_MEMORY_MIB" (lit "4096"))
    ∷ set_str "Providers.Proxmox.WorkerBootVolumeDevice"
        (getenv "WORKER_BOOT_VOLUME_DEVICE" (lit "scsi0"))
    ∷ set_str "Providers.Proxmox.WorkerBootVolumeSize" (getenv "WORKER_BOOT_VOLUME_SIZE" (lit "40"))
    ∷ set_str "Providers.Proxmox.WorkerNumSockets" (getenv "WORKER_NUM_SOCKETS" (lit "1"))
    ∷ set_str "Providers.Proxmox.WorkerNumCores" (getenv "WORKER_NUM_CORES" (lit "2"))
    ∷ set_str "Providers.Proxmox.WorkerMemoryMiB" (getenv "WORKER_MEMORY_MIB" (lit "4096"))
    ∷ set_str "WorkloadControlPlaneTemplateID"
        (getenv "WORKLOAD_CONTROL_PLANE_TEMPLATE_ID" (lit ""))
    ∷ set_str "WorkloadWorkerTemplateID" (getenv "WORKLOAD_WORKER_TEMPLATE_ID" (lit ""))
    ∷ set_str "Providers.Proxmox.Mgmt.ControlPlaneTemplateID"
        (getenv "MGMT_CONTROL_PLANE_TEMPLATE_ID" (lit ""))
    ∷ set_str "Providers.Proxmox.Mgmt.WorkerTemplateID" (getenv "MGMT_WORKER_TEMPLATE_ID" (lit ""))
    ∷ set_str "WorkloadClusterName" (getenv "WORKLOAD_CLUSTER_NAME" (lit "capi-quickstart"))
    ∷ set_str "WorkloadCiliumClusterID" (getenv "WORKLOAD_CILIUM_CLUSTER_ID" (lit ""))
    ∷ set_str "WorkloadClusterNamespace" (getenv "WORKLOAD_CLUSTER_NAMESPACE" (lit "default"))
    ∷ set_bool "WorkloadClusterNameExplicit"
        (loose_or_set "WORKLOAD_CLUSTER_NAME_EXPLICIT" "WORKLOAD_CLUSTER_NAME")
    ∷ set_bool "WorkloadClusterNamespaceExplicit"
        (loose_or_set "WORKLOAD_CLUSTER_NAMESPACE_EXPLICIT" "WORKLOAD_CLUSTER_NAMESPACE")
    ∷ set_str "ConfigName" (getenv "YAGE_CONFIG_NAME" (lit ""))
    ∷ set_bool "ConfigNameExplicit" (loose_or_set "YAGE_CONFIG_NAME_EXPLICIT" "YAGE_CONFIG_NAME")
    ∷ []
