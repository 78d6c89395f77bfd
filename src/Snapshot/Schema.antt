-- ===== src/Snapshot/Schema.antt =====
-- internal/config/snapshot.go: the schema of Snapshot in order.
use yage.Prelude.{List, [], ◌∷◌, ◌++◌}
use yage.Snapshot.Field.{SnapshotField, field, guarded, text, switch, positive_int, app_groups}

abbrev pub host_schema : List SnapshotField
host_schema =
    field "KIND_VERSION" (text "KindVersion")
    ∷ field "KUBECTL_VERSION" (text "KubectlVersion")
    ∷ field "CLUSTERCTL_VERSION" (text "ClusterctlVersion")
    ∷ field "OPENTOFU_VERSION" (text "OpenTofuVersion")
    ∷ field "CILIUM_CLI_VERSION" (text "CiliumCLIVersion")
    ∷ field "CILIUM_VERSION" (text "CiliumVersion")
    ∷ field "CILIUM_WAIT_DURATION" (text "CiliumWaitDuration")
    ∷ field "CILIUM_INGRESS" (text "CiliumIngress")
    ∷ field "CILIUM_KUBE_PROXY_REPLACEMENT" (text "CiliumKubeProxyReplacement")
    ∷ field "CILIUM_LB_IPAM" (text "CiliumLBIPAM")
    ∷ field "CILIUM_LB_IPAM_POOL_CIDR" (text "CiliumLBIPAMPoolCIDR")
    ∷ field "CILIUM_LB_IPAM_POOL_START" (text "CiliumLBIPAMPoolStart")
    ∷ field "CILIUM_LB_IPAM_POOL_STOP" (text "CiliumLBIPAMPoolStop")
    ∷ field "CILIUM_LB_IPAM_POOL_NAME" (text "CiliumLBIPAMPoolName")
    ∷ field "CILIUM_HUBBLE" (text "CiliumHubble")
    ∷ field "CILIUM_HUBBLE_UI" (text "CiliumHubbleUI")
    ∷ field "CILIUM_IPAM_CLUSTER_POOL_IPV4" (text "CiliumIPAMClusterPoolIPv4")
    ∷ field "CILIUM_IPAM_CLUSTER_POOL_IPV4_MASK_SIZE" (text "CiliumIPAMClusterPoolIPv4MaskSize")
    ∷ field "CILIUM_GATEWAY_API_ENABLED" (text "CiliumGatewayAPIEnabled")
    ∷ field "ARGOCD_DISABLE_OPERATOR_MANAGED_INGRESS" (text "ArgoCD.DisableOperatorManagedIngress")
    ∷ field "CAPMOX_VERSION" (text "CAPMOXVersion")
    ∷ field "IPAM_IMAGE" (text "IPAMImage")
    ∷ field "ARGOCD_VERSION" (text "ArgoCD.Version")
    ∷ field "WORKLOAD_GITOPS_MODE" (text "WorkloadGitopsMode")
    ∷ field "WORKLOAD_APP_OF_APPS_GIT_URL" (text "ArgoCD.AppOfAppsGitURL")
    ∷ field "WORKLOAD_APP_OF_APPS_GIT_PATH" (text "ArgoCD.AppOfAppsGitPath")
    ∷ field "WORKLOAD_APP_OF_APPS_GIT_REF" (text "ArgoCD.AppOfAppsGitRef")
    ∷ field "PROXMOX_CSI_CHART_VERSION" (text "Providers.Proxmox.CSIChartVersion")
    ∷ field "KYVERNO_CHART_VERSION" (text "KyvernoChartVersion")
    ∷ field "KYVERNO_CLI_VERSION" (text "KyvernoCLIVersion")
    ∷ field "CERT_MANAGER_CHART_VERSION" (text "CertManagerChartVersion")
    ∷ field "CMCTL_VERSION" (text "CmctlVersion")
    ∷ field "CROSSPLANE_CHART_VERSION" (text "CrossplaneChartVersion")
    ∷ field "CNPG_CHART_VERSION" (text "CNPGChartVersion")
    ∷ field "EXTERNAL_SECRETS_CHART_VERSION" (text "ExternalSecretsChartVersion")
    ∷ field "INFISICAL_CHART_VERSION" (text "InfisicalChartVersion")
    ∷ field "SPIRE_CHART_VERSION" (text "SPIREChartVersion")
    ∷ field "SPIRE_CRDS_CHART_VERSION" (text "SPIRECRDsChartVersion")
    ∷ field "OTEL_CHART_VERSION" (text "OTELChartVersion")
    ∷ field "GRAFANA_CHART_VERSION" (text "GrafanaChartVersion")
    ∷ field "VICTORIAMETRICS_CHART_VERSION" (text "VictoriaMetricsChartVersion")
    ∷ field "BACKSTAGE_CHART_VERSION" (text "BackstageChartVersion")
    ∷ field "KEYCLOAK_CHART_VERSION" (text "KeycloakChartVersion")
    ∷ field "KIND_CLUSTER_NAME" (text "KindClusterName")
    ∷ field "CLUSTER_ID" (text "ClusterID")
    ∷ field "PROXMOX_URL" (text "Providers.Proxmox.URL")
    ∷ field "PROXMOX_ADMIN_USERNAME" (text "Providers.Proxmox.AdminUsername")
    ∷ field "PROXMOX_ADMIN_INSECURE" (text "Providers.Proxmox.AdminInsecure")
    ∷ field "PROXMOX_REGION" (text "Providers.Proxmox.Region")
    ∷ field "PROXMOX_NODE" (text "Providers.Proxmox.Node")
    ∷ field "PROXMOX_SOURCENODE" (text "Providers.Proxmox.SourceNode")
    ∷ field "PROXMOX_CLOUDINIT_STORAGE" (text "Providers.Proxmox.CloudinitStorage")
    ∷ field "PROXMOX_TEMPLATE_ID" (text "Providers.Proxmox.TemplateID")
    ∷ field "PROXMOX_BRIDGE" (text "Providers.Proxmox.Bridge")
    ∷ guarded "PROXMOX_POOL" "PROXMOX_POOL_EXPLICIT" (text "Providers.Proxmox.Pool")
    ∷ guarded "MGMT_PROXMOX_POOL" "MGMT_PROXMOX_POOL_EXPLICIT" (text "Providers.Proxmox.Mgmt.Pool")
    ∷ field "CONTROL_PLANE_ENDPOINT_IP" (text "ControlPlaneEndpointIP")
    ∷ field "CONTROL_PLANE_ENDPOINT_PORT" (text "ControlPlaneEndpointPort")
    ∷ guarded "NODE_IP_RANGES" "NODE_IP_RANGES_EXPLICIT" (text "NodeIPRanges")
    ∷ guarded "GATEWAY" "GATEWAY_EXPLICIT" (text "Gateway")
    ∷ guarded "IP_PREFIX" "IP_PREFIX_EXPLICIT" (text "IPPrefix")
    ∷ guarded "DNS_SERVERS" "DNS_SERVERS_EXPLICIT" (text "DNSServers")
    ∷ guarded "ALLOWED_NODES" "ALLOWED_NODES_EXPLICIT" (text "AllowedNodes")
    ∷ field "VM_SSH_KEYS" (text "VMSSHKeys")
    ∷ field "PROXMOX_BOOTSTRAP_CONFIG_FILE" (text "Providers.Proxmox.BootstrapConfigFile")
    ∷ field "BOOTSTRAP_REGENERATE_CAPI_MANIFEST" (switch "BootstrapRegenerateCAPIManifest")
    ∷ field "BOOTSTRAP_SKIP_IMMUTABLE_MANIFEST_WARNING"
        (switch "BootstrapSkipImmutableManifestWarning")
    ∷ field "CAPI_PROXMOX_MACHINE_TEMPLATE_SPEC_REV"
        (switch "Providers.Proxmox.CAPIMachineTemplateSpecRev")
    ∷ field "PROXMOX_CAPI_USER_ID" (text "Providers.Proxmox.CAPIUserID")
    ∷ field "PROXMOX_CAPI_TOKEN_PREFIX" (text "Providers.Proxmox.CAPITokenPrefix")
    ∷ field "PROXMOX_MEMORY_ADJUSTMENT" (text "Providers.Proxmox.MemoryAdjustment")
    ∷ []

abbrev pub cluster_schema : List SnapshotField
cluster_schema =
    field "CONTROL_PLANE_BOOT_VOLUME_DEVICE" (text "Providers.Proxmox.ControlPlaneBootVolumeDevice")
    ∷ field "CONTROL_PLANE_BOOT_VOLUME_SIZE" (text "Providers.Proxmox.ControlPlaneBootVolumeSize")
    ∷ field "CONTROL_PLANE_NUM_SOCKETS" (text "Providers.Proxmox.ControlPlaneNumSockets")
    ∷ field "CONTROL_PLANE_NUM_CORES" (text "Providers.Proxmox.ControlPlaneNumCores")
    ∷ field "CONTROL_PLANE_MEMORY_MIB" (text "Providers.Proxmox.ControlPlaneMemoryMiB")
    ∷ field "WORKER_BOOT_VOLUME_DEVICE" (text "Providers.Proxmox.WorkerBootVolumeDevice")
    ∷ field "WORKER_BOOT_VOLUME_SIZE" (text "Providers.Proxmox.WorkerBootVolumeSize")
    ∷ field "WORKER_NUM_SOCKETS" (text "Providers.Proxmox.WorkerNumSockets")
    ∷ field "WORKER_NUM_CORES" (text "Providers.Proxmox.WorkerNumCores")
    ∷ field "WORKER_MEMORY_MIB" (text "Providers.Proxmox.WorkerMemoryMiB")
    ∷ field "VSPHERE_CONTROL_PLANE_NUM_CPUS" (text "Providers.Vsphere.ControlPlaneNumCPUs")
    ∷ field "VSPHERE_CONTROL_PLANE_NUM_CORES_PER_SOCKET"
        (text "Providers.Vsphere.ControlPlaneNumCoresPerSocket")
    ∷ field "VSPHERE_CONTROL_PLANE_MEMORY_MIB" (text "Providers.Vsphere.ControlPlaneMemoryMiB")
    ∷ field "VSPHERE_CONTROL_PLANE_DISK_GIB" (text "Providers.Vsphere.ControlPlaneDiskGiB")
    ∷ field "VSPHERE_WORKER_NUM_CPUS" (text "Providers.Vsphere.WorkerNumCPUs")
    ∷ field "VSPHERE_WORKER_NUM_CORES_PER_SOCKET" (text "Providers.Vsphere.WorkerNumCoresPerSocket")
    ∷ field "VSPHERE_WORKER_MEMORY_MIB" (text "Providers.Vsphere.WorkerMemoryMiB")
    ∷ field "VSPHERE_WORKER_DISK_GIB" (text "Providers.Vsphere.WorkerDiskGiB")
    ∷ guarded "YAGE_CONFIG_NAME" "YAGE_CONFIG_NAME_EXPLICIT" (text "ConfigName")
    ∷ guarded "WORKLOAD_CLUSTER_NAME" "WORKLOAD_CLUSTER_NAME_EXPLICIT" (text "WorkloadClusterName")
    ∷ guarded "WORKLOAD_CLUSTER_NAMESPACE" "WORKLOAD_CLUSTER_NAMESPACE_EXPLICIT"
        (text "WorkloadClusterNamespace")
    ∷ field "WORKLOAD_CILIUM_CLUSTER_ID" (text "WorkloadCiliumClusterID")
    ∷ guarded "WORKLOAD_KUBERNETES_VERSION" "WORKLOAD_KUBERNETES_VERSION_EXPLICIT"
        (text "WorkloadKubernetesVersion")
    ∷ field "PIVOT_ENABLED" (switch "Pivot.Enabled")
    ∷ guarded "MGMT_CLUSTER_NAME" "MGMT_CLUSTER_NAME_EXPLICIT" (text "Mgmt.ClusterName")
    ∷ guarded "MGMT_CLUSTER_NAMESPACE" "MGMT_CLUSTER_NAMESPACE_EXPLICIT"
        (text "Mgmt.ClusterNamespace")
    ∷ guarded "MGMT_KUBERNETES_VERSION" "MGMT_KUBERNETES_VERSION_EXPLICIT"
        (text "Mgmt.KubernetesVersion")
    ∷ field "MGMT_CILIUM_CLUSTER_ID" (text "Mgmt.CiliumClusterID")
    ∷ field "MGMT_CONTROL_PLANE_MACHINE_COUNT" (text "Mgmt.ControlPlaneMachineCount")
    ∷ field "MGMT_WORKER_MACHINE_COUNT" (text "Mgmt.WorkerMachineCount")
    ∷ field "MGMT_CONTROL_PLANE_ENDPOINT_IP" (text "Mgmt.ControlPlaneEndpointIP")
    ∷ field "MGMT_CONTROL_PLANE_ENDPOINT_PORT" (text "Mgmt.ControlPlaneEndpointPort")
    ∷ field "MGMT_NODE_IP_RANGES" (text "Mgmt.NodeIPRanges")
    ∷ field "MGMT_CONTROL_PLANE_NUM_SOCKETS" (text "Providers.Proxmox.Mgmt.ControlPlaneNumSockets")
    ∷ field "MGMT_CONTROL_PLANE_NUM_CORES" (text "Providers.Proxmox.Mgmt.ControlPlaneNumCores")
    ∷ field "MGMT_CONTROL_PLANE_MEMORY_MIB" (text "Providers.Proxmox.Mgmt.ControlPlaneMemoryMiB")
    ∷ field "MGMT_CILIUM_HUBBLE" (text "Mgmt.CiliumHubble")
    ∷ field "MGMT_CILIUM_LB_IPAM" (text "Mgmt.CiliumLBIPAM")
    ∷ field "MGMT_PROXMOX_CSI_ENABLED" (switch "Providers.Proxmox.Mgmt.CSIEnabled")
    ∷ field "WORKLOAD_CONTROL_PLANE_TEMPLATE_ID" (text "WorkloadControlPlaneTemplateID")
    ∷ field "WORKLOAD_WORKER_TEMPLATE_ID" (text "WorkloadWorkerTemplateID")
    ∷ field "MGMT_CONTROL_PLANE_TEMPLATE_ID" (text "Providers.Proxmox.Mgmt.ControlPlaneTemplateID")
    ∷ field "MGMT_WORKER_TEMPLATE_ID" (text "Providers.Proxmox.Mgmt.WorkerTemplateID")
    ∷ []

abbrev pub workload_schema : List SnapshotField
workload_schema =
    field "CONTROL_PLANE_MACHINE_COUNT" (text "ControlPlaneMachineCount")
    ∷ field "WORKER_MACHINE_COUNT" (text "WorkerMachineCount")
    ∷ field "ARGOCD_ENABLED" (switch "ArgoCD.Enabled")
    ∷ field "WORKLOAD_ARGOCD_ENABLED" (switch "ArgoCD.WorkloadEnabled")
    ∷ field "ARGOCD_SERVER_INSECURE" (text "ArgoCD.ServerInsecure")
    ∷ field "WORKLOAD_ARGOCD_NAMESPACE" (text "ArgoCD.WorkloadNamespace")
    ∷ field "ARGOCD_OPERATOR_VERSION" (text "ArgoCD.OperatorVersion")
    ∷ field "ARGOCD_OPERATOR_ARGOCD_PROMETHEUS_ENABLED" (text "ArgoCD.PrometheusEnabled")
    ∷ field "ARGOCD_OPERATOR_ARGOCD_MONITORING_ENABLED" (text "ArgoCD.MonitoringEnabled")
    ∷ field "ENABLE_METRICS_SERVER" (switch "EnableMetricsServer")
    ∷ field "ENABLE_WORKLOAD_METRICS_SERVER" (switch "EnableWorkloadMetricsServer")
    ∷ field "WORKLOAD_METRICS_SERVER_INSECURE_TLS" (text "WorkloadMetricsServerInsecureTLS")
    ∷ field "METRICS_SERVER_MANIFEST_URL" (text "MetricsServerManifestURL")
    ∷ field "METRICS_SERVER_GIT_CHART_TAG" (text "MetricsServerGitChartTag")
    ∷ field "PROXMOX_CSI_ENABLED" (switch "Providers.Proxmox.CSIEnabled")
    ∷ field "PROXMOX_CSI_SMOKE_ENABLED" (switch "Providers.Proxmox.CSISmokeEnabled")
    ∷ field "ARGO_WORKLOAD_POSTSYNC_HOOKS_ENABLED" (switch "ArgoCD.PostsyncHooksEnabled")
    ∷ field "ARGO_WORKLOAD_POSTSYNC_HOOKS_GIT_URL" (text "ArgoCD.PostsyncHooksGitURL")
    ∷ field "ARGO_WORKLOAD_POSTSYNC_HOOKS_GIT_PATH" (text "ArgoCD.PostsyncHooksGitPath")
    ∷ field "ARGO_WORKLOAD_POSTSYNC_HOOKS_GIT_REF" (text "ArgoCD.PostsyncHooksGitRef")
    ∷ field "KYVERNO_ENABLED" (switch "KyvernoEnabled")
    ∷ field "CERT_MANAGER_ENABLED" (switch "CertManagerEnabled")
    ∷ field "CROSSPLANE_ENABLED" (switch "CrossplaneEnabled")
    ∷ field "CNPG_ENABLED" (switch "CNPGEnabled")
    ∷ field "VICTORIAMETRICS_ENABLED" (switch "VictoriaMetricsEnabled")
    ∷ field "EXTERNAL_SECRETS_ENABLED" (switch "ExternalSecretsEnabled")
    ∷ field "INFISICAL_OPERATOR_ENABLED" (switch "InfisicalOperatorEnabled")
    ∷ field "SPIRE_ENABLED" (switch "SPIREEnabled")
    ∷ field "OTEL_ENABLED" (switch "OTELEnabled")
    ∷ field "GRAFANA_ENABLED" (switch "GrafanaEnabled")
    ∷ field "BACKSTAGE_ENABLED" (switch "BackstageEnabled")
    ∷ field "KEYCLOAK_ENABLED" (switch "KeycloakEnabled")
    ∷ field "EXP_CLUSTER_RESOURCE_SET" (text "ExpClusterResourceSet")
    ∷ field "CLUSTER_TOPOLOGY" (text "ClusterTopology")
    ∷ field "EXP_KUBEADM_BOOTSTRAP_FORMAT_IGNITION" (text "ExpKubeadmBootstrapFormatIgnition")
    ∷ field "CLUSTER_SET_ID" (text "ClusterSetID")
    ∷ field "PROXMOX_IDENTITY_SUFFIX" (text "Providers.Proxmox.IdentitySuffix")
    ∷ field "XAPIRI_WORKLOAD_ENVIRONMENT" (text "Workload.Environment")
    ∷ field "XAPIRI_WORKLOAD_RESILIENCE" (text "Workload.Resilience")
    ∷ field "XAPIRI_WORKLOAD_DB_GB" (positive_int "Workload.DatabaseGB")
    ∷ field "XAPIRI_WORKLOAD_EGRESS_GB_MONTH" (positive_int "Workload.EgressGBMonth")
    ∷ field "XAPIRI_WORKLOAD_APPS" app_groups
    ∷ field "XAPIRI_WORKLOAD_HAS_QUEUE" (switch "Workload.HasQueue")
    ∷ field "XAPIRI_WORKLOAD_HAS_OBJ_STORE" (switch "Workload.HasObjStore")
    ∷ field "XAPIRI_WORKLOAD_HAS_CACHE" (switch "Workload.HasCache")
    ∷ field "YAGE_REGISTRY_NODE" (text "RegistryNode")
    ∷ field "YAGE_REGISTRY_VM_FLAVOR" (text "RegistryVMFlavor")
    ∷ field "YAGE_REGISTRY_NETWORK" (text "RegistryNetwork")
    ∷ field "YAGE_REGISTRY_STORAGE" (text "RegistryStorage")
    ∷ field "YAGE_REGISTRY_FLAVOR" (text "RegistryFlavor")
    ∷ field "YAGE_TOFU_REPO" (text "TofuRepo")
    ∷ field "YAGE_TOFU_REF" (text "TofuRef")
    ∷ field "YAGE_MANIFESTS_REPO" (text "ManifestsRepo")
    ∷ field "YAGE_MANIFESTS_REF" (text "ManifestsRef")
    ∷ field "YAGE_REPOS_PVC_SIZE" (text "ReposPVCSize")
    ∷ []

abbrev pub schema : List SnapshotField
schema = host_schema ++ (cluster_schema ++ workload_schema)
