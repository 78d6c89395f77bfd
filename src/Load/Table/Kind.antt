-- ===== src/Load/Table/Kind.antt =====
-- internal/config/config.go: statements of Load, from Providers.OCI.NodeShape to EnableWorkloadMetricsServer.
use yage.Prelude.{List, [], ◌∷◌, true, false}
use yage.Load.Syntax.{
  Statement, when_unset, set_bool, set_whole, set_str, env_bool, lit, plus, of_field, getenv,
}

abbrev pub kind_settings : List Statement
kind_settings =
    set_str "Providers.OCI.NodeShape" (getenv "OCI_NODE_SHAPE" (lit "VM.Standard.E4.Flex"))
    ∷ set_str "Providers.OCI.TenancyOCID" (getenv "OCI_TENANCY_OCID" (lit ""))
    ∷ set_str "Providers.OCI.UserOCID" (getenv "OCI_USER_OCID" (lit ""))
    ∷ set_str "Providers.OCI.Fingerprint" (getenv "OCI_FINGERPRINT" (lit ""))
    ∷ set_str "Providers.OCI.CompartmentOCID" (getenv "OCI_COMPARTMENT_OCID" (lit ""))
    ∷ set_str "Providers.OCI.ImageID" (getenv "OCI_IMAGE_ID" (lit ""))
    ∷ set_str "Providers.OCI.PrivateKeyPath" (getenv "OCI_PRIVATE_KEY_PATH" (lit ""))
    ∷ set_str "Providers.OCI.OverheadTier" (getenv "OCI_OVERHEAD_TIER" (lit "prod"))
    ∷ set_str "Providers.IBMCloud.Region" (getenv "IBMCLOUD_REGION" (lit "us-south"))
    ∷ set_str "Providers.IBMCloud.ControlPlaneProfile"
        (getenv "IBMCLOUD_CONTROL_PLANE_PROFILE" (lit "bx2-2x8"))
    ∷ set_str "Providers.IBMCloud.NodeProfile" (getenv "IBMCLOUD_NODE_PROFILE" (lit "bx2-2x8"))
    ∷ set_str "Providers.IBMCloud.ResourceGroup" (getenv "IBMCLOUD_RESOURCE_GROUP" (lit ""))
    ∷ set_str "Providers.IBMCloud.VPCName" (getenv "IBMCLOUD_VPC_NAME" (lit ""))
    ∷ set_str "Providers.IBMCloud.Zone" (getenv "IBMCLOUD_ZONE" (lit ""))
    ∷ set_str "Providers.IBMCloud.ImageID" (getenv "IBMCLOUD_VPC_IMAGE_ID" (lit ""))
    ∷ set_whole "Capacity.SystemAppsCPUMillicores" "SYSTEM_APPS_CPU_MILLICORES" 2000
    ∷ set_whole "Capacity.SystemAppsMemoryMiB" "SYSTEM_APPS_MEMORY_MIB" 4096
    ∷ set_str "ClusterID" (getenv "CLUSTER_ID" (lit "1"))
    ∷ set_str "KindClusterName" (getenv "KIND_CLUSTER_NAME" (lit ""))
    ∷ set_str "ClusterName" (getenv "CLUSTER_NAME" (lit ""))
    ∷ set_str "KindConfig" (getenv "KIND_CONFIG" (lit ""))
    ∷ set_str "CAPIManifest" (getenv "CAPI_MANIFEST" (lit ""))
    ∷ set_bool "BootstrapRegenerateCAPIManifest"
        (env_bool "BOOTSTRAP_REGENERATE_CAPI_MANIFEST" false)
    ∷ set_bool "BootstrapSkipImmutableManifestWarning"
        (env_bool "BOOTSTRAP_SKIP_IMMUTABLE_MANIFEST_WARNING" false)
    ∷ set_bool "BootstrapClusterctlRegeneratedManifest"
        (env_bool "BOOTSTRAP_CLUSTERCTL_REGENERATED_MANIFEST" false)
    ∷ set_bool "Providers.Proxmox.CAPIMachineTemplateSpecRev"
        (env_bool "CAPI_PROXMOX_MACHINE_TEMPLATE_SPEC_REV" true)
    ∷ set_str "CAPIManifestSecretNamespace"
        (getenv "CAPI_MANIFEST_SECRET_NAMESPACE" (lit "yage-system"))
    ∷ set_str "CAPIManifestSecretName"
        (getenv "CAPI_MANIFEST_SECRET_NAME" (lit "proxmox-yage-manifest"))
    ∷ set_str "CAPIManifestSecretKey" (getenv "CAPI_MANIFEST_SECRET_KEY" (lit "workload.yaml"))
    ∷ set_str "Providers.Proxmox.BootstrapConfigFile"
        (getenv "PROXMOX_BOOTSTRAP_CONFIG_FILE" (lit ""))
    ∷ set_str "Providers.Proxmox.BootstrapConfigSecretName"
        (getenv "PROXMOX_BOOTSTRAP_CONFIG_SECRET_NAME" (lit "proxmox-bootstrap-config"))
    ∷ set_str "Providers.Proxmox.BootstrapConfigSecretKey"
        (getenv "PROXMOX_BOOTSTRAP_CONFIG_SECRET_KEY" (lit "config.yaml"))
    ∷ set_str "Providers.Proxmox.BootstrapAdminSecretKey"
        (getenv "PROXMOX_BOOTSTRAP_ADMIN_SECRET_KEY" (lit "proxmox-admin.yaml"))
    ∷ set_str "BootstrapKindBackupNamespaces" (getenv "BOOTSTRAP_KIND_BACKUP_NAMESPACES" (lit ""))
    ∷ set_str "BootstrapKindBackupOut" (getenv "BOOTSTRAP_KIND_BACKUP_OUT" (lit ""))
    ∷ set_str "BootstrapKindBackupEncrypt" (getenv "BOOTSTRAP_KIND_BACKUP_ENCRYPT" (lit "auto"))
    ∷ set_str "BootstrapKindBackupPassphrase" (getenv "BOOTSTRAP_KIND_BACKUP_PASSPHRASE" (lit ""))
    ∷ set_str "BootstrapKindStateOp" (getenv "BOOTSTRAP_KIND_STATE_OP" (lit ""))
    ∷ set_str "BootstrapKindStatePath" (getenv "BOOTSTRAP_KIND_STATE_PATH" (lit ""))
    ∷ when_unset "INFRA_PROVIDER" "InfraProviderDefaulted"
    ∷ set_str "InfraProvider" (getenv "INFRA_PROVIDER" (lit ""))
    ∷ set_str "IPAMProvider" (getenv "IPAM_PROVIDER" (lit "in-cluster"))
    ∷ set_str "CAPMOXRepo" (
        getenv "CAPMOX_REPO"
          (lit "https://github.com/ionos-cloud/cluster-api-provider-proxmox.git"))
    ∷ set_str "CAPMOXImageRepo"
        (getenv "CAPMOX_IMAGE_REPO" (lit "ghcr.io/ionos-cloud/cluster-api-provider-proxmox"))
    ∷ set_str "CAPMOXBuildDir" (getenv "CAPMOX_BUILD_DIR" (lit "./cluster-api-provider-proxmox"))
    ∷ set_str "CAPMOXVersion" (getenv "CAPMOX_VERSION" (lit "v0.8.1"))
    ∷ set_str "CAPICoreRepo"
        (getenv "CAPI_CORE_REPO" (lit "https://github.com/kubernetes-sigs/cluster-api.git"))
    ∷ set_str "CAPICoreImage" (
        getenv "CAPI_CORE_IMAGE" (
          plus (lit "registry.k8s.io/cluster-api/cluster-api-controller:")
            (of_field "ClusterctlVersion")))
    ∷ set_str "CAPIBootstrapImage" (
        getenv "CAPI_BOOTSTRAP_IMAGE" (
          plus (lit "registry.k8s.io/cluster-api/kubeadm-bootstrap-controller:")
            (of_field "ClusterctlVersion")))
    ∷ set_str "CAPIControlplaneImage" (
        getenv "CAPI_CONTROLPLANE_IMAGE" (
          plus (lit "registry.k8s.io/cluster-api/kubeadm-control-plane-controller:")
            (of_field "ClusterctlVersion")))
    ∷ set_str "IPAMImage" (
        getenv "IPAM_IMAGE"
          (lit "registry.k8s.io/capi-ipam-ic/cluster-api-ipam-in-cluster-controller:v1.0.3"))
    ∷ set_str "IPAMRepo" (
        getenv "IPAM_REPO"
          (lit "https://github.com/kubernetes-sigs/cluster-api-ipam-provider-in-cluster.git"))
    ∷ set_str "ExpClusterResourceSet" (getenv "EXP_CLUSTER_RESOURCE_SET" (lit "false"))
    ∷ set_str "ClusterTopology" (getenv "CLUSTER_TOPOLOGY" (lit "true"))
    ∷ set_str "ExpKubeadmBootstrapFormatIgnition"
        (getenv "EXP_KUBEADM_BOOTSTRAP_FORMAT_IGNITION" (lit "true"))
    ∷ set_bool "EnableMetricsServer" (env_bool "ENABLE_METRICS_SERVER" true)
    ∷ set_bool "EnableWorkloadMetricsServer" (env_bool "ENABLE_WORKLOAD_METRICS_SERVER" true)
    ∷ []
