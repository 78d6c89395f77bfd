-- ===== src/Cli/Render/Sections.antt =====
-- internal/ui/cli/render.go: the emitters of each section in order, and the sections of a command.
use yage.Prelude.{String, List, [], ◌∷◌, ◌++◌, ◌==◌, if◌then◌else◌}
use yage.Cli.Entry.{
  Entry, flag, flag_int, flag_int_str, flag_float, flag_bool, flag_off, secret, secret_blank,
}

abbrev pub universal_entries : List Entry
universal_entries =
    flag "--kind-cluster-name" "KindClusterName"
    ∷ flag "--infra-provider" "InfraProvider"
    ∷ flag "--bootstrap-mode" "BootstrapMode"
    ∷ []

abbrev pub network_entries : List Entry
network_entries =
    flag "--control-plane-endpoint-ip" "ControlPlaneEndpointIP"
    ∷ flag "--control-plane-endpoint-port" "ControlPlaneEndpointPort"
    ∷ flag "--node-ip-ranges" "NodeIPRanges"
    ∷ flag "--gateway" "Gateway"
    ∷ flag "--ip-prefix" "IPPrefix"
    ∷ flag "--dns-servers" "DNSServers"
    ∷ flag "--allowed-nodes" "AllowedNodes"
    ∷ flag "--vm-ssh-keys" "VMSSHKeys"
    ∷ []

abbrev pub cost_entries : List Entry
cost_entries =
    flag "--data-center-location" "Cost.Currency.DataCenterLocation"
    ∷ flag_bool "--cost-compare" "CostCompare"
    ∷ flag_float "--budget-usd-month" "BudgetUSDMonth"
    ∷ flag_bool "--cost-compare-config" "CostCompareEnabled"
    ∷ flag "--skip-providers" "SkipProviders"
    ∷ flag_off "--no-managed-postgres" "UseManagedPostgres"
    ∷ flag_int "--postgres-cpu-millicores" "PostgresCPUMillicoresOverride"
    ∷ flag_int "--postgres-memory-mib" "PostgresMemoryMiBOverride"
    ∷ flag_int "--postgres-volume-gb" "PostgresVolumeGBOverride"
    ∷ flag_int "--mq-cpu-millicores" "MQCPUMillicoresOverride"
    ∷ flag_int "--mq-memory-mib" "MQMemoryMiBOverride"
    ∷ flag_int "--mq-volume-gb" "MQVolumeGBOverride"
    ∷ flag_int "--objstore-cpu-millicores" "ObjStoreCPUMillicoresOverride"
    ∷ flag_int "--objstore-memory-mib" "ObjStoreMemoryMiBOverride"
    ∷ flag_int "--objstore-volume-gb" "ObjStoreVolumeGBOverride"
    ∷ flag_int "--cache-cpu-millicores" "CacheCPUMillicoresOverride"
    ∷ flag_int "--cache-memory-mib" "CacheMemoryMiBOverride"
    ∷ []

abbrev pub tco_entries : List Entry
tco_entries =
    flag_float "--hardware-cost-usd" "HardwareCostUSD"
    ∷ flag_float "--hardware-useful-life-years" "HardwareUsefulLifeYears"
    ∷ flag_float "--hardware-watts" "HardwareWatts"
    ∷ flag_float "--hardware-kwh-rate-usd" "HardwareKWHRateUSD"
    ∷ flag_float "--hardware-support-usd-month" "HardwareSupportUSDMonth"
    ∷ []

abbrev pub workload_entries : List Entry
workload_entries =
    flag "--workload-cluster-name" "WorkloadClusterName"
    ∷ flag "--workload-cluster-namespace" "WorkloadClusterNamespace"
    ∷ flag "--workload-k8s-version" "WorkloadKubernetesVersion"
    ∷ flag_int_str "--control-plane-count" "ControlPlaneMachineCount"
    ∷ flag_int_str "--worker-count" "WorkerMachineCount"
    ∷ []

abbrev pub pivot_entries : List Entry
pivot_entries =
    flag_off "--no-pivot" "Pivot.Enabled"
    ∷ flag_bool "--pivot-keep-kind" "Pivot.KeepKind"
    ∷ flag_bool "--pivot-dry-run" "Pivot.DryRun"
    ∷ flag_bool "--stop-before-workload" "Pivot.StopBeforeWorkload"
    ∷ []

abbrev pub airgap_entries : List Entry
airgap_entries =
    flag_bool "--airgapped" "Airgapped"
    ∷ flag "--image-registry-mirror" "ImageRegistryMirror"
    ∷ flag "--internal-ca-bundle" "InternalCABundle"
    ∷ flag "--helm-repo-mirror" "HelmRepoMirror"
    ∷ flag "--node-image" "NodeImage"
    ∷ flag "--trace-endpoint" "TraceEndpoint"
    ∷ []

abbrev pub proxmox_entries : List Entry
proxmox_entries =
    flag "--proxmox-url" "Providers.Proxmox.URL"
    ∷ flag "--admin-username" "Providers.Proxmox.AdminUsername"
    ∷ secret "--admin-token" "Providers.Proxmox.AdminToken" "PROXMOX_ADMIN_TOKEN"
    ∷ secret "--proxmox-capi-token" "Providers.Proxmox.CAPIToken" "PROXMOX_CAPI_TOKEN"
    ∷ secret "--proxmox-capi-secret" "Providers.Proxmox.CAPISecret" "PROXMOX_CAPI_SECRET"
    ∷ flag "--region" "Providers.Proxmox.Region"
    ∷ flag "--node" "Providers.Proxmox.Node"
    ∷ flag "--bridge" "Providers.Proxmox.Bridge"
    ∷ flag "--template-id" "Providers.Proxmox.TemplateID"
    ∷ flag "--proxmox-pool" "Providers.Proxmox.Pool"
    ∷ flag "--cloudinit-storage" "Providers.Proxmox.CloudinitStorage"
    ∷ secret "--csi-token-id" "Providers.Proxmox.CSITokenID" "PROXMOX_CSI_TOKEN_ID"
    ∷ secret "--csi-token-secret" "Providers.Proxmox.CSITokenSecret" "PROXMOX_CSI_TOKEN_SECRET"
    ∷ flag "--control-plane-num-sockets" "Providers.Proxmox.ControlPlaneNumSockets"
    ∷ flag "--control-plane-num-cores" "Providers.Proxmox.ControlPlaneNumCores"
    ∷ flag "--control-plane-memory-mib" "Providers.Proxmox.ControlPlaneMemoryMiB"
    ∷ flag "--control-plane-boot-volume-size" "Providers.Proxmox.ControlPlaneBootVolumeSize"
    ∷ flag "--worker-num-sockets" "Providers.Proxmox.WorkerNumSockets"
    ∷ flag "--worker-num-cores" "Providers.Proxmox.WorkerNumCores"
    ∷ flag "--worker-memory-mib" "Providers.Proxmox.WorkerMemoryMiB"
    ∷ flag "--worker-boot-volume-size" "Providers.Proxmox.WorkerBootVolumeSize"
    ∷ []

abbrev pub aws_entries : List Entry
aws_entries =
    flag "--aws-mode" "Providers.AWS.Mode"
    ∷ flag "--aws-overhead-tier" "Providers.AWS.OverheadTier"
    ∷ flag_int_str "--aws-nat-gateway-count" "Providers.AWS.NATGatewayCount"
    ∷ flag_int_str "--aws-alb-count" "Providers.AWS.ALBCount"
    ∷ flag_int_str "--aws-nlb-count" "Providers.AWS.NLBCount"
    ∷ flag_int_str "--aws-data-transfer-gb" "Providers.AWS.DataTransferGB"
    ∷ flag_int_str "--aws-cloudwatch-logs-gb" "Providers.AWS.CloudWatchLogsGB"
    ∷ flag_int_str "--aws-route53-hosted-zones" "Providers.AWS.Route53HostedZones"
    ∷ flag_int_str "--aws-fargate-pod-count" "Providers.AWS.FargatePodCount"
    ∷ flag "--aws-fargate-pod-cpu" "Providers.AWS.FargatePodCPU"
    ∷ flag "--aws-fargate-pod-memory-gib" "Providers.AWS.FargatePodMemoryGiB"
    ∷ []

abbrev pub azure_entries : List Entry
azure_entries =
    flag "--azure-mode" "Providers.Azure.Mode"
    ∷ flag "--azure-subscription-id" "Providers.Azure.SubscriptionID"
    ∷ flag "--azure-tenant-id" "Providers.Azure.TenantID"
    ∷ flag "--azure-resource-group" "Providers.Azure.ResourceGroup"
    ∷ flag "--azure-vnet-name" "Providers.Azure.VNetName"
    ∷ flag "--azure-subnet-name" "Providers.Azure.SubnetName"
    ∷ flag "--azure-client-id" "Providers.Azure.ClientID"
    ∷ flag "--azure-identity-model" "Providers.Azure.IdentityModel"
    ∷ []

abbrev pub gcp_entries : List Entry
gcp_entries =
    flag "--gcp-mode" "Providers.GCP.Mode"
    ∷ flag "--gcp-network-name" "Providers.GCP.Network"
    ∷ flag "--gcp-image-family" "Providers.GCP.ImageFamily"
    ∷ flag "--gcp-identity-model" "Providers.GCP.IdentityModel"
    ∷ []

abbrev pub hetzner_entries : List Entry
hetzner_entries = secret "--hcloud-token" "Providers.Hetzner.Token" "HCLOUD_TOKEN" ∷ []

abbrev pub digitalocean_entries : List Entry
digitalocean_entries = secret_blank "--do-token" "DIGITALOCEAN_TOKEN" ∷ []

abbrev pub linode_entries : List Entry
linode_entries = secret_blank "--linode-token" "LINODE_TOKEN" ∷ []

abbrev pub oci_entries : List Entry
oci_entries = []

abbrev pub ibmcloud_entries : List Entry
ibmcloud_entries = secret_blank "--ibmcloud-api-key" "IBMCLOUD_API_KEY" ∷ []

abbrev pub openstack_entries : List Entry
openstack_entries =
    flag "--openstack-cloud" "Providers.OpenStack.Cloud"
    ∷ flag "--openstack-project-name" "Providers.OpenStack.ProjectName"
    ∷ flag "--openstack-region" "Providers.OpenStack.Region"
    ∷ flag "--openstack-failure-domain" "Providers.OpenStack.FailureDomain"
    ∷ flag "--openstack-image-name" "Providers.OpenStack.ImageName"
    ∷ flag "--openstack-control-plane-flavor" "Providers.OpenStack.ControlPlaneFlavor"
    ∷ flag "--openstack-worker-flavor" "Providers.OpenStack.WorkerFlavor"
    ∷ flag "--openstack-dns-nameservers" "Providers.OpenStack.DNSNameservers"
    ∷ flag "--openstack-ssh-key-name" "Providers.OpenStack.SSHKeyName"
    ∷ []

abbrev pub vsphere_entries : List Entry
vsphere_entries =
    flag "--vsphere-server" "Providers.Vsphere.Server"
    ∷ flag "--vsphere-datacenter" "Providers.Vsphere.Datacenter"
    ∷ flag "--vsphere-folder" "Providers.Vsphere.Folder"
    ∷ flag "--vsphere-resource-pool" "Providers.Vsphere.ResourcePool"
    ∷ flag "--vsphere-datastore" "Providers.Vsphere.Datastore"
    ∷ flag "--vsphere-network" "Providers.Vsphere.Network"
    ∷ flag "--vsphere-template" "Providers.Vsphere.Template"
    ∷ flag "--vsphere-tls-thumbprint" "Providers.Vsphere.TLSThumbprint"
    ∷ flag "--vsphere-username" "Providers.Vsphere.Username"
    ∷ secret "--vsphere-password" "Providers.Vsphere.Password" "VSPHERE_PASSWORD"
    ∷ []

-- The section of the provider.
abbrev pub provider_entries : String → List Entry
provider_entries provider =
    if provider == "proxmox"
    then proxmox_entries
    else if provider == "aws"
    then aws_entries
    else if provider == "azure"
    then azure_entries
    else if provider == "gcp"
    then gcp_entries
    else if provider == "hetzner"
    then hetzner_entries
    else if provider == "digitalocean"
    then digitalocean_entries
    else if provider == "linode"
    then linode_entries
    else if provider == "oci"
    then oci_entries
    else if provider == "ibmcloud"
    then ibmcloud_entries
    else if provider == "openstack"
    then openstack_entries
    else if provider == "vsphere"
    then vsphere_entries
    else []

abbrev pub shared_entries : List Entry
shared_entries =
    universal_entries
    ++ (network_entries
        ++ (cost_entries
            ++ (tco_entries ++ (workload_entries ++ (pivot_entries ++ airgap_entries)))))

abbrev pub entries : String → List Entry
entries provider = shared_entries ++ provider_entries provider
