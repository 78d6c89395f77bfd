-- ===== src/Load/Table/Providers.antt =====
-- internal/config/config.go: statements of Load, from Providers.Azure.TenantID to Providers.OCI.ControlPlaneShape.
use yage.Prelude.{List, [], ◌∷◌}
use yage.Load.Syntax.{Statement, set_str, lit, getenv, lower}

abbrev pub provider_settings : List Statement
provider_settings =
    set_str "Providers.Azure.TenantID" (getenv "AZURE_TENANT_ID" (lit ""))
    ∷ set_str "Providers.Azure.ResourceGroup" (getenv "AZURE_RESOURCE_GROUP" (lit ""))
    ∷ set_str "Providers.Azure.VNetName" (getenv "AZURE_VNET_NAME" (lit ""))
    ∷ set_str "Providers.Azure.SubnetName" (getenv "AZURE_SUBNET_NAME" (lit ""))
    ∷ set_str "Providers.Azure.ClientID" (getenv "AZURE_CLIENT_ID" (lit ""))
    ∷ set_str "Providers.Azure.IdentityModel"
        (lower (getenv "AZURE_IDENTITY_MODEL" (lit "service-principal")))
    ∷ set_str "Providers.GCP.ControlPlaneMachineType"
        (getenv "GCP_CONTROL_PLANE_MACHINE_TYPE" (lit "n2-standard-2"))
    ∷ set_str "Providers.GCP.NodeMachineType" (getenv "GCP_NODE_MACHINE_TYPE" (lit "n2-standard-2"))
    ∷ set_str "Providers.GCP.Region" (getenv "GCP_REGION" (lit "us-central1"))
    ∷ set_str "Providers.GCP.Project" (getenv "GCP_PROJECT" (lit ""))
    ∷ set_str "Providers.GCP.Mode" (getenv "GCP_MODE" (lit "unmanaged"))
    ∷ set_str "Providers.GCP.OverheadTier" (getenv "GCP_OVERHEAD_TIER" (lit "prod"))
    ∷ set_str "Providers.GCP.Network" (getenv "GCP_NETWORK_NAME" (lit ""))
    ∷ set_str "Providers.GCP.ImageFamily" (getenv "GCP_IMAGE_FAMILY" (lit ""))
    ∷ set_str "Providers.GCP.IdentityModel"
        (lower (getenv "GCP_IDENTITY_MODEL" (lit "service-account")))
    ∷ set_str "Providers.OpenStack.Cloud" (getenv "OPENSTACK_CLOUD" (lit ""))
    ∷ set_str "Providers.OpenStack.ProjectName" (getenv "OPENSTACK_PROJECT_NAME" (lit ""))
    ∷ set_str "Providers.OpenStack.Region" (getenv "OPENSTACK_REGION" (lit ""))
    ∷ set_str "Providers.OpenStack.FailureDomain" (getenv "OPENSTACK_FAILURE_DOMAIN" (lit ""))
    ∷ set_str "Providers.OpenStack.ImageName" (getenv "OPENSTACK_IMAGE_NAME" (lit ""))
    ∷ set_str "Providers.OpenStack.ControlPlaneFlavor"
        (getenv "OPENSTACK_CONTROL_PLANE_FLAVOR" (lit ""))
    ∷ set_str "Providers.OpenStack.WorkerFlavor" (getenv "OPENSTACK_WORKER_FLAVOR" (lit ""))
    ∷ set_str "Providers.OpenStack.DNSNameservers" (getenv "OPENSTACK_DNS_NAMESERVERS" (lit ""))
    ∷ set_str "Providers.OpenStack.SSHKeyName" (getenv "OPENSTACK_SSH_KEY_NAME" (lit ""))
    ∷ set_str "Providers.Vsphere.Server" (getenv "VSPHERE_SERVER" (lit ""))
    ∷ set_str "Providers.Vsphere.Datacenter" (getenv "VSPHERE_DATACENTER" (lit ""))
    ∷ set_str "Providers.Vsphere.Folder" (getenv "VSPHERE_FOLDER" (lit ""))
    ∷ set_str "Providers.Vsphere.ResourcePool" (getenv "VSPHERE_RESOURCE_POOL" (lit ""))
    ∷ set_str "Providers.Vsphere.Datastore" (getenv "VSPHERE_DATASTORE" (lit ""))
    ∷ set_str "Providers.Vsphere.Network" (getenv "VSPHERE_NETWORK" (lit ""))
    ∷ set_str "Providers.Vsphere.Template" (getenv "VSPHERE_TEMPLATE" (lit ""))
    ∷ set_str "Providers.Vsphere.TLSThumbprint" (getenv "VSPHERE_TLS_THUMBPRINT" (lit ""))
    ∷ set_str "Providers.Vsphere.Username" (getenv "VSPHERE_USERNAME" (lit ""))
    ∷ set_str "Providers.Vsphere.Password" (getenv "VSPHERE_PASSWORD" (lit ""))
    ∷ set_str "Providers.Vsphere.ControlPlaneNumCPUs"
        (getenv "VSPHERE_CONTROL_PLANE_NUM_CPUS" (lit ""))
    ∷ set_str "Providers.Vsphere.ControlPlaneNumCoresPerSocket"
        (getenv "VSPHERE_CONTROL_PLANE_NUM_CORES_PER_SOCKET" (lit ""))
    ∷ set_str "Providers.Vsphere.ControlPlaneMemoryMiB"
        (getenv "VSPHERE_CONTROL_PLANE_MEMORY_MIB" (lit ""))
    ∷ set_str "Providers.Vsphere.ControlPlaneDiskGiB"
        (getenv "VSPHERE_CONTROL_PLANE_DISK_GIB" (lit ""))
    ∷ set_str "Providers.Vsphere.WorkerNumCPUs" (getenv "VSPHERE_WORKER_NUM_CPUS" (lit ""))
    ∷ set_str "Providers.Vsphere.WorkerNumCoresPerSocket"
        (getenv "VSPHERE_WORKER_NUM_CORES_PER_SOCKET" (lit ""))
    ∷ set_str "Providers.Vsphere.WorkerMemoryMiB" (getenv "VSPHERE_WORKER_MEMORY_MIB" (lit ""))
    ∷ set_str "Providers.Vsphere.WorkerDiskGiB" (getenv "VSPHERE_WORKER_DISK_GIB" (lit ""))
    ∷ set_str "Providers.Hetzner.ControlPlaneMachineType"
        (getenv "HCLOUD_CONTROL_PLANE_MACHINE_TYPE" (lit "cx23"))
    ∷ set_str "Providers.Hetzner.NodeMachineType" (getenv "HCLOUD_NODE_MACHINE_TYPE" (lit "cx23"))
    ∷ set_str "Providers.Hetzner.Location" (getenv "HCLOUD_REGION" (lit "fsn1"))
    ∷ set_str "Providers.Hetzner.OverheadTier" (getenv "HETZNER_OVERHEAD_TIER" (lit "prod"))
    ∷ set_str "Providers.DigitalOcean.Region" (getenv "DIGITALOCEAN_REGION" (lit "nyc3"))
    ∷ set_str "Providers.DigitalOcean.ControlPlaneSize"
        (getenv "DIGITALOCEAN_CONTROL_PLANE_SIZE" (lit "s-2vcpu-4gb"))
    ∷ set_str "Providers.DigitalOcean.NodeSize"
        (getenv "DIGITALOCEAN_NODE_SIZE" (lit "s-2vcpu-4gb"))
    ∷ set_str "Providers.DigitalOcean.VPCUUID" (getenv "DIGITALOCEAN_VPC_UUID" (lit ""))
    ∷ set_str "Providers.DigitalOcean.OverheadTier"
        (getenv "DIGITALOCEAN_OVERHEAD_TIER" (lit "prod"))
    ∷ set_str "Providers.Linode.Region" (getenv "LINODE_REGION" (lit "us-east"))
    ∷ set_str "Providers.Linode.ControlPlaneType"
        (getenv "LINODE_CONTROL_PLANE_TYPE" (lit "g6-standard-2"))
    ∷ set_str "Providers.Linode.NodeType" (getenv "LINODE_NODE_TYPE" (lit "g6-standard-2"))
    ∷ set_str "Providers.Linode.OverheadTier" (getenv "LINODE_OVERHEAD_TIER" (lit "prod"))
    ∷ set_str "Providers.OCI.Region" (getenv "OCI_REGION" (lit "us-ashburn-1"))
    ∷ set_str "Providers.OCI.ControlPlaneShape"
        (getenv "OCI_CONTROL_PLANE_SHAPE" (lit "VM.Standard.E4.Flex"))
    ∷ []
