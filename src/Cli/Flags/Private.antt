-- ===== src/Cli/Flags/Private.antt =====
-- internal/ui/cli/parse.go: the cases of Parse's switch from --openstack-cloud to --resource-budget-fraction.
use yage.Prelude.{List, [], ◌∷◌}
use yage.Cli.Steps.{Case, flag, take, take_float, as_is, lower, any_float}

abbrev pub private_flags : List Case
private_flags =
    flag "--openstack-cloud" (take "Providers.OpenStack.Cloud" as_is)
    ∷ flag "--openstack-project-name" (take "Providers.OpenStack.ProjectName" as_is)
    ∷ flag "--openstack-region" (take "Providers.OpenStack.Region" as_is)
    ∷ flag "--openstack-failure-domain" (take "Providers.OpenStack.FailureDomain" as_is)
    ∷ flag "--openstack-image-name" (take "Providers.OpenStack.ImageName" as_is)
    ∷ flag "--openstack-control-plane-flavor" (take "Providers.OpenStack.ControlPlaneFlavor" as_is)
    ∷ flag "--openstack-worker-flavor" (take "Providers.OpenStack.WorkerFlavor" as_is)
    ∷ flag "--openstack-dns-nameservers" (take "Providers.OpenStack.DNSNameservers" as_is)
    ∷ flag "--openstack-ssh-key-name" (take "Providers.OpenStack.SSHKeyName" as_is)
    ∷ flag "--vsphere-server" (take "Providers.Vsphere.Server" as_is)
    ∷ flag "--vsphere-datacenter" (take "Providers.Vsphere.Datacenter" as_is)
    ∷ flag "--vsphere-folder" (take "Providers.Vsphere.Folder" as_is)
    ∷ flag "--vsphere-resource-pool" (take "Providers.Vsphere.ResourcePool" as_is)
    ∷ flag "--vsphere-datastore" (take "Providers.Vsphere.Datastore" as_is)
    ∷ flag "--vsphere-network" (take "Providers.Vsphere.Network" as_is)
    ∷ flag "--vsphere-template" (take "Providers.Vsphere.Template" as_is)
    ∷ flag "--vsphere-tls-thumbprint" (take "Providers.Vsphere.TLSThumbprint" as_is)
    ∷ flag "--vsphere-username" (take "Providers.Vsphere.Username" as_is)
    ∷ flag "--vsphere-password" (take "Providers.Vsphere.Password" as_is)
    ∷ flag "--vsphere-control-plane-num-cpus" (take "Providers.Vsphere.ControlPlaneNumCPUs" as_is)
    ∷ flag "--vsphere-control-plane-num-cores-per-socket"
        (take "Providers.Vsphere.ControlPlaneNumCoresPerSocket" as_is)
    ∷ flag "--vsphere-control-plane-memory-mib"
        (take "Providers.Vsphere.ControlPlaneMemoryMiB" as_is)
    ∷ flag "--vsphere-control-plane-disk-gib" (take "Providers.Vsphere.ControlPlaneDiskGiB" as_is)
    ∷ flag "--vsphere-worker-num-cpus" (take "Providers.Vsphere.WorkerNumCPUs" as_is)
    ∷ flag "--vsphere-worker-num-cores-per-socket"
        (take "Providers.Vsphere.WorkerNumCoresPerSocket" as_is)
    ∷ flag "--vsphere-worker-memory-mib" (take "Providers.Vsphere.WorkerMemoryMiB" as_is)
    ∷ flag "--vsphere-worker-disk-gib" (take "Providers.Vsphere.WorkerDiskGiB" as_is)
    ∷ flag "--hetzner-control-plane-machine-type"
        (take "Providers.Hetzner.ControlPlaneMachineType" as_is)
    ∷ flag "--hetzner-node-machine-type" (take "Providers.Hetzner.NodeMachineType" as_is)
    ∷ flag "--hetzner-location" (take "Providers.Hetzner.Location" as_is)
    ∷ flag "--hetzner-overhead-tier" (take "Providers.Hetzner.OverheadTier" lower)
    ∷ flag "--resource-budget-fraction" (take_float "Capacity.ResourceBudgetFraction" any_float)
    ∷ []
