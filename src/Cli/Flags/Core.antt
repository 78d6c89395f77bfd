-- ===== src/Cli/Flags/Core.antt =====
-- internal/ui/cli/parse.go: the cases of Parse's switch from --config to --memory-adjustment.
use yage.Prelude.{List, [], ◌∷◌, true}
use yage.Cli.Steps.{Case, flag, turn, take, as_is}

abbrev pub core_flags : List Case
core_flags =
    flag "--config" (take "ConfigFile" as_is)
    ∷ record { spellings = "-b" ∷ "--build-all" ∷ []; steps = (turn "BuildAll" true) ∷ [] }
    ∷ record { spellings = "-f" ∷ "--force" ∷ []; steps = (turn "Force" true) ∷ [] }
    ∷ flag "--no-delete-kind" (turn "NoDeleteKind" true)
    ∷ flag "--persist-local-secrets" (turn "BootstrapPersistLocalSecrets" true)
    ∷ flag "--kind-cluster-name" (take "KindClusterName" as_is)
    ∷ flag "--kind-config" (take "KindConfig" as_is)
    ∷ flag "--proxmox-bootstrap-admin-secret"
        (take "Providers.Proxmox.BootstrapAdminSecretName" as_is)
    ∷ record {
      spellings = "--capi-manifest" ∷ [];
      steps = (take "CAPIManifest" as_is) ∷ (turn "BootstrapCAPIManifestUserSet" true) ∷ [];
    }
    ∷ flag "--regenerate-capi-manifest" (turn "BootstrapRegenerateCAPIManifest" true)
    ∷ flag "--bootstrap-config-file" (take "Providers.Proxmox.BootstrapConfigFile" as_is)
    ∷ record { spellings = "-p" ∷ "--purge" ∷ []; steps = (turn "Purge" true) ∷ [] }
    ∷ record {
      spellings = "-u" ∷ "--admin-username" ∷ [];
      steps = (take "Providers.Proxmox.AdminUsername" as_is) ∷ [];
    }
    ∷ record {
      spellings = "-t" ∷ "--admin-token" ∷ [];
      steps = (take "Providers.Proxmox.AdminToken" as_is) ∷ [];
    }
    ∷ flag "--proxmox-url" (take "Providers.Proxmox.URL" as_is)
    ∷ flag "--proxmox-capi-token" (take "Providers.Proxmox.CAPIToken" as_is)
    ∷ flag "--proxmox-capi-secret" (take "Providers.Proxmox.CAPISecret" as_is)
    ∷ record {
      spellings = "-r" ∷ "--region" ∷ [];
      steps = (take "Providers.Proxmox.Region" as_is) ∷ [];
    }
    ∷ record {
      spellings = "-n" ∷ "--node" ∷ [];
      steps = (take "Providers.Proxmox.Node" as_is) ∷ [];
    }
    ∷ record {
      spellings = "--template-id" ∷ "--template-vmid" ∷ [];
      steps = (take "Providers.Proxmox.TemplateID" as_is) ∷ [];
    }
    ∷ flag "--workload-control-plane-template-id" (take "WorkloadControlPlaneTemplateID" as_is)
    ∷ flag "--workload-worker-template-id" (take "WorkloadWorkerTemplateID" as_is)
    ∷ flag "--mgmt-control-plane-template-id"
        (take "Providers.Proxmox.Mgmt.ControlPlaneTemplateID" as_is)
    ∷ flag "--mgmt-worker-template-id" (take "Providers.Proxmox.Mgmt.WorkerTemplateID" as_is)
    ∷ flag "--bridge" (take "Providers.Proxmox.Bridge" as_is)
    ∷ flag "--proxmox-pool" (take "Providers.Proxmox.Pool" as_is)
    ∷ flag "--mgmt-proxmox-pool" (take "Providers.Proxmox.Mgmt.Pool" as_is)
    ∷ flag "--control-plane-endpoint-ip" (take "ControlPlaneEndpointIP" as_is)
    ∷ flag "--control-plane-endpoint-port" (take "ControlPlaneEndpointPort" as_is)
    ∷ record {
      spellings = "--node-ip-ranges" ∷ [];
      steps = (turn "NodeIPRangesExplicit" true) ∷ (take "NodeIPRanges" as_is) ∷ [];
    }
    ∷ record {
      spellings = "--gateway" ∷ [];
      steps = (turn "GatewayExplicit" true) ∷ (take "Gateway" as_is) ∷ [];
    }
    ∷ record {
      spellings = "--ip-prefix" ∷ [];
      steps = (turn "IPPrefixExplicit" true) ∷ (take "IPPrefix" as_is) ∷ [];
    }
    ∷ record {
      spellings = "--dns-servers" ∷ [];
      steps = (turn "DNSServersExplicit" true) ∷ (take "DNSServers" as_is) ∷ [];
    }
    ∷ record {
      spellings = "--allowed-nodes" ∷ [];
      steps = (turn "AllowedNodesExplicit" true) ∷ (take "AllowedNodes" as_is) ∷ [];
    }
    ∷ flag "--vm-ssh-keys" (take "VMSSHKeys" as_is)
    ∷ flag "--csi-url" (take "Providers.Proxmox.CSIURL" as_is)
    ∷ flag "--csi-token-id" (take "Providers.Proxmox.CSITokenID" as_is)
    ∷ flag "--csi-token-secret" (take "Providers.Proxmox.CSITokenSecret" as_is)
    ∷ flag "--csi-user-id" (take "Providers.Proxmox.CSIUserID" as_is)
    ∷ flag "--csi-token-prefix" (take "Providers.Proxmox.CSITokenPrefix" as_is)
    ∷ flag "--csi-insecure" (take "Providers.Proxmox.CSIInsecure" as_is)
    ∷ flag "--csi-storage-class" (take "Providers.Proxmox.CSIStorageClassName" as_is)
    ∷ flag "--csi-storage" (take "Providers.Proxmox.CSIStorage" as_is)
    ∷ flag "--cloudinit-storage" (take "Providers.Proxmox.CloudinitStorage" as_is)
    ∷ flag "--memory-adjustment" (take "Providers.Proxmox.MemoryAdjustment" as_is)
    ∷ []
