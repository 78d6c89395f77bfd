-- ===== src/Cli/Flags/Cluster.antt =====
-- internal/ui/cli/parse.go: the cases of Parse's switch from --capi-user-id to --skip-providers.
use yage.Prelude.{List, [], ◌∷◌, true, false}
use yage.Cli.Steps.{Case, flag, turn, take, as_is, trim}

abbrev pub cluster_flags : List Case
cluster_flags =
    flag "--capi-user-id" (take "Providers.Proxmox.CAPIUserID" as_is)
    ∷ flag "--capi-token-prefix" (take "Providers.Proxmox.CAPITokenPrefix" as_is)
    ∷ flag "--cluster-set-id" (take "ClusterSetID" as_is)
    ∷ flag "--recreate-proxmox-identities" (turn "Providers.Proxmox.RecreateIdentities" true)
    ∷ flag "--recreate-proxmox-identities-scope"
        (take "Providers.Proxmox.IdentityRecreateScope" as_is)
    ∷ flag "--recreate-proxmox-identities-state-rm"
        (turn "Providers.Proxmox.IdentityRecreateStateRm" true)
    ∷ flag "--control-plane-boot-volume-device"
        (take "Providers.Proxmox.ControlPlaneBootVolumeDevice" as_is)
    ∷ flag "--control-plane-boot-volume-size"
        (take "Providers.Proxmox.ControlPlaneBootVolumeSize" as_is)
    ∷ flag "--control-plane-num-sockets" (take "Providers.Proxmox.ControlPlaneNumSockets" as_is)
    ∷ flag "--control-plane-num-cores" (take "Providers.Proxmox.ControlPlaneNumCores" as_is)
    ∷ flag "--control-plane-memory-mib" (take "Providers.Proxmox.ControlPlaneMemoryMiB" as_is)
    ∷ flag "--worker-boot-volume-device" (take "Providers.Proxmox.WorkerBootVolumeDevice" as_is)
    ∷ flag "--worker-boot-volume-size" (take "Providers.Proxmox.WorkerBootVolumeSize" as_is)
    ∷ flag "--worker-num-sockets" (take "Providers.Proxmox.WorkerNumSockets" as_is)
    ∷ flag "--worker-num-cores" (take "Providers.Proxmox.WorkerNumCores" as_is)
    ∷ flag "--worker-memory-mib" (take "Providers.Proxmox.WorkerMemoryMiB" as_is)
    ∷ record {
      spellings = "--config-name" ∷ [];
      steps = (take "ConfigName" as_is) ∷ (turn "ConfigNameExplicit" true) ∷ [];
    }
    ∷ record {
      spellings = "--workload-cluster-name" ∷ [];
      steps = (take "WorkloadClusterName" as_is) ∷ (turn "WorkloadClusterNameExplicit" true) ∷ [];
    }
    ∷ record {
      spellings = "--workload-cluster-namespace" ∷ [];
      steps =
          (take "WorkloadClusterNamespace" as_is)
          ∷ (turn "WorkloadClusterNamespaceExplicit" true)
          ∷ [];
    }
    ∷ flag "--workload-cilium-cluster-id" (take "WorkloadCiliumClusterID" as_is)
    ∷ flag "--workload-k8s-version" (take "WorkloadKubernetesVersion" as_is)
    ∷ flag "--control-plane-count" (take "ControlPlaneMachineCount" as_is)
    ∷ flag "--worker-count" (take "WorkerMachineCount" as_is)
    ∷ flag "--pivot" (turn "Pivot.Enabled" true)
    ∷ flag "--no-pivot" (turn "Pivot.Enabled" false)
    ∷ flag "--pivot-keep-kind" (turn "Pivot.KeepKind" true)
    ∷ flag "--pivot-dry-run" (turn "Pivot.DryRun" true)
    ∷ flag "--stop-before-workload" (turn "Pivot.StopBeforeWorkload" true)
    ∷ flag "--dry-run" (turn "DryRun" true)
    ∷ flag "--cost-compare" (turn "CostCompare" true)
    ∷ flag "--skip-providers" (take "SkipProviders" trim)
    ∷ []
