-- ===== src/Cli/Flags/Management.antt =====
-- internal/ui/cli/parse.go: the cases of Parse's switch from --pivot-verify-timeout to --completion.
use yage.Prelude.{List, [], ◌∷◌, true, false}
use yage.Cli.Steps.{Case, flag, turn, take, show_help, show_completion, as_is, trim_lower}

abbrev pub management_flags : List Case
management_flags =
    flag "--pivot-verify-timeout" (take "Pivot.VerifyTimeout" as_is)
    ∷ flag "--mgmt-cluster-name" (take "Mgmt.ClusterName" as_is)
    ∷ flag "--mgmt-cluster-namespace" (take "Mgmt.ClusterNamespace" as_is)
    ∷ flag "--mgmt-k8s-version" (take "Mgmt.KubernetesVersion" as_is)
    ∷ flag "--mgmt-cilium-cluster-id" (take "Mgmt.CiliumClusterID" as_is)
    ∷ flag "--mgmt-control-plane-machine-count" (take "Mgmt.ControlPlaneMachineCount" as_is)
    ∷ flag "--mgmt-worker-machine-count" (take "Mgmt.WorkerMachineCount" as_is)
    ∷ flag "--mgmt-control-plane-endpoint-ip" (take "Mgmt.ControlPlaneEndpointIP" as_is)
    ∷ flag "--mgmt-control-plane-endpoint-port" (take "Mgmt.ControlPlaneEndpointPort" as_is)
    ∷ flag "--mgmt-node-ip-ranges" (take "Mgmt.NodeIPRanges" as_is)
    ∷ flag "--mgmt-capi-manifest" (take "Mgmt.CAPIManifest" as_is)
    ∷ flag "--mgmt-control-plane-num-sockets"
        (take "Providers.Proxmox.Mgmt.ControlPlaneNumSockets" as_is)
    ∷ flag "--mgmt-control-plane-num-cores"
        (take "Providers.Proxmox.Mgmt.ControlPlaneNumCores" as_is)
    ∷ flag "--mgmt-control-plane-memory-mib"
        (take "Providers.Proxmox.Mgmt.ControlPlaneMemoryMiB" as_is)
    ∷ flag "--mgmt-control-plane-boot-volume-device"
        (take "Providers.Proxmox.Mgmt.ControlPlaneBootVolumeDevice" as_is)
    ∷ flag "--mgmt-control-plane-boot-volume-size"
        (take "Providers.Proxmox.Mgmt.ControlPlaneBootVolumeSize" as_is)
    ∷ flag "--capi-proxmox-machine-template-spec-rev-skip"
        (turn "Providers.Proxmox.CAPIMachineTemplateSpecRev" false)
    ∷ flag "--cilium-wait-duration" (take "CiliumWaitDuration" as_is)
    ∷ flag "--cilium-ingress" (take "CiliumIngress" as_is)
    ∷ flag "--cilium-kube-proxy-replacement" (take "CiliumKubeProxyReplacement" as_is)
    ∷ flag "--cilium-lb-ipam" (take "CiliumLBIPAM" as_is)
    ∷ flag "--cilium-lb-ipam-pool-cidr" (take "CiliumLBIPAMPoolCIDR" as_is)
    ∷ flag "--cilium-lb-ipam-pool-start" (take "CiliumLBIPAMPoolStart" as_is)
    ∷ flag "--cilium-lb-ipam-pool-stop" (take "CiliumLBIPAMPoolStop" as_is)
    ∷ flag "--cilium-lb-ipam-pool-name" (take "CiliumLBIPAMPoolName" as_is)
    ∷ flag "--cilium-ipam-cluster-pool-ipv4" (take "CiliumIPAMClusterPoolIPv4" as_is)
    ∷ flag "--cilium-ipam-cluster-pool-ipv4-mask-size"
        (take "CiliumIPAMClusterPoolIPv4MaskSize" as_is)
    ∷ flag "--cilium-gateway-api" (take "CiliumGatewayAPIEnabled" as_is)
    ∷ flag "--argocd-disable-operator-ingress" (take "ArgoCD.DisableOperatorManagedIngress" as_is)
    ∷ flag "--cilium-hubble" (take "CiliumHubble" as_is)
    ∷ flag "--cilium-hubble-ui" (take "CiliumHubbleUI" as_is)
    ∷ flag "--exp-cluster-resource-set" (take "ExpClusterResourceSet" as_is)
    ∷ flag "--cluster-topology" (take "ClusterTopology" as_is)
    ∷ flag "--exp-kubeadm-bootstrap-format-ignition"
        (take "ExpKubeadmBootstrapFormatIgnition" as_is)
    ∷ flag "--disable-metrics-server" (turn "EnableMetricsServer" false)
    ∷ flag "--disable-workload-metrics-server" (turn "EnableWorkloadMetricsServer" false)
    ∷ record {
      spellings = "--infra-provider" ∷ "--infrastructure-provider" ∷ [];
      steps = (take "InfraProvider" trim_lower) ∷ (turn "InfraProviderDefaulted" false) ∷ [];
    }
    ∷ flag "--clear-keyring" (turn "ClearKeyring" true)
    ∷ record { spellings = "-h" ∷ "--help" ∷ []; steps = show_help ∷ [] }
    ∷ flag "--completion" show_completion
    ∷ []
