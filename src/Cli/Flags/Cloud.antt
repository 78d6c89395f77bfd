-- ===== src/Cli/Flags/Cloud.antt =====
-- internal/ui/cli/parse.go: the cases of Parse's switch from --aws-mode to --gcp-identity-model.
use yage.Prelude.{List, [], ◌∷◌}
use yage.Cli.Steps.{Case, flag, take, as_is, lower}

abbrev pub cloud_flags : List Case
cloud_flags =
    flag "--aws-mode" (take "Providers.AWS.Mode" lower)
    ∷ flag "--aws-fargate-pod-count" (take "Providers.AWS.FargatePodCount" as_is)
    ∷ flag "--aws-fargate-pod-cpu" (take "Providers.AWS.FargatePodCPU" as_is)
    ∷ flag "--aws-fargate-pod-memory-gib" (take "Providers.AWS.FargatePodMemoryGiB" as_is)
    ∷ flag "--aws-overhead-tier" (take "Providers.AWS.OverheadTier" lower)
    ∷ flag "--aws-nat-gateway-count" (take "Providers.AWS.NATGatewayCount" as_is)
    ∷ flag "--aws-alb-count" (take "Providers.AWS.ALBCount" as_is)
    ∷ flag "--aws-nlb-count" (take "Providers.AWS.NLBCount" as_is)
    ∷ flag "--aws-data-transfer-gb" (take "Providers.AWS.DataTransferGB" as_is)
    ∷ flag "--aws-cloudwatch-logs-gb" (take "Providers.AWS.CloudWatchLogsGB" as_is)
    ∷ flag "--azure-mode" (take "Providers.Azure.Mode" lower)
    ∷ flag "--azure-location" (take "Providers.Azure.Location" as_is)
    ∷ flag "--azure-control-plane-machine-type"
        (take "Providers.Azure.ControlPlaneMachineType" as_is)
    ∷ flag "--azure-node-machine-type" (take "Providers.Azure.NodeMachineType" as_is)
    ∷ flag "--azure-overhead-tier" (take "Providers.Azure.OverheadTier" lower)
    ∷ flag "--azure-subscription-id" (take "Providers.Azure.SubscriptionID" as_is)
    ∷ flag "--azure-tenant-id" (take "Providers.Azure.TenantID" as_is)
    ∷ flag "--azure-resource-group" (take "Providers.Azure.ResourceGroup" as_is)
    ∷ flag "--azure-vnet-name" (take "Providers.Azure.VNetName" as_is)
    ∷ flag "--azure-subnet-name" (take "Providers.Azure.SubnetName" as_is)
    ∷ flag "--azure-client-id" (take "Providers.Azure.ClientID" as_is)
    ∷ flag "--azure-identity-model" (take "Providers.Azure.IdentityModel" lower)
    ∷ flag "--gcp-mode" (take "Providers.GCP.Mode" lower)
    ∷ flag "--gcp-region" (take "Providers.GCP.Region" as_is)
    ∷ flag "--gcp-project" (take "Providers.GCP.Project" as_is)
    ∷ flag "--gcp-control-plane-machine-type" (take "Providers.GCP.ControlPlaneMachineType" as_is)
    ∷ flag "--gcp-node-machine-type" (take "Providers.GCP.NodeMachineType" as_is)
    ∷ flag "--gcp-overhead-tier" (take "Providers.GCP.OverheadTier" lower)
    ∷ flag "--gcp-network-name" (take "Providers.GCP.Network" as_is)
    ∷ flag "--gcp-image-family" (take "Providers.GCP.ImageFamily" as_is)
    ∷ flag "--gcp-identity-model" (take "Providers.GCP.IdentityModel" lower)
    ∷ []
