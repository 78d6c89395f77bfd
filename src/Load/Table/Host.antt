-- ===== src/Load/Table/Host.antt =====
-- internal/config/config.go: statements of Load, from ImageRegistryMirror to Providers.Azure.SubscriptionID.
use yage.Prelude.{List, [], ◌∷◌}
use yage.Load.Syntax.{
  Statement, csi_drivers, fill, set_str, lit, of_field, getenv, os_getenv, trim_slash, trim, upper,
  first_non_empty,
}

abbrev pub host_settings : List Statement
host_settings =
    set_str "ImageRegistryMirror" (trim_slash (getenv "YAGE_IMAGE_REGISTRY_MIRROR" (lit "")))
    ∷ set_str "InternalCABundle" (trim (getenv "YAGE_INTERNAL_CA_BUNDLE" (lit "")))
    ∷ set_str "HelmRepoMirror" (trim_slash (trim (getenv "YAGE_HELM_REPO_MIRROR" (lit ""))))
    ∷ set_str "NodeImage" (trim (getenv "YAGE_NODE_IMAGE" (lit "")))
    ∷ set_str "TraceEndpoint" (getenv "YAGE_TRACE_ENDPOINT" (lit ""))
    ∷ set_str "TofuRepo" (getenv "YAGE_TOFU_REPO" (lit "https://github.com/lpasquali/yage-tofu"))
    ∷ set_str "TofuRef" (getenv "YAGE_TOFU_REF" (lit "main"))
    ∷ set_str "ManifestsRepo"
        (getenv "YAGE_MANIFESTS_REPO" (lit "https://github.com/lpasquali/yage-manifests"))
    ∷ set_str "ManifestsRef" (getenv "YAGE_MANIFESTS_REF" (lit "v0.4.0"))
    ∷ set_str "ReposPVCSize" (getenv "YAGE_REPOS_PVC_SIZE" (lit "500Mi"))
    ∷ set_str "RegistryNode" (getenv "YAGE_REGISTRY_NODE" (lit ""))
    ∷ set_str "RegistryVMFlavor" (getenv "YAGE_REGISTRY_VM_FLAVOR" (lit ""))
    ∷ set_str "RegistryNetwork" (getenv "YAGE_REGISTRY_NETWORK" (lit ""))
    ∷ set_str "RegistryStorage" (getenv "YAGE_REGISTRY_STORAGE" (lit ""))
    ∷ set_str "RegistryFlavor" (getenv "YAGE_REGISTRY_FLAVOR" (lit "harbor"))
    ∷ set_str "RegistryTemplateID" (getenv "YAGE_REGISTRY_TEMPLATE_ID" (lit ""))
    ∷ set_str "RegistryHostname" (getenv "YAGE_REGISTRY_HOSTNAME" (lit ""))
    ∷ set_str "RegistryTLSCertPEM" (getenv "YAGE_REGISTRY_TLS_CERT_PEM" (lit ""))
    ∷ set_str "RegistryTLSKeyPEM" (getenv "YAGE_REGISTRY_TLS_KEY_PEM" (lit ""))
    ∷ set_str "RegistryCABundlePEM" (getenv "YAGE_REGISTRY_CA_BUNDLE_PEM" (lit ""))
    ∷ set_str "RegistryAdminPassword" (getenv "YAGE_REGISTRY_ADMIN_PASSWORD" (lit ""))
    ∷ set_str "IssuingCARootCert" (getenv "YAGE_ISSUING_CA_ROOT_CERT" (lit ""))
    ∷ set_str "IssuingCARootKey" (getenv "YAGE_ISSUING_CA_ROOT_KEY" (lit ""))
    ∷ csi_drivers "YAGE_CSI_DRIVERS"
    ∷ set_str "CSI.DefaultClass" (os_getenv "YAGE_CSI_DEFAULT_CLASS")
    ∷ set_str "Cost.Credentials.GCPAPIKey"
        (first_non_empty (os_getenv "YAGE_GCP_API_KEY") (os_getenv "GOOGLE_BILLING_API_KEY"))
    ∷ set_str "Cost.Credentials.HetznerToken"
        (first_non_empty (os_getenv "YAGE_HCLOUD_TOKEN") (os_getenv "HCLOUD_TOKEN"))
    ∷ set_str "Cost.Credentials.DigitalOceanToken"
        (first_non_empty (os_getenv "YAGE_DO_TOKEN") (os_getenv "DIGITALOCEAN_TOKEN"))
    ∷ set_str "Cost.Credentials.LinodeToken"
        (first_non_empty (os_getenv "YAGE_LINODE_TOKEN") (os_getenv "LINODE_TOKEN"))
    ∷ set_str "Cost.Credentials.IBMCloudAPIKey"
        (first_non_empty (os_getenv "YAGE_IBMCLOUD_API_KEY") (os_getenv "IBMCLOUD_API_KEY"))
    ∷ set_str "Cost.Currency.DisplayCurrency" (os_getenv "YAGE_TALLER_CURRENCY")
    ∷ set_str "Cost.Currency.DataCenterLocation"
        (upper (trim (os_getenv "YAGE_DATA_CENTER_LOCATION")))
    ∷ fill "Cost.Credentials.HetznerToken" (of_field "Providers.Hetzner.Token")
    ∷ fill "Providers.Hetzner.Token" (of_field "Cost.Credentials.HetznerToken")
    ∷ set_str "BootstrapMode" (getenv "BOOTSTRAP_MODE" (lit "kubeadm"))
    ∷ set_str "Providers.AWS.ControlPlaneMachineType"
        (getenv "AWS_CONTROL_PLANE_MACHINE_TYPE" (lit "t3.large"))
    ∷ set_str "Providers.AWS.NodeMachineType" (getenv "AWS_NODE_MACHINE_TYPE" (lit "t3.medium"))
    ∷ set_str "Providers.AWS.Region" (getenv "AWS_REGION" (lit "us-east-1"))
    ∷ set_str "Providers.AWS.SSHKeyName" (getenv "AWS_SSH_KEY_NAME" (lit ""))
    ∷ set_str "Providers.AWS.AMIID" (getenv "AWS_AMI_ID" (lit ""))
    ∷ set_str "Providers.AWS.Mode" (getenv "AWS_MODE" (lit "unmanaged"))
    ∷ set_str "Providers.AWS.FargatePodCount" (getenv "AWS_FARGATE_POD_COUNT" (lit "10"))
    ∷ set_str "Providers.AWS.FargatePodCPU" (getenv "AWS_FARGATE_POD_CPU" (lit "0.5"))
    ∷ set_str "Providers.AWS.FargatePodMemoryGiB" (getenv "AWS_FARGATE_POD_MEMORY_GIB" (lit "1"))
    ∷ set_str "Providers.AWS.OverheadTier" (getenv "AWS_OVERHEAD_TIER" (lit "prod"))
    ∷ set_str "Providers.AWS.NATGatewayCount" (getenv "AWS_NAT_GATEWAY_COUNT" (lit ""))
    ∷ set_str "Providers.AWS.ALBCount" (getenv "AWS_ALB_COUNT" (lit ""))
    ∷ set_str "Providers.AWS.NLBCount" (getenv "AWS_NLB_COUNT" (lit ""))
    ∷ set_str "Providers.AWS.DataTransferGB" (getenv "AWS_DATA_TRANSFER_GB" (lit ""))
    ∷ set_str "Providers.AWS.CloudWatchLogsGB" (getenv "AWS_CLOUDWATCH_LOGS_GB" (lit ""))
    ∷ set_str "Providers.AWS.Route53HostedZones" (getenv "AWS_ROUTE53_HOSTED_ZONES" (lit ""))
    ∷ set_str "Providers.Azure.ControlPlaneMachineType"
        (getenv "AZURE_CONTROL_PLANE_MACHINE_TYPE" (lit "Standard_D2s_v3"))
    ∷ set_str "Providers.Azure.NodeMachineType"
        (getenv "AZURE_NODE_MACHINE_TYPE" (lit "Standard_D2s_v3"))
    ∷ set_str "Providers.Azure.Location" (getenv "AZURE_LOCATION" (lit "eastus"))
    ∷ set_str "Providers.Azure.Mode" (getenv "AZURE_MODE" (lit "unmanaged"))
    ∷ set_str "Providers.Azure.OverheadTier" (getenv "AZURE_OVERHEAD_TIER" (lit "prod"))
    ∷ set_str "Providers.Azure.SubscriptionID" (getenv "AZURE_SUBSCRIPTION_ID" (lit ""))
    ∷ []
