-- ===== src/Load/Table/Versions.antt =====
-- internal/config/config.go: statements of Load, from KindVersion to Airgapped.
use yage.Prelude.{List, [], ◌∷◌, true, false}
use yage.Load.Syntax.{Statement, set_bool, set_number, set_str, env_bool, lit, getenv}

abbrev pub version_settings : List Statement
version_settings =
    set_str "KindVersion" (getenv "KIND_VERSION" (lit "v0.31.0"))
    ∷ set_str "KubectlVersion" (getenv "KUBECTL_VERSION" (lit "v1.35.4"))
    ∷ set_str "ClusterctlVersion" (getenv "CLUSTERCTL_VERSION" (lit "v1.11.8"))
    ∷ set_str "CiliumCLIVersion" (getenv "CILIUM_CLI_VERSION" (lit "v0.19.2"))
    ∷ set_str "CiliumVersion" (getenv "CILIUM_VERSION" (lit "1.19.3"))
    ∷ set_str "ArgoCD.Version" (getenv "ARGOCD_VERSION" (lit "v3.3.8"))
    ∷ set_str "ArgoCD.OperatorVersion" (getenv "ARGOCD_OPERATOR_VERSION" (lit "v0.16.0"))
    ∷ set_str "KyvernoCLIVersion" (getenv "KYVERNO_CLI_VERSION" (lit "v1.17.1"))
    ∷ set_str "CmctlVersion" (getenv "CMCTL_VERSION" (lit "v2.4.1"))
    ∷ set_str "OpenTofuVersion" (getenv "OPENTOFU_VERSION" (lit "1.8.5"))
    ∷ set_str "CiliumWaitDuration" (getenv "CILIUM_WAIT_DURATION" (lit "10m0s"))
    ∷ set_str "CiliumIngress" (getenv "CILIUM_INGRESS" (lit "true"))
    ∷ set_str "CiliumKubeProxyReplacement" (getenv "CILIUM_KUBE_PROXY_REPLACEMENT" (lit "true"))
    ∷ set_str "CiliumLBIPAM" (getenv "CILIUM_LB_IPAM" (lit "true"))
    ∷ set_str "CiliumLBIPAMPoolCIDR" (getenv "CILIUM_LB_IPAM_POOL_CIDR" (lit ""))
    ∷ set_str "CiliumLBIPAMPoolStart" (getenv "CILIUM_LB_IPAM_POOL_START" (lit ""))
    ∷ set_str "CiliumLBIPAMPoolStop" (getenv "CILIUM_LB_IPAM_POOL_STOP" (lit ""))
    ∷ set_str "CiliumLBIPAMPoolName" (getenv "CILIUM_LB_IPAM_POOL_NAME" (lit ""))
    ∷ set_str "CiliumHubble" (getenv "CILIUM_HUBBLE" (lit "true"))
    ∷ set_str "CiliumHubbleUI" (getenv "CILIUM_HUBBLE_UI" (lit "true"))
    ∷ set_str "CiliumIPAMClusterPoolIPv4"
        (getenv "CILIUM_IPAM_CLUSTER_POOL_IPV4" (lit "10.244.0.0/16"))
    ∷ set_str "CiliumIPAMClusterPoolIPv4MaskSize"
        (getenv "CILIUM_IPAM_CLUSTER_POOL_IPV4_MASK_SIZE" (lit "24"))
    ∷ set_str "CiliumGatewayAPIEnabled" (getenv "CILIUM_GATEWAY_API_ENABLED" (lit "false"))
    ∷ set_str "ArgoCD.DisableOperatorManagedIngress"
        (getenv "ARGOCD_DISABLE_OPERATOR_MANAGED_INGRESS" (lit "false"))
    ∷ set_bool "ArgoCD.Enabled" (env_bool "ARGOCD_ENABLED" true)
    ∷ set_str "ArgoCD.ServerInsecure" (getenv "ARGOCD_SERVER_INSECURE" (lit "false"))
    ∷ set_str "ArgoCD.PrometheusEnabled"
        (getenv "ARGOCD_OPERATOR_ARGOCD_PROMETHEUS_ENABLED" (lit "false"))
    ∷ set_str "ArgoCD.MonitoringEnabled"
        (getenv "ARGOCD_OPERATOR_ARGOCD_MONITORING_ENABLED" (lit "false"))
    ∷ set_str "ArgoCD.PrintAccessTarget" (getenv "ARGOCD_PRINT_ACCESS_TARGET" (lit "workload"))
    ∷ set_bool "ArgoCD.PrintAccessStandalone" (env_bool "ARGOCD_PRINT_ACCESS_STANDALONE" false)
    ∷ set_bool "ArgoCD.PortForwardStandalone" (env_bool "ARGOCD_PORT_FORWARD_STANDALONE" false)
    ∷ set_str "ArgoCD.PortForwardTarget" (getenv "ARGOCD_PORT_FORWARD_TARGET" (lit "workload"))
    ∷ set_str "ArgoCD.PortForwardPort" (
        getenv "ARGOCD_PORT_FORWARD_PORT" (getenv "ARGOCD_PORT_FORWARD_WORKLOAD_PORT" (lit "8443")))
    ∷ set_bool "ArgoCD.WorkloadEnabled" (env_bool "WORKLOAD_ARGOCD_ENABLED" true)
    ∷ set_str "ArgoCD.WorkloadNamespace" (getenv "WORKLOAD_ARGOCD_NAMESPACE" (lit "argocd"))
    ∷ set_str "WorkloadGitopsMode" (getenv "WORKLOAD_GITOPS_MODE" (lit "caaph"))
    ∷ set_str "ArgoCD.AppOfAppsGitURL" (
        getenv "WORKLOAD_APP_OF_APPS_GIT_URL"
          (lit "https://github.com/lpasquali/workload-app-of-apps.git"))
    ∷ set_str "ArgoCD.AppOfAppsGitPath"
        (getenv "WORKLOAD_APP_OF_APPS_GIT_PATH" (lit "examples/default"))
    ∷ set_str "ArgoCD.AppOfAppsGitRef" (getenv "WORKLOAD_APP_OF_APPS_GIT_REF" (lit "main"))
    ∷ set_bool "WorkloadRolloutStandalone" (env_bool "WORKLOAD_ROLLOUT_STANDALONE" false)
    ∷ set_str "WorkloadRolloutMode" (getenv "WORKLOAD_ROLLOUT_MODE" (lit "argocd"))
    ∷ set_bool "WorkloadRolloutNoWait" (env_bool "WORKLOAD_ROLLOUT_NO_WAIT" false)
    ∷ set_bool "Force" (env_bool "FORCE" false)
    ∷ set_bool "NoDeleteKind" (env_bool "NO_DELETE_KIND" false)
    ∷ set_bool "BootstrapPersistLocalSecrets" (env_bool "BOOTSTRAP_PERSIST_LOCAL_SECRETS" false)
    ∷ set_bool "Purge" (env_bool "PURGE" false)
    ∷ set_bool "BuildAll" (env_bool "BUILD_ALL" false)
    ∷ set_bool "DryRun" (env_bool "DRY_RUN" false)
    ∷ set_bool "Capacity.AllowOvercommit" (env_bool "ALLOW_RESOURCE_OVERCOMMIT" false)
    ∷ set_number "Capacity.ResourceBudgetFraction" "RESOURCE_BUDGET_FRACTION" 2 3
    ∷ set_number "Capacity.OvercommitTolerancePct" "OVERCOMMIT_TOLERANCE_PCT" 15 1
    ∷ set_number "HardwareCostUSD" "HARDWARE_COST_USD" 0 1
    ∷ set_number "HardwareUsefulLifeYears" "HARDWARE_USEFUL_LIFE_YEARS" 5 1
    ∷ set_number "HardwareWatts" "HARDWARE_WATTS" 0 1
    ∷ set_number "HardwareKWHRateUSD" "HARDWARE_KWH_RATE_USD" 15 100
    ∷ set_number "HardwareSupportUSDMonth" "HARDWARE_SUPPORT_USD_MONTH" 0 1
    ∷ set_bool "Airgapped" (env_bool "YAGE_AIRGAPPED" false)
    ∷ []
