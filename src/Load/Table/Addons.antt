-- ===== src/Load/Table/Addons.antt =====
-- internal/config/config.go: statements of Load, from WorkloadMetricsServerInsecureTLS to OTELChartRepoURL.
use yage.Prelude.{List, [], ◌∷◌, true}
use yage.Load.Syntax.{Statement, set_bool, set_str, env_bool, lit, getenv, getenv_keep}

abbrev pub addon_settings : List Statement
addon_settings =
    set_str "WorkloadMetricsServerInsecureTLS"
      (getenv "WORKLOAD_METRICS_SERVER_INSECURE_TLS" (lit "true"))
    ∷ set_str "MetricsServerManifestURL" (
        getenv "METRICS_SERVER_MANIFEST_URL" (
          lit
            "https://github.com/kubernetes-sigs/metrics-server/releases/latest/download/components.yaml"))
    ∷ set_str "MetricsServerGitChartTag" (getenv "METRICS_SERVER_GIT_CHART_TAG" (lit "v0.7.2"))
    ∷ set_bool "Providers.Proxmox.CSIEnabled" (env_bool "PROXMOX_CSI_ENABLED" true)
    ∷ set_bool "Providers.Proxmox.CSISmokeEnabled" (env_bool "PROXMOX_CSI_SMOKE_ENABLED" true)
    ∷ set_str "Providers.Proxmox.CSIChartRepoURL"
        (getenv "PROXMOX_CSI_CHART_REPO_URL" (lit "oci://ghcr.io/sergelogvinov/charts"))
    ∷ set_str "Providers.Proxmox.CSIChartName"
        (getenv "PROXMOX_CSI_CHART_NAME" (lit "proxmox-csi-plugin"))
    ∷ set_str "Providers.Proxmox.CSIChartVersion" (getenv "PROXMOX_CSI_CHART_VERSION" (lit "0.5.7"))
    ∷ set_str "Providers.Proxmox.CSINamespace" (getenv "PROXMOX_CSI_NAMESPACE" (lit "csi-proxmox"))
    ∷ set_str "Providers.Proxmox.CSIConfigProvider"
        (getenv "PROXMOX_CSI_CONFIG_PROVIDER" (lit "proxmox"))
    ∷ set_str "Providers.Proxmox.CSITopologyLabels"
        (getenv "PROXMOX_CSI_TOPOLOGY_LABELS" (lit "true"))
    ∷ set_bool "ArgoCD.PostsyncHooksEnabled" (env_bool "ARGO_WORKLOAD_POSTSYNC_HOOKS_ENABLED" true)
    ∷ set_str "ArgoCD.PostsyncHooksGitURL" (
        getenv_keep "ARGO_WORKLOAD_POSTSYNC_HOOKS_GIT_URL"
          (lit "https://github.com/lpasquali/workload-smoketests.git"))
    ∷ set_str "ArgoCD.PostsyncHooksGitPath"
        (getenv_keep "ARGO_WORKLOAD_POSTSYNC_HOOKS_GIT_PATH" (lit ""))
    ∷ set_str "ArgoCD.PostsyncHooksGitRef"
        (getenv_keep "ARGO_WORKLOAD_POSTSYNC_HOOKS_GIT_REF" (lit ""))
    ∷ set_str "ArgoCD.PostsyncHooksKubectlImg"
        (getenv "ARGO_WORKLOAD_POSTSYNC_HOOKS_KUBECTL_IMAGE" (lit ""))
    ∷ set_str "WorkloadPostsyncNamespace"
        (getenv "WORKLOAD_POSTSYNC_NAMESPACE" (lit "workload-smoke"))
    ∷ set_bool "KyvernoEnabled" (env_bool "KYVERNO_ENABLED" true)
    ∷ set_str "KyvernoChartVersion" (getenv "KYVERNO_CHART_VERSION" (lit "3.7.1"))
    ∷ set_str "KyvernoChartRepoURL"
        (getenv "KYVERNO_CHART_REPO_URL" (lit "https://kyverno.github.io/kyverno/"))
    ∷ set_str "KyvernoNamespace" (getenv "KYVERNO_NAMESPACE" (lit "kyverno"))
    ∷ set_str "KyvernoTolerateControlPlane" (getenv "KYVERNO_TOLERATE_CONTROL_PLANE" (lit "true"))
    ∷ set_bool "CertManagerEnabled" (env_bool "CERT_MANAGER_ENABLED" true)
    ∷ set_str "CertManagerChartVersion" (getenv "CERT_MANAGER_CHART_VERSION" (lit "v1.20.2"))
    ∷ set_str "CertManagerChartRepoURL"
        (getenv "CERT_MANAGER_CHART_REPO_URL" (lit "https://charts.jetstack.io"))
    ∷ set_str "CertManagerNamespace" (getenv "CERT_MANAGER_NAMESPACE" (lit "cert-manager"))
    ∷ set_bool "CrossplaneEnabled" (env_bool "CROSSPLANE_ENABLED" true)
    ∷ set_str "CrossplaneChartVersion" (getenv "CROSSPLANE_CHART_VERSION" (lit "2.2.1"))
    ∷ set_str "CrossplaneChartRepoURL"
        (getenv "CROSSPLANE_CHART_REPO_URL" (lit "https://charts.crossplane.io/stable"))
    ∷ set_str "CrossplaneNamespace" (getenv "CROSSPLANE_NAMESPACE" (lit "crossplane-system"))
    ∷ set_bool "CNPGEnabled" (env_bool "CNPG_ENABLED" true)
    ∷ set_str "CNPGChartVersion" (getenv "CNPG_CHART_VERSION" (lit ""))
    ∷ set_str "CNPGChartRepoURL"
        (getenv "CNPG_CHART_REPO_URL" (lit "https://cloudnative-pg.github.io/charts"))
    ∷ set_str "CNPGChartName" (getenv "CNPG_CHART_NAME" (lit "cloudnative-pg"))
    ∷ set_str "CNPGNamespace" (getenv "CNPG_NAMESPACE" (lit "cnpg-system"))
    ∷ set_bool "ExternalSecretsEnabled" (env_bool "EXTERNAL_SECRETS_ENABLED" true)
    ∷ set_str "ExternalSecretsChartRepoURL"
        (getenv "EXTERNAL_SECRETS_CHART_REPO_URL" (lit "https://charts.external-secrets.io"))
    ∷ set_str "ExternalSecretsChartVersion" (getenv "EXTERNAL_SECRETS_CHART_VERSION" (lit ""))
    ∷ set_str "ExternalSecretsNamespace"
        (getenv "EXTERNAL_SECRETS_NAMESPACE" (lit "external-secrets-system"))
    ∷ set_bool "InfisicalOperatorEnabled" (env_bool "INFISICAL_OPERATOR_ENABLED" true)
    ∷ set_str "InfisicalChartRepoURL" (
        getenv "INFISICAL_CHART_REPO_URL"
          (lit "https://dl.cloudsmith.io/public/infisical/helm-charts/helm/charts/"))
    ∷ set_str "InfisicalChartName" (getenv "INFISICAL_CHART_NAME" (lit "secrets-operator"))
    ∷ set_str "InfisicalChartVersion" (getenv "INFISICAL_CHART_VERSION" (lit ""))
    ∷ set_str "InfisicalNamespace" (getenv "INFISICAL_NAMESPACE" (lit "infisical-system"))
    ∷ set_bool "SPIREEnabled" (env_bool "SPIRE_ENABLED" true)
    ∷ set_str "SPIREChartRepoURL"
        (getenv "SPIRE_CHART_REPO_URL" (lit "https://spiffe.github.io/helm-charts-hardened"))
    ∷ set_str "SPIREChartName" (getenv "SPIRE_CHART_NAME" (lit "spire"))
    ∷ set_str "SPIREChartVersion" (getenv "SPIRE_CHART_VERSION" (lit "0.28.4"))
    ∷ set_str "SPIRECRDsChartName" (getenv "SPIRE_CRDS_CHART_NAME" (lit "spire-crds"))
    ∷ set_str "SPIRECRDsChartVersion" (getenv "SPIRE_CRDS_CHART_VERSION" (lit "0.5.0"))
    ∷ set_str "SPIREHelmEnableGlobalHooks" (getenv "SPIRE_HELM_ENABLE_GLOBAL_HOOKS" (lit "false"))
    ∷ set_str "SPIRENamespace" (getenv "SPIRE_NAMESPACE" (lit "spire"))
    ∷ set_str "SPIREOIDCInsecureHTTP" (getenv "SPIRE_OIDC_INSECURE_HTTP" (lit "true"))
    ∷ set_str "SPIREOIDCBundleSource" (getenv "SPIRE_OIDC_BUNDLE_SOURCE" (lit "CSI"))
    ∷ set_str "SPIRETolerateControlPlane" (getenv "SPIRE_TOLERATE_CONTROL_PLANE" (lit "true"))
    ∷ set_bool "OTELEnabled" (env_bool "OTEL_ENABLED" true)
    ∷ set_str "OTELChartRepoURL" (
        getenv "OTEL_CHART_REPO_URL"
          (lit "https://open-telemetry.github.io/opentelemetry-helm-charts"))
    ∷ []
