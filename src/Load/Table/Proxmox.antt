-- ===== src/Load/Table/Proxmox.antt =====
-- internal/config/config.go: statements of Load, from OTELChartName to Providers.Proxmox.SourceNode.
use yage.Prelude.{List, [], ◌∷◌, true, false}
use yage.Load.Syntax.{Statement, set_bool, set_str, env_bool, lit, getenv}

abbrev pub proxmox_settings : List Statement
proxmox_settings =
    set_str "OTELChartName" (getenv "OTEL_CHART_NAME" (lit "opentelemetry-collector"))
    ∷ set_str "OTELChartVersion" (getenv "OTEL_CHART_VERSION" (lit "0.152.0"))
    ∷ set_str "OTELImageRepository"
        (getenv "OTEL_IMAGE_REPOSITORY" (lit "otel/opentelemetry-collector-k8s"))
    ∷ set_str "OTELCollectorMode" (getenv "OTEL_COLLECTOR_MODE" (lit "deployment"))
    ∷ set_str "OTELNamespace" (getenv "OTEL_NAMESPACE" (lit "opentelemetry"))
    ∷ set_bool "GrafanaEnabled" (env_bool "GRAFANA_ENABLED" true)
    ∷ set_str "GrafanaChartRepoURL"
        (getenv "GRAFANA_CHART_REPO_URL" (lit "https://grafana.github.io/helm-charts"))
    ∷ set_str "GrafanaChartVersion" (getenv "GRAFANA_CHART_VERSION" (lit ""))
    ∷ set_str "GrafanaNamespace" (getenv "GRAFANA_NAMESPACE" (lit "grafana"))
    ∷ set_bool "VictoriaMetricsEnabled" (env_bool "VICTORIAMETRICS_ENABLED" true)
    ∷ set_str "VictoriaMetricsChartRepoURL" (
        getenv "VICTORIAMETRICS_CHART_REPO_URL"
          (lit "https://victoriametrics.github.io/helm-charts/"))
    ∷ set_str "VictoriaMetricsChartName"
        (getenv "VICTORIAMETRICS_CHART_NAME" (lit "victoria-metrics-single"))
    ∷ set_str "VictoriaMetricsChartVersion" (getenv "VICTORIAMETRICS_CHART_VERSION" (lit ""))
    ∷ set_str "VictoriaMetricsNamespace"
        (getenv "VICTORIAMETRICS_NAMESPACE" (lit "victoria-metrics"))
    ∷ set_bool "BackstageEnabled" (env_bool "BACKSTAGE_ENABLED" false)
    ∷ set_str "BackstageChartRepoURL" (getenv "BACKSTAGE_CHART_REPO_URL" (lit ""))
    ∷ set_str "BackstageChartName" (getenv "BACKSTAGE_CHART_NAME" (lit "backstage"))
    ∷ set_str "BackstageChartVersion" (getenv "BACKSTAGE_CHART_VERSION" (lit ""))
    ∷ set_str "BackstageNamespace" (getenv "BACKSTAGE_NAMESPACE" (lit "backstage"))
    ∷ set_bool "KeycloakEnabled" (env_bool "KEYCLOAK_ENABLED" true)
    ∷ set_str "KeycloakChartRepoURL"
        (getenv "KEYCLOAK_CHART_REPO_URL" (lit "https://codecentric.github.io/helm-charts"))
    ∷ set_str "KeycloakChartName" (getenv "KEYCLOAK_CHART_NAME" (lit "keycloakx"))
    ∷ set_str "KeycloakChartVersion" (getenv "KEYCLOAK_CHART_VERSION" (lit ""))
    ∷ set_str "KeycloakNamespace" (getenv "KEYCLOAK_NAMESPACE" (lit "keycloak"))
    ∷ set_str "KeycloakKcHostnameStrict" (getenv "KEYCLOAK_KC_HOSTNAME_STRICT" (lit "false"))
    ∷ set_str "KeycloakKcHostname" (getenv "KEYCLOAK_KC_HOSTNAME" (lit ""))
    ∷ set_str "KeycloakKcDB" (getenv "KEYCLOAK_KC_DB" (lit ""))
    ∷ set_bool "KeycloakOperatorEnabled" (env_bool "KEYCLOAK_OPERATOR_ENABLED" false)
    ∷ set_str "KeycloakOperatorGitURL" (getenv "KEYCLOAK_OPERATOR_GIT_URL" (lit ""))
    ∷ set_str "KeycloakOperatorGitPath" (getenv "KEYCLOAK_OPERATOR_GIT_PATH" (lit "."))
    ∷ set_str "KeycloakOperatorGitRef" (getenv "KEYCLOAK_OPERATOR_GIT_REF" (lit "main"))
    ∷ set_str "KeycloakOperatorNS"
        (getenv "KEYCLOAK_OPERATOR_NAMESPACE" (lit "keycloak-realm-operator"))
    ∷ set_str "ClusterctlCfg" (getenv "CLUSTERCTL_CFG" (lit ""))
    ∷ set_str "Providers.Proxmox.AdminConfig" (getenv "PROXMOX_ADMIN_CONFIG" (lit ""))
    ∷ set_str "Providers.Proxmox.CSIConfig" (getenv "PROXMOX_CSI_CONFIG" (lit ""))
    ∷ set_str "Providers.Proxmox.BootstrapSecretNamespace"
        (getenv "PROXMOX_BOOTSTRAP_SECRET_NAMESPACE" (lit "yage-system"))
    ∷ set_str "Providers.Proxmox.BootstrapSecretName"
        (getenv "PROXMOX_BOOTSTRAP_SECRET_NAME" (lit ""))
    ∷ set_str "Providers.Proxmox.BootstrapCAPMOXSecretName"
        (getenv "PROXMOX_BOOTSTRAP_CAPMOX_SECRET_NAME" (lit "proxmox-bootstrap-capmox-credentials"))
    ∷ set_str "Providers.Proxmox.BootstrapCSISecretName"
        (getenv "PROXMOX_BOOTSTRAP_CSI_SECRET_NAME" (lit "proxmox-bootstrap-csi-credentials"))
    ∷ set_str "Providers.Proxmox.BootstrapAdminSecretName"
        (getenv "PROXMOX_BOOTSTRAP_ADMIN_SECRET_NAME" (lit "proxmox-bootstrap-admin-credentials"))
    ∷ set_bool "Providers.Proxmox.BootstrapKindSecretUsed"
        (env_bool "PROXMOX_BOOTSTRAP_KIND_SECRET_USED" false)
    ∷ set_bool "Providers.Proxmox.KindCAPMOXActive"
        (env_bool "PROXMOX_KIND_CAPMOX_CREDENTIALS_ACTIVE" false)
    ∷ set_str "Providers.Proxmox.IdentityTF"
        (getenv "PROXMOX_IDENTITY_TF" (lit "proxmox-identity.tf"))
    ∷ set_str "Providers.Proxmox.AdminInsecure" (getenv "PROXMOX_ADMIN_INSECURE" (lit "true"))
    ∷ set_str "ClusterSetID" (getenv "CLUSTER_SET_ID" (lit ""))
    ∷ set_bool "Providers.Proxmox.RecreateIdentities" (env_bool "RECREATE_PROXMOX_IDENTITIES" false)
    ∷ set_str "Providers.Proxmox.IdentityRecreateScope"
        (getenv "PROXMOX_IDENTITY_RECREATE_SCOPE" (lit "both"))
    ∷ set_bool "Providers.Proxmox.IdentityRecreateStateRm"
        (env_bool "PROXMOX_IDENTITY_RECREATE_STATE_RM" false)
    ∷ set_str "Providers.Proxmox.IdentitySuffix" (getenv "PROXMOX_IDENTITY_SUFFIX" (lit ""))
    ∷ set_str "Providers.Proxmox.URL" (getenv "PROXMOX_URL" (lit ""))
    ∷ set_str "Providers.Proxmox.CAPIToken"
        (getenv "PROXMOX_CAPI_TOKEN" (getenv "PROXMOX_TOKEN" (lit "")))
    ∷ set_str "Providers.Proxmox.CAPISecret"
        (getenv "PROXMOX_CAPI_SECRET" (getenv "PROXMOX_SECRET" (lit "")))
    ∷ set_str "Providers.Proxmox.AdminUsername"
        (getenv "PROXMOX_ADMIN_USERNAME" (lit "root@pam!capi-bootstrap"))
    ∷ set_str "Providers.Proxmox.AdminToken" (getenv "PROXMOX_ADMIN_TOKEN" (lit ""))
    ∷ set_str "Providers.Proxmox.Region" (getenv "PROXMOX_REGION" (lit ""))
    ∷ set_str "Providers.Proxmox.Node" (getenv "PROXMOX_NODE" (lit ""))
    ∷ set_str "Providers.Proxmox.SourceNode" (getenv "PROXMOX_SOURCENODE" (lit ""))
    ∷ []
