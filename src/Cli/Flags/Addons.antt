-- ===== src/Cli/Flags/Addons.antt =====
-- internal/ui/cli/parse.go: the cases of Parse's switch from --disable-argocd to --csi-driver.
use yage.Prelude.{List, [], ◌∷◌, true, false}
use yage.Cli.Steps.{
  Case, flag, turn, put, take, take_both, take_driver, take_gitops_mode, maybe_access,
  maybe_forward, maybe_rollout, maybe_backup, take_archive, refuse_removed, as_is,
}

abbrev pub addon_flags : List Case
addon_flags =
    flag "--disable-argocd" (turn "ArgoCD.Enabled" false)
    ∷ flag "--disable-workload-argocd" (turn "ArgoCD.WorkloadEnabled" false)
    ∷ flag "--argocd-version" refuse_removed
    ∷ flag "--argocd-app-version" (take "ArgoCD.Version" as_is)
    ∷ flag "--argocd-server-insecure" (take "ArgoCD.ServerInsecure" as_is)
    ∷ flag "--workload-gitops-mode" take_gitops_mode
    ∷ flag "--workload-app-of-apps-git-url" (take "ArgoCD.AppOfAppsGitURL" as_is)
    ∷ flag "--workload-app-of-apps-git-path" (take "ArgoCD.AppOfAppsGitPath" as_is)
    ∷ flag "--workload-app-of-apps-git-ref" (take "ArgoCD.AppOfAppsGitRef" as_is)
    ∷ record {
      spellings = "--argocd-print-access" ∷ "--argocd-print-access-only" ∷ [];
      steps = (turn "ArgoCD.PrintAccessStandalone" true) ∷ maybe_access ∷ [];
    }
    ∷ record {
      spellings = "--argocd-port-forward" ∷ "--argocd-port-forward-only" ∷ [];
      steps = (turn "ArgoCD.PortForwardStandalone" true) ∷ maybe_forward ∷ [];
    }
    ∷ record {
      spellings = "--workload-rollout" ∷ [];
      steps = (turn "WorkloadRolloutStandalone" true) ∷ maybe_rollout ∷ [];
    }
    ∷ flag "--workload-rollout-no-wait" (turn "WorkloadRolloutNoWait" true)
    ∷ record {
      spellings = "--kind-backup" ∷ [];
      steps = (put "BootstrapKindStateOp" "backup") ∷ maybe_backup ∷ [];
    }
    ∷ flag "--kind-restore" take_archive
    ∷ flag "--disable-proxmox-csi" (turn "Providers.Proxmox.CSIEnabled" false)
    ∷ flag "--proxmox-csi-version" (take "Providers.Proxmox.CSIChartVersion" as_is)
    ∷ flag "--disable-proxmox-csi-smoketest" (turn "Providers.Proxmox.CSISmokeEnabled" false)
    ∷ flag "--disable-argocd-workload-postsync-hooks" (turn "ArgoCD.PostsyncHooksEnabled" false)
    ∷ flag "--argocd-workload-postsync-hooks-git-url" (take "ArgoCD.PostsyncHooksGitURL" as_is)
    ∷ flag "--argocd-workload-postsync-hooks-git-path" (take "ArgoCD.PostsyncHooksGitPath" as_is)
    ∷ flag "--argocd-workload-postsync-hooks-git-ref" (take "ArgoCD.PostsyncHooksGitRef" as_is)
    ∷ flag "--disable-kyverno" (turn "KyvernoEnabled" false)
    ∷ flag "--kyverno-version" (take "KyvernoChartVersion" as_is)
    ∷ flag "--disable-cert-manager" (turn "CertManagerEnabled" false)
    ∷ flag "--cert-manager-version" (take "CertManagerChartVersion" as_is)
    ∷ flag "--disable-crossplane" (turn "CrossplaneEnabled" false)
    ∷ flag "--crossplane-version" (take "CrossplaneChartVersion" as_is)
    ∷ flag "--disable-cnpg" (turn "CNPGEnabled" false)
    ∷ flag "--cnpg-version" (take "CNPGChartVersion" as_is)
    ∷ flag "--disable-victoriametrics" (turn "VictoriaMetricsEnabled" false)
    ∷ flag "--victoriametrics-version" (take "VictoriaMetricsChartVersion" as_is)
    ∷ flag "--csi-reclaim-policy" (take "Providers.Proxmox.CSIReclaimPolicy" as_is)
    ∷ flag "--csi-fstype" (take "Providers.Proxmox.CSIFsType" as_is)
    ∷ flag "--csi-default-class" (take_both "CSI.DefaultClass" "Providers.Proxmox.CSIDefaultClass")
    ∷ flag "--csi-driver" take_driver
    ∷ []
