-- ===== src/Pivot/Examples.antt =====
-- The theorems about the post-pivot sequence at concrete inputs: the world counts the calls of the
-- cluster, and a repository that does not answer is the error 7.
use yage.Prelude.{
  ℕ, ◌+◌, String, Bool, false, eqb, inr, Option, none, some, List, [], ◌∷◌, pos, ◌≡◌, refl,
}
use yage.Pivot.{PivotError, PostPivotDeps, repo_sync_failed, run_post_pivot_sequence}
use yage.Pivot.Calls.{
  Call, Follows, full_order, move, recorded, handoff, client, yage_system, prepare, install,
  repo_sync,
}
use yage.Pivot.Order.{run_post_pivot_sequence-Follows}

abbrev works : ℕ → Option ℕ × ℕ
works w = (none, w + 1)

abbrev sample_deps : PostPivotDeps ℕ ℕ String
sample_deps = record {
  kind_cluster_name = λ _. "yage";
  move_capi_state = λ _. works;
  handoff = λ _ _ w.
      ((record { named_copied = pos 1; label_copied = pos 0; first_err = some 3 }, some 3), w);
  mgmt_client = λ k w. (inr k, w);
  ensure_yage_system = λ _. works;
  prepare_csi = λ w. w;
  csi_drivers = λ _.
      record { name = "aws-ebs"; ensure_management_install = λ _. works }
      ∷ record { name = "hcloud-csi"; ensure_management_install = λ _ w. (some 404, w) }
      ∷ [];
  ensure_repo_sync = λ _ w. (some 7, w);
  verify_parity = λ _. works;
  rebind = λ _. works;
  is_not_applicable = eqb 404;
}

abbrev outcome : Bool → Option (PivotError ℕ) × (ℕ × List (Call × Option ℕ))
outcome dry_run = run_post_pivot_sequence (recorded sample_deps) "mgmt" dry_run (0, [])

run_post_pivot_sequence-Follows_example :
    Follows sample_deps.is_not_applicable
      (full_order ("aws-ebs" ∷ "hcloud-csi" ∷ []))
      (outcome false).1.1
      (outcome false).0
run_post_pivot_sequence-Follows_example = run_post_pivot_sequence-Follows sample_deps "mgmt" false 0

outcome-stops_at_repo_sync : outcome false ≡ (
  some (repo_sync_failed 7),
  (
    3,
    (move, none)
        ∷ (handoff, some 3)
        ∷ (client, none)
        ∷ (yage_system, none)
        ∷ (prepare, none)
        ∷ (install "aws-ebs", none)
        ∷ (install "hcloud-csi", some 404)
        ∷ (repo_sync, some 7)
        ∷ [],
  ),
)
unfolding run_post_pivot_sequence
outcome-stops_at_repo_sync = refl
