-- ===== src/Pivot.antt =====
-- internal/orchestrator/pivot_sequence.go: what is done after the pivot to the management cluster.
-- The dependencies are parameters, as in postPivotDeps. They act on a world `W`, which the
-- configuration that they share and change is a part of.
pub mod Calls
pub mod Order
mod Examples
use Prim.Native.String.{◌++◌}
use yage.Prelude.{ℤ, String, Bool, ◌⊎◌, inl, inr, Option, none, some, List, [], ◌∷◌, if◌then◌else◌}

pub record HandoffResult (Err : Type 0) : Type 0 where
  pub named_copied : ℤ
  pub label_copied : ℤ
  pub first_err : Option Err

-- A CSI driver: its name and EnsureManagementInstall for a kubeconfig.
pub record Driver (W Err : Type 0) : Type 0 where
  pub name : String
  pub ensure_management_install : String → W → Option Err × W

pub record PostPivotDeps (W Err Client : Type 0) : Type 0 where
  pub kind_cluster_name : W → String
  pub move_capi_state : String → W → Option Err × W
  pub handoff : String → String → W → (HandoffResult Err × Option Err) × W
  pub mgmt_client : String → W → (Err ⊎ Client) × W
  pub ensure_yage_system : Client → W → Option Err × W
  pub prepare_csi : W → W
  pub csi_drivers : W → List (Driver W Err)
  pub ensure_repo_sync : Client → W → Option Err × W
  pub verify_parity : String → W → Option Err × W
  pub rebind : String → W → Option Err × W
  -- errors.Is(err, csi.ErrNotApplicable)
  pub is_not_applicable : Err → Bool

-- The errors that the sequence returns, each with the error that it wraps.
pub data PivotError (Err : Type 0) : Type 0 where
  move_failed : Err → PivotError Err
  client_failed : Err → PivotError Err
  yage_system_failed : Err → PivotError Err
  install_failed : String → Err → PivotError Err
  repo_sync_failed : Err → PivotError Err
  parity_failed : Err → PivotError Err
  rebind_failed : String → Err → PivotError Err

module _ {Err : Type 0} where
  -- An error that `tolerated` holds of counts as none.
  pub tolerate : (Err → Bool) → Option Err → Option Err
  tolerate tolerated none = none
  tolerate tolerated (some e) = if tolerated e then none else some e

module _ {W Err : Type 0} where
  -- A call, and an early return with its error when it fails.
  pub try :
      (W → Option Err × W)
      → (W → Err → PivotError Err)
      → (W → Option (PivotError Err) × W)
      → W
      → Option (PivotError Err) × W
  try call wrap next w =
      let (err, w') = call w in
      let rest = next w' in elim err [ none ↦ rest | some e ↦ (some (wrap w' e), w') ]

  -- The loop over the drivers, and what follows it.
  pub install_all :
      (Err → Bool)
      → String
      → List (Driver W Err)
      → (W → Option (PivotError Err) × W)
      → W
      → Option (PivotError Err) × W
  unfolding try tolerate
  install_all not_applicable kubeconfig [] next = next
  install_all not_applicable kubeconfig (d ∷ ds) next =
      try
        (λ w.
          let (err, w') = d.ensure_management_install kubeconfig w in
          (tolerate not_applicable err, w'))
        (λ _ e. install_failed d.name e) (install_all not_applicable kubeconfig ds next)

module _ {W Err Client : Type 0} (deps : PostPivotDeps W Err Client) (kubeconfig : String) where
  -- The steps behind the CSI drivers.
  pub finish : Client → W → Option (PivotError Err) × W
  unfolding try
  finish client =
      try (deps.ensure_repo_sync client) (λ _. repo_sync_failed)
        (try (deps.verify_parity kubeconfig) (λ _. parity_failed)
          (try (deps.rebind kubeconfig) (λ w. rebind_failed (deps.kind_cluster_name w))
            (λ w. (none, w))))

  -- The steps that need a client of the management cluster.
  pub with_client : (Err ⊎ Client) × W → Option (PivotError Err) × W
  unfolding try install_all finish
  with_client (inl e, w) = (some (client_failed e), w)
  with_client (inr client, w) =
      try (deps.ensure_yage_system client) (λ _. yage_system_failed)
        (λ w.
          let w' = deps.prepare_csi w in
          install_all deps.is_not_applicable kubeconfig (deps.csi_drivers w') (finish client) w')
        w

  pub kind_context : W → String
  kind_context w = "kind-" ++ deps.kind_cluster_name w

  pub run_post_pivot_sequence : (dry_run : Bool) → W → Option (PivotError Err) × W
  unfolding try with_client kind_context
  run_post_pivot_sequence dry_run =
      try (deps.move_capi_state kubeconfig) (λ _. move_failed)
        (λ w.
          let (_, w') = deps.handoff (kind_context w) kubeconfig w in
          let rest = with_client (deps.mgmt_client kubeconfig w') in
          if dry_run then (none, w) else rest)
