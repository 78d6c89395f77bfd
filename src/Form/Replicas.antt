-- ===== src/Form/Replicas.antt =====
-- The numbers of machines that buildSnapshotCfg sets.
use yage.Prelude.{
  String, ◌&&◌, Option, none, some, List, [], ◌∷◌, ltb_ℤ, pos, ◌≡◌, refl, ◌∙◌, ap, Bool-cases, inl,
  inr,
}
use yage.Float.{Float}
use yage.Settings.{Settings, Strconv, set_text, set_flag}
use yage.Snapshot.Apps.{int_text}
use yage.Dash.Fields.Inputs.{ti_budget}
use yage.Dash.Fields.Options.{si_env, si_resil, toi_overcommit}
use yage.Form.{Form, Host, run_saves, save, trimmed, selected, Size}
use yage.Form.Shape.{
  WorkloadShape, enabled, set_override, set_overrides, sizes_in_order, set_workload,
  sync_workload_shape_to_cfg, workers,
}
use yage.Form.Credentials.{disable_providers_missing_credentials}
use yage.Form.Build.{
  save_inputs, save_shape, save_budget, budget_set, shape_of, build_snapshot_cfg, replicas_of,
  resilience_of, fork_of,
}

module _ {F : Type 0} (w : WorkloadShape) where
  set_override-texts : (size : Size) (s : Settings F) → (set_override w size s).texts ≡ s.texts
  unfolding set_override
  set_override-texts size s = elim (Bool-cases (enabled w size && ltb_ℤ (pos 0) (w.sizes size))) [
    | inl e ↦ rw e refl
    | inr e ↦ rw e refl
  ]

  pub set_overrides-texts :
      (sizes : List Size) (s : Settings F) → (set_overrides w sizes s).texts ≡ s.texts
  unfolding set_overrides
  set_overrides-texts [] s = refl
  set_overrides-texts (size ∷ sizes) s =
      set_overrides-texts sizes (set_override w size s) ∙ set_override-texts size s

module _ (f : Float) (go : Strconv f.F) (host : Host f.F) (form : Form) where
  budget_set-texts :
      (x : Option f.F) (s : Settings f.F) → (budget_set f go host form x s).texts ≡ s.texts
  budget_set-texts none s = refl
  budget_set-texts (some x) s = elim (Bool-cases (f.lt (f.lit 0 1) x)) [
    | inl e ↦ rw e refl
    | inr e ↦ rw e refl
  ]

  pub save_budget-texts : (s : Settings f.F) → (save_budget f go host form s).texts ≡ s.texts
  unfolding save_budget
  save_budget-texts s = budget_set-texts (go.parse_float (trimmed form ti_budget)) s

  -- The replicas of the control plane after the inputs are saved.
  save_inputs-replicas :
      (s : Settings f.F)
      → (save_inputs f go host form s).texts "ControlPlaneMachineCount"
        ≡ replicas_of (selected form si_resil)
  unfolding save_inputs run_saves save
  save_inputs-replicas s =
      ap (λ (m : String → String). m "ControlPlaneMachineCount") (save_budget-texts _)

  save_shape-replicas :
      (w : WorkloadShape) (s : Settings f.F)
      → let t = save_shape f go host form w s in
        (t.texts "ControlPlaneMachineCount" ≡ s.texts "ControlPlaneMachineCount")
        × (t.texts "WorkerMachineCount" ≡ int_text (workers w.apps))
  unfolding save_shape sync_workload_shape_to_cfg set_workload
  save_shape-replicas w s =
      let a = set_flag s "Capacity.AllowOvercommit" (form.toggles toi_overcommit) in
      let b = set_text a "WorkerMachineCount" (int_text (workers w.apps)) in
      let c =
        set_workload w go.to_lower (resilience_of (selected form si_resil)) (selected form si_env)
          (fork_of form) b in
      let texts = set_overrides-texts w sizes_in_order c in
      (
        ap (λ (m : String → String). m "ControlPlaneMachineCount") texts,
        ap (λ (m : String → String). m "WorkerMachineCount") texts,
      )

  -- The replicas of the control plane follow from the resilience alone, and the workers from the
  -- applications alone, whatever the inputs for the replicas hold.
  pub build_snapshot_cfg-replicas :
      (s : Settings f.F)
      → let snap = build_snapshot_cfg f go host form s in
        (snap.texts "ControlPlaneMachineCount" ≡ replicas_of (selected form si_resil))
        × (snap.texts "WorkerMachineCount" ≡ int_text (workers (shape_of form go.to_lower).apps))
  unfolding build_snapshot_cfg disable_providers_missing_credentials
  build_snapshot_cfg-replicas s =
      let a = save_inputs f go host form s in
      let (planes, staff) = save_shape-replicas (shape_of form go.to_lower) a in
      (planes ∙ save_inputs-replicas s, staff)
