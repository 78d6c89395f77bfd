-- ===== src/Form/Derived.antt =====
-- The steps of buildSnapshotCfg that set fields from several inputs, and what they leave.
use yage.Prelude.{
  String, Bool, true, false, ◌&&◌, Option, none, some, List, [], ◌∷◌, ltb_ℤ, pos, ◌==◌,
  if◌then◌else◌, ◌≡◌, refl, ◌∙◌, ap, Bool-cases, inl, inr,
}
use yage.Float.{Float}
use yage.Settings.{Settings, Strconv, set_text, set_flag, set_int}
use yage.Snapshot.Apps.{int_text}
use yage.Dash.Fields.Inputs.{ti_budget}
use yage.Dash.Fields.Options.{si_env, si_resil, si_provider, toi_overcommit}
use yage.Form.{Form, Host, trimmed, selected, run_saves, Size}
use yage.Form.Saves.{
  name_saves, connection_saves, mirror_saves, platform_saves, argocd_saves, setting_saves,
}
use yage.Form.Shape.{
  WorkloadShape, ForkType, override_field, enabled, egress_of, resilience_word, environment_word,
  set_override, set_overrides, sizes_in_order, set_workload, sync_workload_shape_to_cfg, workers,
}
use yage.Form.Credentials.{disable_providers_missing_credentials}
use yage.Form.Build.{
  save_provider, save_mirrors, save_budget, budget_set, save_inputs, save_shape, shape_of,
  build_snapshot_cfg, replicas_of, resilience_of, fork_of,
}
use yage.Form.Frame.{
  within, Same, same, then_same, set_text-Same, set_flag-Same, set_int-Same, set_float-Same,
  run_saves-Same,
}

-- `p` tells the fields that are set one by one, and those that are set from several inputs.
pub record CoversTables (p : String → Bool) : Type 0 where
  pub names : within p name_saves ≡ true
  pub connection : within p connection_saves ≡ true
  pub mirrors : within p mirror_saves ≡ true
  pub platform : within p platform_saves ≡ true
  pub argocd : within p argocd_saves ≡ true
  pub settings : within p setting_saves ≡ true

pub record CoversRest (p : String → Bool) : Type 0 where
  pub provider : p "InfraProvider" ≡ true
  pub defaulted : p "InfraProviderDefaulted" ≡ true
  pub planes : p "ControlPlaneMachineCount" ≡ true
  pub budget : p "BudgetUSDMonth" ≡ true
  pub overcommit : p "Capacity.AllowOvercommit" ≡ true
  pub staff : p "WorkerMachineCount" ≡ true
  pub database : p "Workload.DatabaseGB" ≡ true
  pub egress : p "Workload.EgressGBMonth" ≡ true
  pub resilience : p "Workload.Resilience" ≡ true
  pub environment : p "Workload.Environment" ≡ true
  pub queue : p "Workload.HasQueue" ≡ true
  pub obj_store : p "Workload.HasObjStore" ≡ true
  pub cache : p "Workload.HasCache" ≡ true
  pub sizes : (size : Size) → p (override_field size) ≡ true

module _ (p : String → Bool) (g : String) (outside : p g ≡ false) (rest : CoversRest p) where
  module _ {F : Type 0} (w : WorkloadShape) where
    set_override-Same : (size : Size) (s : Settings F) → Same g s (set_override w size s)
    unfolding set_override
    set_override-Same size s = elim (Bool-cases (enabled w size && ltb_ℤ (pos 0) (w.sizes size))) [
      | inl e ↦
          rw e (set_int-Same p g outside s (override_field size) (rest.sizes size) (w.sizes size))
      | inr e ↦ rw e (same g s)
    ]

    set_overrides-Same : (sizes : List Size) (s : Settings F) → Same g s (set_overrides w sizes s)
    unfolding set_overrides
    set_overrides-Same [] s = same g s
    set_overrides-Same (size ∷ sizes) s =
        let first = set_override-Same size s in
        let last = set_overrides-Same sizes (set_override w size s) in
        (last.0 ∙ first.0, last.1 ∙ first.1, last.2 ∙ first.2, last.3 ∙ first.3)

    set_workload-Same :
        (to_lower : String → String) (resil env : String) (fork : ForkType) (s : Settings F)
        → Same g s (set_workload w to_lower resil env fork s)
    unfolding set_workload
    set_workload-Same to_lower resil env fork s =
        let egress = egress_of fork w.egress_gb_mo w.dbgb in
        let a = set_int s "Workload.DatabaseGB" w.dbgb in
        let b = set_int a "Workload.EgressGBMonth" egress in
        let c = set_text b "Workload.Resilience" (resilience_word resil) in
        let d = set_text c "Workload.Environment" (environment_word env) in
        let e = set_flag d "Workload.HasQueue" w.has_queue in
        let h = set_flag e "Workload.HasObjStore" w.has_obj_store in
        let i1 = set_int-Same p g outside s "Workload.DatabaseGB" rest.database w.dbgb in
        let i2 = set_int-Same p g outside a "Workload.EgressGBMonth" rest.egress egress in
        let t1 =
          set_text-Same p g outside b "Workload.Resilience" rest.resilience
            (resilience_word resil) in
        let t2 =
          set_text-Same p g outside c "Workload.Environment" rest.environment
            (environment_word env) in
        let b1 = set_flag-Same p g outside d "Workload.HasQueue" rest.queue w.has_queue in
        let b2 =
          set_flag-Same p g outside e "Workload.HasObjStore" rest.obj_store w.has_obj_store in
        let b3 = set_flag-Same p g outside h "Workload.HasCache" rest.cache w.has_cache in
        (t2.0 ∙ t1.0, b3.1 ∙ b2.1 ∙ b1.1, i2.2 ∙ i1.2, refl)

  module _ (f : Float) (go : Strconv f.F) (host : Host f.F) (form : Form) where
    pub save_provider-Same : (s : Settings f.F) → Same g s (save_provider f go host form s)
    unfolding save_provider
    save_provider-Same s =
        let v = selected form si_provider in
        let placed = set_text s "InfraProvider" v in
        let first = set_text-Same p g outside s "InfraProvider" rest.provider v in
        let last = set_flag-Same p g outside placed "InfraProviderDefaulted" rest.defaulted false in
        elim (Bool-cases (v == "auto")) [
          | inl e ↦ rw e (same g s)
          | inr e ↦ rw e (first.0, last.1, refl, refl)
        ]

    budget_set-Same : (x : Option f.F) (s : Settings f.F) → Same g s (budget_set f go host form x s)
    budget_set-Same none s = same g s
    budget_set-Same (some x) s = elim (Bool-cases (f.lt (f.lit 0 1) x)) [
      | inl e ↦ rw e (set_float-Same p g outside s "BudgetUSDMonth" rest.budget _)
      | inr e ↦ rw e (same g s)
    ]

    pub save_budget-Same : (s : Settings f.F) → Same g s (save_budget f go host form s)
    unfolding save_budget
    save_budget-Same s = budget_set-Same (go.parse_float (trimmed form ti_budget)) s

    pub save_shape-Same :
        (w : WorkloadShape) (s : Settings f.F) → Same g s (save_shape f go host form w s)
    unfolding save_shape sync_workload_shape_to_cfg
    save_shape-Same w s =
        let a = set_flag s "Capacity.AllowOvercommit" (form.toggles toi_overcommit) in
        let b = set_text a "WorkerMachineCount" (int_text (workers w.apps)) in
        let resil = resilience_of (selected form si_resil) in
        let c = set_workload w go.to_lower resil (selected form si_env) (fork_of form) b in
        let h1 =
          set_flag-Same p g outside s "Capacity.AllowOvercommit" rest.overcommit
            (form.toggles toi_overcommit) in
        let h2 =
          set_text-Same p g outside a "WorkerMachineCount" rest.staff (int_text (workers w.apps)) in
        let h3 = set_workload-Same w go.to_lower resil (selected form si_env) (fork_of form) b in
        let h4 = set_overrides-Same w sizes_in_order c in
        (
          h4.0 ∙ h3.0 ∙ h2.0 ∙ h1.0,
          h4.1 ∙ h3.1 ∙ h2.1 ∙ h1.1,
          h4.2 ∙ h3.2 ∙ h2.2 ∙ h1.2,
          h4.3 ∙ h3.3 ∙ h2.3 ∙ h1.3,
        )

    module _ (tables : CoversTables p) where
      save_mirrors-Same : (s : Settings f.F) → Same g s (save_mirrors f go host form s)
      unfolding save_mirrors
      save_mirrors-Same s = elim (Bool-cases (s.flags "Airgapped")) [
        | inl e ↦ rw e (run_saves-Same p g outside f go form mirror_saves s tables.mirrors)
        | inr e ↦ rw e (same g s)
      ]

      pub save_inputs-Same : (s : Settings f.F) → Same g s (save_inputs f go host form s)
      unfolding save_inputs
      save_inputs-Same s =
          let saves = run_saves-Same p g outside f go form in
          let s1 = run_saves f go form name_saves s in
          let s2 = save_provider f go host form s1 in
          let s3 = run_saves f go form connection_saves s2 in
          let s4 = save_mirrors f go host form s3 in
          let s5 = run_saves f go form platform_saves s4 in
          let s6 = run_saves f go form argocd_saves s5 in
          let count = replicas_of (selected form si_resil) in
          let s7 = set_text s6 "ControlPlaneMachineCount" count in
          let s8 = run_saves f go form setting_saves s7 in
          let s9 = save_budget f go host form s8 in
          let h1 = saves name_saves s tables.names in
          let h2 = save_provider-Same s1 in
          let h3 = saves connection_saves s2 tables.connection in
          let h4 = save_mirrors-Same s3 in
          let h5 = saves platform_saves s4 tables.platform in
          let h6 = saves argocd_saves s5 tables.argocd in
          let h7 = set_text-Same p g outside s6 "ControlPlaneMachineCount" rest.planes count in
          let h8 = saves setting_saves s7 tables.settings in
          let h9 = save_budget-Same s8 in
          then_same g s s4 s9
            (then_same g s s2 s4 (then_same g s s1 s2 h1 h2) (then_same g s2 s3 s4 h3 h4))
            (then_same g s4 s6 s9 (then_same g s4 s5 s6 h5 h6)
              (then_same g s6 s7 s9 h7 (then_same g s7 s8 s9 h8 h9)))

      -- A field that `p` does not tell keeps its value, if it is not the list of skipped providers.
      pub build_snapshot_cfg-Same :
          (s : Settings f.F)
          → ("SkipProviders" == g) ≡ false
          → Same g s (build_snapshot_cfg f go host form s)
      unfolding build_snapshot_cfg disable_providers_missing_credentials
      build_snapshot_cfg-Same s other =
          let a = save_inputs f go host form s in
          let w = shape_of form go.to_lower in
          let b = save_shape f go host form w a in
          let h1 = save_inputs-Same s in
          let h2 = save_shape-Same w a in
          let skips = λ (v : String). ap (λ c. if c then v else b.texts g) other in
          (skips _ ∙ h2.0 ∙ h1.0, h2.1 ∙ h1.1, h2.2 ∙ h1.2, h2.3 ∙ h1.3)
