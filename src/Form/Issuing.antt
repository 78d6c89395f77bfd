-- ===== src/Form/Issuing.antt =====
-- The certificate and the key of the issuing CA, which the dashboard shows in text inputs.
use yage.Prelude.{String, List, ◌≡◌, ◌∙◌, ap}
use yage.Float.{Float}
use yage.Settings.{Settings, Strconv, set_text, set_flag}
use yage.Settings.Trim.{trim_space}
use yage.Snapshot.Apps.{int_text}
use yage.Dash.Fields.Options.{si_env, si_resil, toi_overcommit}
use yage.Form.{Form, Host, run_saves, save, selected}
use yage.Form.Shape.{
  WorkloadShape, sizes_in_order, set_workload, sync_workload_shape_to_cfg, workers,
}
use yage.Form.Credentials.{disable_providers_missing_credentials}
use yage.Form.Open.{State, new_dash_model, seed_at, text_for, seed_value}
use yage.Form.Build.{save_inputs, save_shape, shape_of, build_snapshot_cfg, resilience_of, fork_of}
use yage.Form.Replicas.{set_overrides-texts, save_budget-texts}

module _ (f : Float) (go : Strconv f.F) (host : Host f.F) (cfg : Settings f.F) (state : State f.F)
    (registered : List String) where
  abbrev opened : Form
  opened = new_dash_model f host cfg state registered

  abbrev built : Settings f.F
  built = build_snapshot_cfg f go host opened cfg

  -- What is left of a text that went through an input.
  abbrev through_input : String → String
  through_input t = trim_space (host.input_value t)

  save_shape-issuing :
      (w : WorkloadShape) (s : Settings f.F)
      → let t = save_shape f go host opened w s in
        (t.texts "IssuingCARootCert" ≡ s.texts "IssuingCARootCert")
        × (t.texts "IssuingCARootKey" ≡ s.texts "IssuingCARootKey")
  unfolding save_shape sync_workload_shape_to_cfg set_workload
  save_shape-issuing w s =
      let a = set_flag s "Capacity.AllowOvercommit" (opened.toggles toi_overcommit) in
      let b = set_text a "WorkerMachineCount" (int_text (workers w.apps)) in
      let c =
        set_workload w go.to_lower (resilience_of (selected opened si_resil))
          (selected opened si_env) (fork_of opened) b in
      let texts = set_overrides-texts w sizes_in_order c in
      (
        ap (λ (m : String → String). m "IssuingCARootCert") texts,
        ap (λ (m : String → String). m "IssuingCARootKey") texts,
      )

  save_inputs-issuing :
      let t = save_inputs f go host opened cfg in
      (t.texts "IssuingCARootCert" ≡ through_input (cfg.texts "IssuingCARootCert"))
      × (t.texts "IssuingCARootKey" ≡ through_input (cfg.texts "IssuingCARootKey"))
  unfolding save_inputs run_saves save new_dash_model seed_at text_for seed_value
  save_inputs-issuing = (
    ap (λ (m : String → String). m "IssuingCARootCert") (save_budget-texts f go host opened _),
    ap (λ (m : String → String). m "IssuingCARootKey") (save_budget-texts f go host opened _),
  )

  -- The certificate and the key that are built after opening are what a text input keeps of the
  -- configured ones, without spaces around it: a text of several lines is kept only if the text
  -- inputs keep it.
  pub build_snapshot_cfg-issuing_ca :
      (built.texts "IssuingCARootCert" ≡ through_input (cfg.texts "IssuingCARootCert"))
      × (built.texts "IssuingCARootKey" ≡ through_input (cfg.texts "IssuingCARootKey"))
  unfolding build_snapshot_cfg disable_providers_missing_credentials
  build_snapshot_cfg-issuing_ca =
      let a = save_inputs f go host opened cfg in
      let shaped = save_shape-issuing (shape_of opened go.to_lower) a in
      let first = save_inputs-issuing in (shaped.0 ∙ first.0, shaped.1 ∙ first.1)
