-- ===== src/Form/Build.antt =====
-- internal/ui/xapiri/dashboard_snapshot.go: buildSnapshotCfg.
use yage.Prelude.{
  String, Bool, false, ◌&&◌, Option, none, some, List, [], ◌∷◌, ℤ, pos, leb_ℤ, ltb_ℤ, mul64, ◌==◌,
  if◌then◌else◌,
}
use yage.Text.{codes, atoi}
use yage.Float.{Float}
use yage.Settings.{Settings, Strconv, set_text, set_flag, set_float}
use yage.Snapshot.Apps.{int_text}
use yage.Dash.Fields.Inputs.{
  ti_apps, ti_dbgb, ti_egress_gb, ti_queue_cpu, ti_queue_mem, ti_queue_vol, ti_obj_cpu, ti_obj_mem,
  ti_obj_vol, ti_cache_cpu, ti_cache_mem, ti_budget,
}
use yage.Dash.Fields.Options.{
  si_mode, si_env, si_resil, si_provider, toi_queue, toi_obj_store, toi_cache, toi_overcommit,
}
use yage.Form.{
  Form, Host, trimmed, selected, run_saves, Size, queue_cpu_milli, queue_mem_mib, queue_vol_gb,
  obj_store_cpu_milli, obj_store_mem_mib, obj_store_vol_gb, cache_cpu_milli, cache_mem_mib,
}
use yage.Form.Saves.{
  name_saves, connection_saves, mirror_saves, platform_saves, argocd_saves, setting_saves,
}
use yage.Form.Shape.{
  ForkType, fork_on_prem, fork_cloud, AppBucket, WorkloadShape, parse_app_buckets,
  parse_int_or_keep, workers, sync_workload_shape_to_cfg,
}
use yage.Form.Credentials.{disable_providers_missing_credentials}

abbrev pub fork_of : Form → ForkType
fork_of form = if selected form si_mode == "on-prem" then fork_on_prem else fork_cloud

abbrev pub resilience_of : String → String
resilience_of choice =
    if choice == "ha" then "ha" else if choice == "ha-multi-region" then "ha-multi" else "single"

abbrev pub replicas_of : String → String
replicas_of choice =
    if choice == "ha" then "3" else if choice == "ha-multi-region" then "3" else "1"

-- The number of an input, if it is one that is not negative, and else 0.
abbrev count_of : Option ℤ → ℤ
count_of none = pos 0
count_of (some n) = if leb_ℤ (pos 0) n then n else pos 0

abbrev some_apps : List AppBucket → List AppBucket
some_apps [] = record { count = pos 4; template = "medium" } ∷ []
some_apps (b ∷ apps) = b ∷ apps

abbrev is_zero : ℤ → Bool
is_zero n = leb_ℤ n (pos 0) && leb_ℤ (pos 0) n

abbrev lazy_egress : (egress dbgb : ℤ) → ℤ
lazy_egress egress dbgb =
    if is_zero egress && ltb_ℤ (pos 0) dbgb then mul64 dbgb (pos 2) else egress

abbrev size_or_none : Bool → String → ℤ → ℤ
size_or_none on t cur = if on then parse_int_or_keep t cur else pos 0

module _ (form : Form) where
  abbrev pub sizes_of : Size → ℤ
  sizes_of queue_cpu_milli =
      size_or_none (form.toggles toi_queue) (form.texts ti_queue_cpu) (pos 1000)
  sizes_of queue_mem_mib =
      size_or_none (form.toggles toi_queue) (form.texts ti_queue_mem) (pos 2048)
  sizes_of queue_vol_gb = size_or_none (form.toggles toi_queue) (form.texts ti_queue_vol) (pos 20)
  sizes_of obj_store_cpu_milli =
      size_or_none (form.toggles toi_obj_store) (form.texts ti_obj_cpu) (pos 1000)
  sizes_of obj_store_mem_mib =
      size_or_none (form.toggles toi_obj_store) (form.texts ti_obj_mem) (pos 2048)
  sizes_of obj_store_vol_gb =
      size_or_none (form.toggles toi_obj_store) (form.texts ti_obj_vol) (pos 500)
  sizes_of cache_cpu_milli =
      size_or_none (form.toggles toi_cache) (form.texts ti_cache_cpu) (pos 500)
  sizes_of cache_mem_mib =
      size_or_none (form.toggles toi_cache) (form.texts ti_cache_mem) (pos 2048)

  unfoldable pub shape_of : (String → String) → WorkloadShape
  unfolding parse_app_buckets
  shape_of to_lower =
      let dbgb = count_of (atoi (codes (trimmed form ti_dbgb))) in
      let typed = trimmed form ti_egress_gb in
      let egress = if typed == "" then pos 0 else count_of (atoi (codes typed)) in
      record {
        apps = some_apps (parse_app_buckets to_lower (form.texts ti_apps));
        dbgb = dbgb;
        egress_gb_mo = lazy_egress egress dbgb;
        has_queue = form.toggles toi_queue;
        has_obj_store = form.toggles toi_obj_store;
        has_cache = form.toggles toi_cache;
        sizes = sizes_of;
      }

module _ (f : Float) (go : Strconv f.F) (host : Host f.F) (form : Form) where
  unfoldable pub save_provider : Settings f.F → Settings f.F
  save_provider s =
      let provider = selected form si_provider in
      if provider == "auto"
      then s
      else set_flag (set_text s "InfraProvider" provider) "InfraProviderDefaulted" false

  unfoldable pub save_mirrors : Settings f.F → Settings f.F
  unfolding run_saves
  save_mirrors s = if s.flags "Airgapped" then run_saves f go form mirror_saves s else s

  abbrev pub usd : Option f.F → f.F → f.F
  usd none x = x
  usd (some u) x = u

  abbrev pub budget_set : Option f.F → Settings f.F → Settings f.F
  budget_set none s = s
  budget_set (some x) s =
      if f.lt (f.lit 0 1) x then set_float s "BudgetUSDMonth" (usd (host.from_taller x) x) else s

  unfoldable pub save_budget : Settings f.F → Settings f.F
  save_budget s = budget_set (go.parse_float (trimmed form ti_budget)) s

  -- From the names to the budget.
  unfoldable pub save_inputs : Settings f.F → Settings f.F
  unfolding run_saves save_provider save_mirrors save_budget
  save_inputs s =
      let placed = save_provider (run_saves f go form name_saves s) in
      let mirrored = save_mirrors (run_saves f go form connection_saves placed) in
      let installed = run_saves f go form platform_saves mirrored in
      let argocd = run_saves f go form argocd_saves installed in
      let counted =
        set_text argocd "ControlPlaneMachineCount" (replicas_of (selected form si_resil)) in
      save_budget (run_saves f go form setting_saves counted)

  unfoldable pub save_shape : WorkloadShape → Settings f.F → Settings f.F
  unfolding workers sync_workload_shape_to_cfg
  save_shape w s =
      let committed = set_flag s "Capacity.AllowOvercommit" (form.toggles toi_overcommit) in
      let staffed = set_text committed "WorkerMachineCount" (int_text (workers w.apps)) in
      sync_workload_shape_to_cfg w go.to_lower (resilience_of (selected form si_resil))
        (selected form si_env) (fork_of form) staffed

  unfoldable pub build_snapshot_cfg : Settings f.F → Settings f.F
  unfolding save_inputs save_shape shape_of disable_providers_missing_credentials
  build_snapshot_cfg s =
      disable_providers_missing_credentials host
        (save_shape (shape_of form go.to_lower) (save_inputs s))
