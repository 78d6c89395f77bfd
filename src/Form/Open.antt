-- ===== src/Form/Open.antt =====
-- internal/ui/xapiri/dashboard.go, state.go, shared.go: newDashModel on a configuration.
use yage.Prelude.{
  ℕ, String, Bool, true, false, not, ◌&&◌, ◌||◌, Option, none, some, List, [], ◌∷◌, map, ℤ, pos,
  negsuc, eqb, ◌==◌, if◌then◌else◌,
}
use yage.Config.{AppGroup}
use yage.Float.{Float}
use yage.Settings.{Settings}
use yage.Settings.Trim.{trim_space}
use yage.Snapshot.Apps.{int_text}
use yage.Provider.{airgap_compatible}
use yage.Dash.{SelectState}
use yage.Dash.Providers.{provider_list_for_mode, place_from}
use yage.Dash.Fields.Options.{si_mode, si_env, si_resil, si_bootstrap, si_provider}
use yage.Form.{
  Form, Host, Seed, seed_text, seed_default, seed_apps, seed_dbgb, seed_egress, seed_size,
  seed_number, seed_budget, seed_headroom, Toggle, turned, queue_on, obj_store_on, cache_on,
  has_costs,
}
use yage.Form.Seeds.{input_seeds, toggle_seeds}
use yage.Form.Shape.{
  ForkType, fork_unknown, fork_on_prem, fork_cloud, AppBucket, WorkloadShape, format_app_buckets,
  int_to_str_or_empty, override_field,
}

-- The fields of `state` that the inputs start from.
pub record State (F : Type 0) : Type 0 where
  pub fork : ForkType
  pub env : String
  pub resil : String
  pub workload : WorkloadShape
  pub headroom_pct : F

abbrev pub fork_for : Bool → ForkType
fork_for on_prem = if on_prem then fork_on_prem else fork_cloud

module _ {F : Type 0} (host : Host F) (cfg : Settings F) where
  unfoldable pub detect_fork : ForkType
  detect_fork =
      let provider = cfg.texts "InfraProvider" in
      let cloud =
        not (host.getenv "AWS_ACCESS_KEY_ID" == "")
        || not (host.getenv "AZURE_SUBSCRIPTION_ID" == "")
        || not (host.getenv "GOOGLE_APPLICATION_CREDENTIALS" == "") in
      if not (provider == "")
      then fork_for (airgap_compatible provider)
      else if cfg.flags "Airgapped"
      then fork_on_prem
      else if cloud
      then fork_cloud
      else if not (host.getenv "PROXMOX_URL" == "")
      then fork_on_prem
      else fork_unknown

  abbrev known_environment : String → String
  known_environment t = if t == "staging" || t == "prod" || t == "dev" then t else ""

  abbrev known_resilience : String → String
  known_resilience t =
      if t == "ha"
      then "ha"
      else if t == "ha-mr"
      then "ha-multi"
      else if t == "single"
      then "single"
      else ""

  abbrev bucket : AppGroup → AppBucket
  bucket a = record { count = a.count; template = a.template }

  -- newState and initFromConfig; `headroom` is 0.20.
  unfoldable pub init_from_config : (headroom : F) → State F
  unfolding detect_fork
  init_from_config headroom = record {
    fork =
        if cfg.texts "InfraProvider" == ""
        then detect_fork
        else fork_for (airgap_compatible (cfg.texts "InfraProvider"));
    env = known_environment (cfg.texts "Workload.Environment");
    resil = known_resilience (cfg.texts "Workload.Resilience");
    workload = record {
      apps = map bucket cfg.apps;
      dbgb = cfg.ints "Workload.DatabaseGB";
      egress_gb_mo = cfg.ints "Workload.EgressGBMonth";
      has_queue = cfg.flags "Workload.HasQueue";
      has_obj_store = cfg.flags "Workload.HasObjStore";
      has_cache = cfg.flags "Workload.HasCache";
      sizes = λ size. cfg.ints (override_field size);
    };
    headroom_pct = headroom;
  }

unfoldable pub dash_default : (v fallback : String) → String
dash_default v fallback = if trim_space v == "" then fallback else v

abbrev dash_int_or_empty : ℤ → String
dash_int_or_empty (pos n) = if eqb n 0 then "" else int_text (pos n)
dash_int_or_empty (negsuc n) = int_text (negsuc n)

unfoldable pub seed_at : List (ℕ × Seed) → ℕ → Option Seed
seed_at [] i = none
seed_at ((j, seed) ∷ rest) i = let later = seed_at rest i in if eqb j i then some seed else later

unfoldable pub toggle_at : List (ℕ × Toggle) → ℕ → Option Toggle
toggle_at [] i = none
toggle_at ((j, t) ∷ rest) i = let later = toggle_at rest i in if eqb j i then some t else later

module _ (f : Float) (host : Host f.F) (cfg : Settings f.F) (s : State f.F) where
  -- x != 0
  abbrev is_set : f.F → Bool
  is_set x = not (f.le x (f.lit 0 1) && f.le (f.lit 0 1) x)

  abbrev budget_text : Option f.F → f.F → String
  budget_text none x = host.format_fixed x 2
  budget_text (some v) x = host.format_fixed v 2

  unfoldable pub seed_value : Seed → String
  unfolding dash_default format_app_buckets int_to_str_or_empty
  seed_value (seed_text field) = cfg.texts field
  seed_value (seed_default field fallback) = dash_default (cfg.texts field) fallback
  seed_value (seed_apps fallback) = dash_default (format_app_buckets s.workload.apps) fallback
  seed_value seed_dbgb = dash_int_or_empty s.workload.dbgb
  seed_value seed_egress = dash_int_or_empty s.workload.egress_gb_mo
  seed_value (seed_size size fallback) = int_to_str_or_empty (s.workload.sizes size) fallback
  seed_value (seed_number field decimals) =
      if is_set (cfg.floats field) then host.format_fixed (cfg.floats field) decimals else ""
  seed_value seed_budget =
      let x = cfg.floats "BudgetUSDMonth" in
      if f.lt (f.lit 0 1) x then budget_text (host.to_taller x) x else ""
  seed_value seed_headroom =
      let percent =
        if f.lt (f.lit 0 1) s.headroom_pct
        then f.mul s.headroom_pct (f.lit 100 1)
        else f.lit 20 1 in
      host.format_fixed percent 0

  unfoldable pub toggle_value : Toggle → Bool
  toggle_value (turned field) = cfg.flags field
  toggle_value queue_on = s.workload.has_queue
  toggle_value obj_store_on = s.workload.has_obj_store
  toggle_value cache_on = s.workload.has_cache
  toggle_value has_costs =
      is_set (cfg.floats "HardwareCostUSD")
      || is_set (cfg.floats "HardwareWatts")
      || is_set (cfg.floats "HardwareKWHRateUSD")
      || is_set (cfg.floats "HardwareSupportUSDMonth")

  abbrev select_of : List String → ℕ → SelectState
  select_of options cur = record { options = options; cur = cur }

  abbrev is_on_prem : ForkType → Bool
  is_on_prem fork_on_prem = true
  is_on_prem _ = false

  unfoldable pub select_value : (registered : List String) → ℕ → SelectState
  select_value registered i =
      let on_prem = is_on_prem s.fork in
      let mode = if on_prem then "on-prem" else "cloud" in
      let providers = provider_list_for_mode registered mode in
      if eqb i si_mode
      then select_of ("cloud" ∷ "on-prem" ∷ []) (if on_prem then 1 else 0)
      else if eqb i si_env
      then select_of ("dev" ∷ "staging" ∷ "prod" ∷ [])
          (if s.env == "dev" then 0 else if s.env == "prod" then 2 else 1)
      else if eqb i si_resil
      then select_of ("single-az" ∷ "ha" ∷ "ha-multi-region" ∷ [])
          (if s.resil == "ha" then 1 else if s.resil == "ha-multi" then 2 else 0)
      else if eqb i si_bootstrap
      then select_of ("kubeadm" ∷ "k3s" ∷ []) (if cfg.texts "BootstrapMode" == "k3s" then 1 else 0)
      else if eqb i si_provider
      then select_of providers (place_from 0 (cfg.texts "InfraProvider") providers)
      else select_of ("harbor" ∷ "zot" ∷ []) (if cfg.texts "RegistryFlavor" == "zot" then 1 else 0)

  unfoldable pub text_for : Option Seed → String
  unfolding seed_value
  text_for none = ""
  text_for (some seed) = seed_value seed

  unfoldable pub toggle_for : Option Toggle → Bool
  unfolding toggle_value
  toggle_for none = false
  toggle_for (some t) = toggle_value t

  unfoldable pub new_dash_model : (registered : List String) → Form
  unfolding seed_at toggle_at text_for toggle_for select_value
  new_dash_model registered = record {
    texts = λ i. host.input_value (text_for (seed_at input_seeds i));
    selects = select_value registered;
    toggles = λ i. toggle_for (toggle_at toggle_seeds i);
  }
