-- ===== src/Form.antt =====
-- internal/ui/xapiri: the inputs of the dashboard, how newDashModel fills them from a configuration,
-- and how buildSnapshotCfg and flushToCfg write them back. A configuration is a store of fields by
-- their Go path. `Host` has what the code takes from the machine: the environment, whether the files
-- of AWS credentials are there, the conversion of currencies by a rate fetched over the network, and
-- the order in which Go visits the keys of a map.
pub mod Saves
pub mod Seeds
pub mod Shape
pub mod Credentials
pub mod Build
pub mod Open
pub mod Flush
pub mod Frame
pub mod Derived
pub mod Seeded
pub mod Shown
pub mod Reopened
pub mod Flushed
pub mod Replicas
pub mod Issuing
pub mod Skips
mod Examples
use yage.Prelude.{ℕ, String, Bool, true, Option, none, some, List, [], ◌∷◌, ℤ, ◌==◌, if◌then◌else◌}
use yage.Float.{Float}
use yage.Settings.{Settings, Strconv, set_text, set_flag, set_float}
use yage.Settings.Trim.{trim_space}
use yage.Dash.{SelectState, value}

pub record Form : Type 0 where
  pub texts : ℕ → String
  pub selects : ℕ → SelectState
  pub toggles : ℕ → Bool

pub record Host (F : Type 0) : Type 0 where
  pub getenv : String → String
  -- ~/.aws/credentials or ~/.aws/config
  pub aws_files : Bool
  -- pricing.ToTaller of dollars and pricing.FromTaller; none is an error
  pub to_taller : F → Option F
  pub from_taller : F → Option F
  -- FormatFloat(x, 'f', n, 64)
  pub format_fixed : F → ℕ → String
  pub visit : List String → List String
  -- Value of a text input of bubbles after SetValue
  pub input_value : String → String

-- The sizes of the add-ons, in workloadShape
pub data Size : Type 0 where
  queue_cpu_milli queue_mem_mib queue_vol_gb : Size
  obj_store_cpu_milli obj_store_mem_mib obj_store_vol_gb : Size
  cache_cpu_milli cache_mem_mib : Size

-- What a text input starts with.
pub data Seed : Type 0 where
  seed_text : String → Seed
  seed_default : String → String → Seed
  seed_apps : String → Seed
  seed_dbgb seed_egress : Seed
  seed_size : Size → ℕ → Seed
  -- a float field that is not 0, with that many decimals
  seed_number : String → ℕ → Seed
  seed_budget seed_headroom : Seed

-- What a toggle starts with.
pub data Toggle : Type 0 where
  turned : String → Toggle
  queue_on obj_store_on cache_on has_costs : Toggle

-- A field that buildSnapshotCfg sets from one input.
pub data Save : Type 0 where
  save_text : String → ℕ → Save
  save_default : String → ℕ → String → Save
  -- only if the input is not blank
  save_filled : String → ℕ → Save
  save_upper : String → ℕ → Save
  save_number : String → ℕ → Save
  save_toggle : String → ℕ → Save
  save_select : String → ℕ → Save
  save_on : String → Save

abbrev pub trimmed : Form → ℕ → String
trimmed form ti = trim_space (form.texts ti)

abbrev pub selected : Form → ℕ → String
selected form si = value (form.selects si)

abbrev pub filled_or : String → String → String
filled_or v old = if v == "" then old else v

module _ (f : Float) (go : Strconv f.F) (form : Form) where
  abbrev pub set_number : String → Option f.F → Settings f.F → Settings f.F
  set_number field none s = s
  set_number field (some x) s = set_float s field x

  unfoldable pub save : Save → Settings f.F → Settings f.F
  save (save_text field ti) s = set_text s field (trimmed form ti)
  save (save_default field ti fallback) s = set_text s field (filled_or (trimmed form ti) fallback)
  save (save_filled field ti) s = set_text s field (filled_or (trimmed form ti) (s.texts field))
  save (save_upper field ti) s = set_text s field (go.to_upper (trimmed form ti))
  save (save_number field ti) s = set_number field (go.parse_float (trimmed form ti)) s
  save (save_toggle field toi) s = set_flag s field (form.toggles toi)
  save (save_select field si) s = set_text s field (selected form si)
  save (save_on field) s = set_flag s field true

  unfoldable pub run_saves : List Save → Settings f.F → Settings f.F
  unfolding save
  run_saves [] s = s
  run_saves (x ∷ xs) s = run_saves xs (save x s)
