-- ===== src/Settings.antt =====
-- internal/config/config.go: Config as a store of its fields, for the code that reads and writes
-- them by a table: the flags, the printed command, the environment and the snapshot. A field goes
-- by its Go path, such as "Providers.Proxmox.URL", in the map of its type. `Strconv` has what that
-- code calls of Go's packages strings and strconv and that depends on tables of Unicode or on the
-- printing of floats.
pub mod Trim
pub mod Itoa
pub mod Join
pub mod Sample
use yage.Prelude.{String, Bool, ℤ, List, Option, ◌==◌, if◌then◌else◌}
use yage.Config.{AppGroup}

pub record Settings (F : Type 0) : Type 0 where
  pub texts : String → String
  pub flags : String → Bool
  pub ints : String → ℤ
  pub floats : String → F
  pub drivers : List String
  -- Workload.Apps
  pub apps : List AppGroup

abbrev pub update : {A : Type 0} → (String → A) → String → A → String → A
update m field value other = if field == other then value else m other

module _ {F : Type 0} where
  abbrev pub set_text : Settings F → String → String → Settings F
  set_text s field v = record s { texts = update s.texts field v }

  abbrev pub set_flag : Settings F → String → Bool → Settings F
  set_flag s field v = record s { flags = update s.flags field v }

  abbrev pub set_int : Settings F → String → ℤ → Settings F
  set_int s field v = record s { ints = update s.ints field v }

  abbrev pub set_float : Settings F → String → F → Settings F
  set_float s field v = record s { floats = update s.floats field v }

pub record Strconv (F : Type 0) : Type 0 where
  pub to_lower : String → String
  pub to_upper : String → String
  pub parse_float : String → Option F
  -- `FormatFloat(x, 'f', -1, 64)`
  pub format_float : F → String
