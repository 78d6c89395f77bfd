-- ===== src/Feasibility.antt =====
-- internal/feasibility/templates.go and the projection of feasibility.go: from the workload that
-- the user states to the cores, memory and nodes that it needs at least.
pub mod Verdict
pub mod Price
pub mod Cloud
pub mod OnPrem
pub mod Sizing
mod Examples
use Prim.Native.Char.{code}
use Prim.Native.String
use yage.Prelude.{
  ℕ, zero, suc, ◌+◌, ◌-◌, ◌/◌, String, Bool, true, false, not, ◌&&◌, ◌||◌, Option, none, some, List,
  [], ◌∷◌, ◌==◌, ℤ, pos, negsuc, pos_part, leb_ℤ, ltb_ℤ, add64, mul64, div64, leb, if◌then◌else◌,
}
use yage.Text.{codes, is_digit}
use yage.Config.{Config, AppGroup}
use yage.Float.{Float}

pub record Template : Type 0 where
  pub name : String
  pub cores_milli : ℤ
  pub mem_mib : ℤ

abbrev pub template_light : Template
template_light = record { name = "light"; cores_milli = pos 100; mem_mib = pos 128 }

abbrev pub template_medium : Template
template_medium = record { name = "medium"; cores_milli = pos 200; mem_mib = pos 256 }

abbrev pub template_heavy : Template
template_heavy = record { name = "heavy"; cores_milli = pos 500; mem_mib = pos 1024 }

unfoldable pub template_of : AppGroup → Template
template_of g =
    if g.template == "light"
    then template_light
    else if g.template == "heavy"
    then template_heavy
    else if g.template == "custom"
    then record {
      name = "custom";
      cores_milli =
          if leb_ℤ g.custom_cores (pos 0) then template_medium.cores_milli else g.custom_cores;
      mem_mib =
          if leb_ℤ g.custom_mem_mib (pos 0) then template_medium.mem_mib else g.custom_mem_mib;
    }
    else template_medium

abbrev pub system_cores_milli : ℤ
system_cores_milli = pos 2000

abbrev pub system_mem_mib : ℤ
system_mem_mib = pos 4096

unfoldable pub cp_nodes_for : String → ℤ
cp_nodes_for resilience =
    if resilience == "ha" then pos 3 else if resilience == "ha-mr" then pos 3 else pos 1

-- Cores in thousandths, and memory in MiB.
unfoldable pub db_resources_for : ℤ → ℤ × ℤ
db_resources_for db_gb =
    if leb_ℤ db_gb (pos 0)
    then (pos 0, pos 0)
    else let fifties = div64 db_gb (pos 50) in
      let cores = if ltb_ℤ fifties (pos 2) then pos 2 else fifties in
      let hundreds = mul64 db_gb (pos 100) in
      let mem = if ltb_ℤ hundreds (pos 2048) then pos 2048 else hundreds in
      (mul64 cores (pos 1000), mem)

-- The loop of appResourcesFor, from the sums so far.
pub app_resources_from : ℤ → ℤ → List AppGroup → ℤ × ℤ
app_resources_from cores mem [] = (cores, mem)
app_resources_from cores mem (g ∷ gs) =
    let skip = leb_ℤ g.count (pos 0) in
    let t = template_of g in
    app_resources_from (if skip then cores else add64 cores (mul64 g.count t.cores_milli))
      (if skip then mem else add64 mem (mul64 g.count t.mem_mib)) gs

unfoldable pub app_resources_for : List AppGroup → ℤ × ℤ
unfolding app_resources_from
app_resources_for = app_resources_from (pos 0) (pos 0)

pub record Shape : Type 0 where
  pub required_cores : ℤ
  pub required_mem : ℤ
  pub cp_nodes : ℤ
  pub db_gb : ℤ
  pub egress_gb : ℤ
  pub resilience : String
  pub environment : String
  pub has_db : Bool
  pub has_apps : Bool

unfoldable pub has_apps : List AppGroup → Bool
has_apps [] = false
has_apps (g ∷ gs) = ltb_ℤ (pos 0) g.count || has_apps gs

module _ (f : Float) where
  -- SchedulingFragmentationFactor is 1.33.
  pub required : ℤ → ℤ
  required n = f.ceil (f.mul (f.of_int n) (f.lit 133 100))

  -- `none` is ErrNotApplicable.
  unfoldable pub project_shape : Config f.F → Option Shape
  unfolding required
  project_shape cfg =
      let w = cfg.workload in
      let apps = has_apps w.apps in
      let db = ltb_ℤ (pos 0) w.database_gb in
      if not apps && not db
      then none
      else let (app_cores, app_mem) = app_resources_for w.apps in
        let (db_cores, db_mem) = db_resources_for w.database_gb in
        some (record {
          required_cores = required (add64 (add64 app_cores db_cores) system_cores_milli);
          required_mem = required (add64 (add64 app_mem db_mem) system_mem_mib);
          cp_nodes = cp_nodes_for w.resilience;
          db_gb = w.database_gb;
          egress_gb = w.egress_gb_month;
          resilience = w.resilience;
          environment = w.environment;
          has_db = db;
          has_apps = apps;
        })

unfoldable pub ceil_div : ℤ → ℤ → ℤ
ceil_div a b = if leb_ℤ b (pos 0) then pos 0 else div64 (add64 (add64 a b) (negsuc 0)) b

-- The number of nodes of the given cores (in thousandths) and memory that hold the shape.
unfoldable pub workers_for : Shape → ℤ → ℤ → ℤ
unfolding ceil_div
workers_for sh cores_milli mem_mib =
    let w_cores = ceil_div sh.required_cores cores_milli in
    let w_mem = ceil_div sh.required_mem mem_mib in
    let workers = if ltb_ℤ w_cores w_mem then w_mem else w_cores in
    if ltb_ℤ workers (pos 1) then pos 1 else workers

atoi_digits : ℤ → List ℕ → ℤ → ℤ
atoi_digits n [] def = n
atoi_digits n (c ∷ cs) def =
    if is_digit c then atoi_digits (add64 (mul64 n (pos 10)) (pos (c - b'0'))) cs def else def

-- The package's own atoiOr, which reads digits alone and wraps around.
unfoldable pub atoi_or : String → ℤ → ℤ
unfolding atoi_digits
atoi_or s def = elim (codes s) [ [] ↦ def | c ∷ cs ↦ atoi_digits (pos 0) (c ∷ cs) def ]
