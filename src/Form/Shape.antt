-- ===== src/Form/Shape.antt =====
-- internal/ui/xapiri/shared.go, state.go, validate.go: the shape of the workload.
use Prim.Native.Char.{code}
use yage.Prelude.{
  ℕ, String, Bool, ◌&&◌, ◌||◌, Option, none, some, List, [], ◌∷◌, ℤ, pos, leb_ℤ, ltb_ℤ, add64,
  mul64, div64, eqb, ◌==◌, if◌then◌else◌,
}
use yage.Text.{codes, atoi}
use yage.Config.{AppGroup}
use yage.Settings.{Settings, set_text, set_flag, set_int}
use yage.Settings.Trim.{trim_space}
use yage.Settings.Join.{◌<>◌, join}
use yage.Snapshot.Apps.{int_text, fields}
use yage.Form.{
  Size, queue_cpu_milli, queue_mem_mib, queue_vol_gb, obj_store_cpu_milli, obj_store_mem_mib,
  obj_store_vol_gb, cache_cpu_milli, cache_mem_mib,
}

pub data ForkType : Type 0 where
  fork_unknown fork_on_prem fork_cloud : ForkType

pub record AppBucket : Type 0 where
  pub count : ℤ
  pub template : String

pub record WorkloadShape : Type 0 where
  pub apps : List AppBucket
  pub dbgb : ℤ
  pub egress_gb_mo : ℤ
  pub has_queue : Bool
  pub has_obj_store : Bool
  pub has_cache : Bool
  pub sizes : Size → ℤ

-- formatAppBuckets
format_buckets : List AppBucket → List String
format_buckets [] = []
format_buckets (b ∷ rest) = (int_text b.count <> (" " <> b.template)) ∷ format_buckets rest

unfoldable pub format_app_buckets : List AppBucket → String
unfolding format_buckets
format_app_buckets buckets = join (format_buckets buckets) " "

-- The replacer of parseAppBuckets.
separators_cleaned : String → String
separators_cleaned String.[] = ""
separators_cleaned (String.◌∷◌ c s) =
    let rest = separators_cleaned s in
    if eqb (code c) b',' || eqb (code c) 0xd7 || eqb (code c) b'x' || eqb (code c) b'*'
    then String.◌∷◌ " " rest
    else String.◌∷◌ c rest

abbrev pub is_template : String → Bool
is_template t = t == "light" || t == "medium" || t == "heavy"

abbrev bucket_of : Option ℤ → String → List AppBucket → List AppBucket
bucket_of none template later = later
bucket_of (some n) template later =
    if leb_ℤ (pos 0) n && is_template template
    then record { count = n; template = template } ∷ later
    else later

read_buckets : (String → String) → List String → List AppBucket
read_buckets to_lower (a ∷ b ∷ rest) =
    let later = read_buckets to_lower rest in bucket_of (atoi (codes a)) (to_lower b) later
read_buckets to_lower _ = []

unfoldable pub parse_app_buckets : (String → String) → String → List AppBucket
unfolding read_buckets separators_cleaned fields
parse_app_buckets to_lower s = read_buckets to_lower (fields (separators_cleaned s))

abbrev not_negative_or : Option ℤ → ℤ → ℤ
not_negative_or none cur = cur
not_negative_or (some n) cur = if leb_ℤ (pos 0) n then n else cur

unfoldable pub parse_int_or_keep : String → ℤ → ℤ
parse_int_or_keep s cur =
    let t = trim_space s in if t == "" then cur else not_negative_or (atoi (codes t)) cur

unfoldable pub int_to_str_or_empty : ℤ → ℕ → String
int_to_str_or_empty cur fallback =
    if ltb_ℤ (pos 0) cur then int_text cur else int_text (pos fallback)

-- The apps of syncWorkloadShapeToCfg.
unfoldable pub groups : (String → String) → List AppBucket → List AppGroup
groups to_lower [] = []
groups to_lower (b ∷ rest) =
    let later = groups to_lower rest in
    let template = to_lower (trim_space b.template) in
    if ltb_ℤ (pos 0) b.count && is_template template
    then record {
      count = b.count;
      template = template;
      custom_cores = pos 0;
      custom_mem_mib = pos 0;
    }
      ∷ later
    else later

abbrev pub resilience_word : String → String
resilience_word tier =
    if tier == "ha" then "ha" else if tier == "ha-multi" then "ha-mr" else "single"

abbrev pub environment_word : String → String
environment_word tier =
    if tier == "staging" then "staging" else if tier == "prod" then "prod" else "dev"

abbrev pub egress_of : ForkType → (egress dbgb : ℤ) → ℤ
egress_of fork_on_prem egress dbgb =
    if leb_ℤ egress (pos 0) && ltb_ℤ (pos 0) dbgb then mul64 dbgb (pos 2) else egress
egress_of _ egress dbgb = egress

abbrev pub override_field : Size → String
override_field queue_cpu_milli = "MQCPUMillicoresOverride"
override_field queue_mem_mib = "MQMemoryMiBOverride"
override_field queue_vol_gb = "MQVolumeGBOverride"
override_field obj_store_cpu_milli = "ObjStoreCPUMillicoresOverride"
override_field obj_store_mem_mib = "ObjStoreMemoryMiBOverride"
override_field obj_store_vol_gb = "ObjStoreVolumeGBOverride"
override_field cache_cpu_milli = "CacheCPUMillicoresOverride"
override_field cache_mem_mib = "CacheMemoryMiBOverride"

abbrev pub enabled : WorkloadShape → Size → Bool
enabled w cache_cpu_milli = w.has_cache
enabled w cache_mem_mib = w.has_cache
enabled w obj_store_cpu_milli = w.has_obj_store
enabled w obj_store_mem_mib = w.has_obj_store
enabled w obj_store_vol_gb = w.has_obj_store
enabled w _ = w.has_queue

abbrev pub sizes_in_order : List Size
sizes_in_order =
    queue_cpu_milli ∷ queue_mem_mib ∷ queue_vol_gb ∷ obj_store_cpu_milli ∷ obj_store_mem_mib
    ∷ obj_store_vol_gb ∷ cache_cpu_milli ∷ cache_mem_mib ∷ []

module _ {F : Type 0} (w : WorkloadShape) where
  unfoldable pub set_override : Size → Settings F → Settings F
  set_override size s =
      if enabled w size && ltb_ℤ (pos 0) (w.sizes size)
      then set_int s (override_field size) (w.sizes size)
      else s

  unfoldable pub set_overrides : List Size → Settings F → Settings F
  unfolding set_override
  set_overrides [] s = s
  set_overrides (size ∷ rest) s = set_overrides rest (set_override size s)

  unfoldable pub set_workload :
      (String → String) → (resil env : String) → ForkType → Settings F → Settings F
  unfolding groups
  set_workload to_lower resil env fork s =
      let egress = egress_of fork w.egress_gb_mo w.dbgb in
      let a = set_int (set_int s "Workload.DatabaseGB" w.dbgb) "Workload.EgressGBMonth" egress in
      let b = set_text a "Workload.Resilience" (resilience_word resil) in
      let c = set_text b "Workload.Environment" (environment_word env) in
      let d = set_flag c "Workload.HasQueue" w.has_queue in
      let e = set_flag d "Workload.HasObjStore" w.has_obj_store in
      let g = set_flag e "Workload.HasCache" w.has_cache in
      record g { apps = groups to_lower w.apps }

  unfoldable pub sync_workload_shape_to_cfg :
      (String → String) → (resil env : String) → ForkType → Settings F → Settings F
  unfolding set_overrides set_workload
  sync_workload_shape_to_cfg to_lower resil env fork s =
      set_overrides sizes_in_order (set_workload to_lower resil env fork s)

-- The sum of the counts, and the workers for it.
unfoldable pub total_count : ℤ → List AppBucket → ℤ
total_count total [] = total
total_count total (b ∷ rest) = total_count (add64 total b.count) rest

unfoldable pub workers : List AppBucket → ℤ
unfolding total_count
workers apps =
    let w = div64 (total_count (pos 0) apps) (pos 4) in if ltb_ℤ w (pos 1) then pos 1 else w
