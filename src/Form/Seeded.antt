-- ===== src/Form/Seeded.antt =====
-- Which fields come back from the inputs that newDashModel fills.
use yage.Prelude.{
  leb, eqb, not, String, Bool, true, false, ◌&&◌, ◌||◌, Option, some, List, [], ◌∷◌, ◌==◌, contains,
  ◌≡◌, refl,
}
use Prim.Native.Char.{Char, code}
use yage.Form.{
  Host, Seed, seed_text, seed_default, Toggle, turned, Save, save_text, save_default, save_filled,
  save_number, save_toggle, Size, queue_cpu_milli, queue_mem_mib, queue_vol_gb, obj_store_cpu_milli,
  obj_store_mem_mib, obj_store_vol_gb, cache_cpu_milli, cache_mem_mib,
}
use yage.Form.Seeds.{input_seeds, toggle_seeds}
use yage.Form.Open.{seed_at, toggle_at}
use yage.Form.Shape.{override_field}
use yage.Form.Frame.{target}
use yage.Form.Derived.{CoversRest}

-- The fields that buildSnapshotCfg derives from selects or from several inputs, or that it changes
-- in any case.
abbrev pub derived_fields : List String
derived_fields =
    "InfraProvider" ∷ "InfraProviderDefaulted" ∷ "ControlPlaneMachineCount" ∷ "WorkerMachineCount"
    ∷ "BudgetUSDMonth" ∷ "Capacity.AllowOvercommit" ∷ "Workload.DatabaseGB"
    ∷ "Workload.EgressGBMonth" ∷ "Workload.Resilience" ∷ "Workload.Environment"
    ∷ "Workload.HasQueue" ∷ "Workload.HasObjStore" ∷ "Workload.HasCache" ∷ "MQCPUMillicoresOverride"
    ∷ "MQMemoryMiBOverride" ∷ "MQVolumeGBOverride" ∷ "ObjStoreCPUMillicoresOverride"
    ∷ "ObjStoreMemoryMiBOverride" ∷ "ObjStoreVolumeGBOverride" ∷ "CacheCPUMillicoresOverride"
    ∷ "CacheMemoryMiBOverride" ∷ "RegistryFlavor" ∷ "ArgoCD.Enabled" ∷ "ArgoCD.WorkloadEnabled"
    ∷ "BootstrapMode" ∷ "Cost.Currency.DataCenterLocation" ∷ "SkipProviders" ∷ []

unfoldable pub derived : String → Bool
unfolding contains
derived g = contains derived_fields g

-- The fields that newDashModel shows with a fallback.
abbrev pub defaulted_fields : List String
defaulted_fields = "KindClusterName" ∷ "WorkloadKubernetesVersion" ∷ []

unfoldable pub defaulted : String → Bool
unfolding contains
defaulted g = contains defaulted_fields g

pub derived-CoversRest : CoversRest derived
unfolding derived
derived-CoversRest = record {
  provider = refl;
  defaulted = refl;
  planes = refl;
  budget = refl;
  overcommit = refl;
  staff = refl;
  database = refl;
  egress = refl;
  resilience = refl;
  environment = refl;
  queue = refl;
  obj_store = refl;
  cache = refl;
  sizes = override_derived;
}
  where
    override_derived : (size : Size) → derived (override_field size) ≡ true
    override_derived queue_cpu_milli = refl
    override_derived queue_mem_mib = refl
    override_derived queue_vol_gb = refl
    override_derived obj_store_cpu_milli = refl
    override_derived obj_store_mem_mib = refl
    override_derived obj_store_vol_gb = refl
    override_derived cache_cpu_milli = refl
    override_derived cache_mem_mib = refl

-- Whether an input starts with the field that it is saved in.
abbrev pub shows : String → Option Seed → Bool
shows field (some (seed_text other)) = other == field
shows field (some (seed_default other fallback)) = other == field && defaulted other
shows field _ = false

abbrev pub turns_on : String → Option Toggle → Bool
turns_on field (some (turned other)) = other == field
turns_on field _ = false

abbrev pub comes_back : Save → Bool
comes_back (save_text field ti) = shows field (seed_at input_seeds ti)
comes_back (save_default field ti fallback) =
    shows field (seed_at input_seeds ti) && defaulted field
comes_back (save_filled field ti) = shows field (seed_at input_seeds ti)
comes_back (save_number field ti) = true
comes_back (save_toggle field toi) = turns_on field (toggle_at toggle_seeds toi)
comes_back _ = false

abbrev pub all_back : List Save → Bool
all_back [] = true
all_back (x ∷ xs) = let rest = all_back xs in (derived (target x) || comes_back x) && rest

-- A text that a text input keeps: no control character, and not the mark of a broken encoding.
abbrev pub is_printable : Char → Bool
is_printable c =
    leb 0x20 (code c) && not (leb 0x7f (code c) && leb (code c) 0x9f) && not (eqb (code c) 0xfffd)

unfoldable pub is_plain : String → Bool
is_plain String.[] = true
is_plain (String.◌∷◌ c s) = let rest = is_plain s in is_printable c && rest

-- What the code relies on of bubbles: a text input holds a plain text as it was set.
pub record IsInput {F : Type 0} (host : Host F) : Type 0 where
  pub plain_kept : (t : String) → is_plain t ≡ true → host.input_value t ≡ t
