-- ===== src/Snapshot/Examples.antt =====
-- Snapshots at concrete configurations.
use yage.Prelude.{
  true, ℕ, ◌^◌, ◌<◌, String, false, Option, none, some, [], ◌∷◌, pos, ◌==◌, if◌then◌else◌, Map,
  lookup, ◌≡◌, refl, ap, arith, Bool-cases, inl, inr, All, eq_iff,
}
use yage.Float.Thousandths.{thousandths}
use yage.Settings.Sample.{strconv, blank, lab}
use yage.Snapshot.{explicit_fields, flag_of, find_field, is_explicit, apply_snapshot_kv}
use yage.Snapshot.Field.{SnapshotField, field, guarded, text}
use yage.Snapshot.Schema.{schema}
use yage.Snapshot.Overlay.{overlaid, IsDistinct}
use yage.Snapshot.Merge.{apply_snapshot_kv-held, apply_snapshot_kv-order, restored}
use yage.Settings.Join.{lacks}
use yage.Settings.Trim.{trim_space}
use yage.Snapshot.Apps.{print_apps}
use yage.Snapshot.Yaml.{parse_flat_yaml_or_json, snapshot_yaml}
use yage.Snapshot.Restore.{apply_snapshot_kv-snapshot_yaml}
use yage.Snapshot.Sample.{json, json-IsJson}
use yage.Snapshot.Flags.{overridden_flags, IsOverridden, apply_snapshot_kv-overrides}

abbrev lower : String → String
lower = strconv.to_lower

abbrev gateway_field : SnapshotField
gateway_field = guarded "GATEWAY" "GATEWAY_EXPLICIT" (text "Gateway")

gateway_found : find_field schema "GATEWAY" ≡ some gateway_field
unfolding find_field
gateway_found = refl

abbrev pairs : Map String
pairs = ("GATEWAY", "10.0.0.1") ∷ ("OTHER", "x") ∷ []

abbrev turned : Map String
turned = ("OTHER", "x") ∷ ("GATEWAY", "10.0.0.1") ∷ []

pairs-IsDistinct : IsDistinct pairs
unfolding lookup
pairs-IsDistinct = (refl, (refl, tt))

turned-IsDistinct : IsDistinct turned
unfolding lookup
turned-IsDistinct = (refl, (refl, tt))

same_lookup : (k : String) → lookup k pairs ≡ lookup k turned
unfolding lookup
same_lookup k = elim (Bool-cases ("GATEWAY" == k)) [
  | inl e ↦ rw (← (eq_iff "GATEWAY" k).0 e) refl
  | inr e ↦ rw e refl
]

apply_snapshot_kv-held_example :
    (apply_snapshot_kv lower schema pairs blank).texts "Gateway"
    ≡ overlaid lower blank gateway_field (lookup "GATEWAY" pairs) ""
apply_snapshot_kv-held_example =
    apply_snapshot_kv-held lower blank pairs "GATEWAY" gateway_field pairs-IsDistinct gateway_found

apply_snapshot_kv-order_example :
    (apply_snapshot_kv lower schema pairs blank).texts "Gateway"
    ≡ (apply_snapshot_kv lower schema turned blank).texts "Gateway"
apply_snapshot_kv-order_example =
    apply_snapshot_kv-order lower blank pairs turned "GATEWAY" gateway_field pairs-IsDistinct
      turned-IsDistinct same_lookup gateway_found

abbrev url_field : SnapshotField
url_field = field "PROXMOX_URL" (text "Providers.Proxmox.URL")

url_found : find_field schema "PROXMOX_URL" ≡ some url_field
unfolding find_field
url_found = refl

lab_ints : (g : String) (n : ℕ) → lab.ints g ≡ pos n → n < 2 ^ 63
lab_ints g n h = elim (Bool-cases ("PostgresMemoryMiBOverride" == g)) [
  | inl e ↦
      let at : n ≡ 512 = cc (h, e, ap (λ b. if b then pos 512 else pos 0) e) in omega (arith, at)
  | inr e ↦
      let at : n ≡ 0 = cc (h, e, ap (λ b. if b then pos 512 else pos 0) e) in omega (arith, at)
]

blank_free : (name : String) → is_explicit blank name ≡ false
unfolding is_explicit
blank_free name = free (lookup name explicit_fields)
  where
    free : (o : Option String) → flag_of blank o ≡ false
    free none = refl
    free (some g) = refl

lab_lacks : (g : String) → lacks b'#' (lab.texts g) ≡ true
lab_lacks g = elim (Bool-cases ("Providers.Proxmox.AdminToken" == g)) [
  | inl e ↦ rw e refl
  | inr e ↦ elim (Bool-cases ("Providers.Proxmox.URL" == g)) [
    | inl k ↦ rw (e, k) refl
    | inr k ↦ elim (Bool-cases ("InfraProvider" == g)) [
      | inl m ↦ rw (e, k, m) refl
      | inr m ↦ rw (e, k, m) refl
    ]
  ]
]

apply_snapshot_kv-snapshot_yaml_example :
    let kv = parse_flat_yaml_or_json json (snapshot_yaml json schema lab) in
    (apply_snapshot_kv lower schema kv blank).texts "Providers.Proxmox.URL"
    ≡ restored lower (text "Providers.Proxmox.URL") lab ""
unfolding print_apps
apply_snapshot_kv-snapshot_yaml_example =
    apply_snapshot_kv-snapshot_yaml json lower lab blank "PROXMOX_URL" url_field json-IsJson refl
      refl lab_lacks refl lab_ints blank_free url_found

-- A value with a number sign is cut in the middle of its quotes.
number_sign_cut : parse_flat_yaml_or_json json "GATEWAY: \"10#1\"\n" ≡ ("GATEWAY", "\"10") ∷ []
unfolding parse_flat_yaml_or_json lookup trim_space
number_sign_cut = refl

apply_snapshot_kv-overrides_example :
    All (IsOverridden thousandths strconv blank "v1.36.0" "v1.35.0") overridden_flags
apply_snapshot_kv-overrides_example =
    apply_snapshot_kv-overrides thousandths strconv blank "v1.36.0" "v1.35.0" refl
