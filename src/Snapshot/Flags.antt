-- ===== src/Snapshot/Flags.antt =====
-- The flags of the command line that a snapshot overrides.
use yage.Prelude.{
  String, false, none, some, List, [], ◌∷◌, ◌==◌, eq_refl, if◌then◌else◌, lookup, ◌≡◌, refl, ◌∙◌,
  ap, All, Bool-cases, inl, inr,
}
use yage.Float.{Float}
use yage.Settings.{Settings, Strconv, set_text}
use yage.Cli.Steps.{ok, take, as_is, transform}
use yage.Cli.Flags.{cases}
use yage.Cli.Parse.{find_case, parse, parse_loop}
use yage.Cli.Assign.{assign, parse-value}
use yage.Snapshot.{is_explicit, apply_snapshot_kv, find_field}
use yage.Snapshot.Field.{guarded, text}
use yage.Snapshot.Schema.{schema}
use yage.Snapshot.Overlay.{overlaid}
use yage.Snapshot.Merge.{apply_snapshot_kv-held}

-- A flag, its field, and the field's environment name and guard in the schema.
pub record Overridden : Type 0 where
  pub flag : String
  pub field : String
  pub env_name : String
  pub guard : String

abbrev row : String → String → String → String → Overridden
row flag field env_name guard = record {
  flag = flag;
  field = field;
  env_name = env_name;
  guard = guard;
}

-- The flags whose fields have a guard that Parse does not set.
abbrev pub overridden_flags : List Overridden
overridden_flags =
    row "--workload-k8s-version" "WorkloadKubernetesVersion" "WORKLOAD_KUBERNETES_VERSION"
      "WORKLOAD_KUBERNETES_VERSION_EXPLICIT"
    ∷ row "--mgmt-k8s-version" "Mgmt.KubernetesVersion" "MGMT_KUBERNETES_VERSION"
        "MGMT_KUBERNETES_VERSION_EXPLICIT"
    ∷ row "--mgmt-cluster-name" "Mgmt.ClusterName" "MGMT_CLUSTER_NAME" "MGMT_CLUSTER_NAME_EXPLICIT"
    ∷ row "--mgmt-cluster-namespace" "Mgmt.ClusterNamespace" "MGMT_CLUSTER_NAMESPACE"
        "MGMT_CLUSTER_NAMESPACE_EXPLICIT"
    ∷ row "--proxmox-pool" "Providers.Proxmox.Pool" "PROXMOX_POOL" "PROXMOX_POOL_EXPLICIT"
    ∷ row "--mgmt-proxmox-pool" "Providers.Proxmox.Mgmt.Pool" "MGMT_PROXMOX_POOL"
        "MGMT_PROXMOX_POOL_EXPLICIT"
    ∷ []

abbrev pub IsOverridden :
    (f : Float) → Strconv f.F → Settings f.F → String → String → Overridden → Type 0
IsOverridden f go s v w r =
    (is_explicit s r.guard ≡ false)
    → (t : Settings f.F) × (parse f go cases s (r.flag ∷ v ∷ []) ≡ some (ok t))
      × (t.texts r.field ≡ v)
      × ((apply_snapshot_kv go.to_lower schema ((r.env_name, w) ∷ []) t).texts r.field ≡ w)

module _ (f : Float) (go : Strconv f.F) (s : Settings f.F) (v w : String)
    (filled : (w == "") ≡ false) where
  taken :
      (r : Overridden) (old : String)
      → is_explicit s r.guard ≡ false
      → overlaid go.to_lower
          (set_text s r.field v)
          (guarded r.env_name r.guard (text r.field))
          (some w)
          old
        ≡ w
  unfolding is_explicit
  taken r old free = elim (Bool-cases (r.guard == "")) [
    | inl e ↦ rw (filled, e) refl
    | inr e ↦ rw (filled, e, free) refl
  ]

  row-IsOverridden :
      (r : Overridden)
      → find_case cases r.flag ≡ some (take r.field as_is ∷ [])
      → find_field schema r.env_name ≡ some (guarded r.env_name r.guard (text r.field))
      → IsOverridden f go s v w r
  unfolding assign parse parse_loop transform lookup
  row-IsOverridden r known found free = (
    set_text s r.field v,
    parse-value f go cases r.flag v (take r.field as_is ∷ []) s [] known refl,
    ap (λ b. if b then v else s.texts r.field) (eq_refl r.field),
    apply_snapshot_kv-held go.to_lower (set_text s r.field v) ((r.env_name, w) ∷ []) r.env_name
          (guarded r.env_name r.guard (text r.field)) (refl, tt) found
        ∙ ap
            (λ b.
              overlaid go.to_lower (set_text s r.field v)
                (guarded r.env_name r.guard (text r.field)) (if b then some w else none)
                (if r.field == r.field then v else s.texts r.field))
            (eq_refl r.env_name)
        ∙ taken r (if r.field == r.field then v else s.texts r.field) free,
  )

  -- For each of these flags, in settings where the field is not explicit: Parse accepts the flag and
  -- stores its value, and a snapshot with a value for the field then takes its place.
  pub apply_snapshot_kv-overrides : All (IsOverridden f go s v w) overridden_flags
  unfolding find_case find_field
  apply_snapshot_kv-overrides = (
    row-IsOverridden _ refl refl,
    (
      row-IsOverridden _ refl refl,
      (
        row-IsOverridden _ refl refl,
        (
          row-IsOverridden _ refl refl,
          (row-IsOverridden _ refl refl, (row-IsOverridden _ refl refl, tt)),
        ),
      ),
    ),
  )
