-- ===== src/Snapshot.antt =====
-- internal/config/snapshot.go: the fields of a configuration that a snapshot keeps, written to and
-- read from texts by their environment names. The keys of a map come in the order of a list.
pub mod Field
pub mod Apps
pub mod Schema
pub mod Overlay
pub mod Merge
pub mod Flags
pub mod Yaml
pub mod Lines
pub mod Reread
pub mod Restore
pub mod Sample
mod Examples
use yage.Prelude.{
  ℕ, suc, String, Bool, true, false, not, ◌&&◌, ◌||◌, Option, none, some, List, [], ◌∷◌, ℤ, pos,
  negsuc, leb_ℤ, ◌==◌, if◌then◌else◌, Map, lookup,
}
use yage.Text.{codes, atoi}
use yage.Config.{AppGroup}
use yage.Settings.{Settings, set_text, set_flag, set_int}
use yage.Settings.Trim.{trim_space}
use yage.Settings.Itoa.{itoa}
use yage.Snapshot.Field.{FieldKind, text, switch, positive_int, app_groups, SnapshotField}
use yage.Snapshot.Apps.{print_apps, read_apps}

abbrev pub positive_text : ℤ → String
positive_text (pos (suc n)) = itoa (suc n)
positive_text _ = ""

abbrev pub switch_value : String → Option Bool
switch_value v =
    if v == "1" || v == "true" || v == "yes" || v == "y" || v == "on"
    then some true
    else if v == "0" || v == "false" || v == "no" || v == "n" || v == "off"
    then some false
    else none

-- The fields of Config behind the names of explicitSet.
abbrev pub explicit_fields : Map String
explicit_fields =
    ("NODE_IP_RANGES_EXPLICIT", "NodeIPRangesExplicit")
    ∷ ("GATEWAY_EXPLICIT", "GatewayExplicit")
    ∷ ("IP_PREFIX_EXPLICIT", "IPPrefixExplicit")
    ∷ ("DNS_SERVERS_EXPLICIT", "DNSServersExplicit")
    ∷ ("ALLOWED_NODES_EXPLICIT", "AllowedNodesExplicit")
    ∷ ("YAGE_CONFIG_NAME_EXPLICIT", "ConfigNameExplicit")
    ∷ ("WORKLOAD_CLUSTER_NAME_EXPLICIT", "WorkloadClusterNameExplicit")
    ∷ ("WORKLOAD_CLUSTER_NAMESPACE_EXPLICIT", "WorkloadClusterNamespaceExplicit")
    ∷ ("WORKLOAD_KUBERNETES_VERSION_EXPLICIT", "WorkloadKubernetesVersionExplicit")
    ∷ ("MGMT_CLUSTER_NAME_EXPLICIT", "Mgmt.ClusterNameExplicit")
    ∷ ("MGMT_CLUSTER_NAMESPACE_EXPLICIT", "Mgmt.ClusterNamespaceExplicit")
    ∷ ("MGMT_KUBERNETES_VERSION_EXPLICIT", "Mgmt.KubernetesVersionExplicit")
    ∷ ("PROXMOX_POOL_EXPLICIT", "Providers.Proxmox.PoolExplicit")
    ∷ ("MGMT_PROXMOX_POOL_EXPLICIT", "Providers.Proxmox.Mgmt.PoolExplicit")
    ∷ []

abbrev pub found_or : Option SnapshotField → Bool → SnapshotField → Option SnapshotField
found_or (some g) here f = some g
found_or none true f = some f
found_or none false f = none

-- The index of the schema; a later field takes the place of an earlier one with its name.
unfoldable pub find_field : List SnapshotField → String → Option SnapshotField
find_field [] key = none
find_field (f ∷ fs) key = found_or (find_field fs key) (f.env_name == key) f

module _ {F : Type 0} where
  -- Get
  unfoldable pub get : FieldKind → Settings F → String
  unfolding print_apps
  get (text field) c = c.texts field
  get (switch field) c = if c.flags field then "true" else "false"
  get (positive_int field) c = positive_text (c.ints field)
  get app_groups c = print_apps c.apps

  abbrev pub set_switch : String → Option Bool → Settings F → Settings F
  set_switch field none c = c
  set_switch field (some b) c = set_flag c field b

  abbrev pub set_positive : String → Option ℤ → Settings F → Settings F
  set_positive field (some (pos (suc n))) c = set_int c field (pos (suc n))
  set_positive field _ c = c

  -- The names and the texts of the fields that are not empty.
  unfoldable pub snapshot_pairs : List SnapshotField → Settings F → Map String
  unfolding get
  snapshot_pairs [] c = []
  snapshot_pairs (f ∷ fs) c =
      let rest = snapshot_pairs fs c in
      if get f.kind c == "" then rest else (f.env_name, get f.kind c) ∷ rest

  abbrev pub flag_of : Settings F → Option String → Bool
  flag_of c none = false
  flag_of c (some field) = c.flags field

  -- explicitSet, at a name
  unfoldable pub is_explicit : Settings F → String → Bool
  unfolding lookup
  is_explicit c name = flag_of c (lookup name explicit_fields)

module _ {F : Type 0} (to_lower : String → String) where
  -- Set
  unfoldable pub set : FieldKind → String → Settings F → Settings F
  unfolding trim_space read_apps
  set (text field) v c = set_text c field v
  set (switch field) v c = set_switch field (switch_value (to_lower (trim_space v))) c
  set (positive_int field) v c = set_positive field (atoi (codes (trim_space v))) c
  set app_groups v c = record c { apps = read_apps to_lower v c.apps }

  -- A field and the value for it. `start` is the configuration before all of them.
  unfoldable pub overlay : Settings F → Option SnapshotField → String → Settings F → Settings F
  unfolding is_explicit set
  overlay start none v c = c
  overlay start (some f) v c =
      if v == ""
      then c
      else if not (f.explicit_name == "") && is_explicit start f.explicit_name
      then c
      else set f.kind v c

  unfoldable pub overlay_all :
      Settings F → List SnapshotField → Map String → Settings F → Settings F
  unfolding overlay find_field
  overlay_all start fields [] c = c
  overlay_all start fields ((key, v) ∷ kv) c =
      overlay_all start fields kv (overlay start (find_field fields key) v c)

  unfoldable pub apply_snapshot_kv : List SnapshotField → Map String → Settings F → Settings F
  unfolding overlay_all
  apply_snapshot_kv fields kv c = overlay_all c fields kv c
