-- ===== src/ConfigFile.antt =====
-- internal/config/yaml.go: the configuration file. Its path comes from the arguments or the
-- environment; its keys and values, as the YAML reader gives them, are a list of pairs.
pub mod Path
mod Examples
use Prim.Native.Char.{Char, code}
use yage.Prelude.{
  String, Bool, true, false, ◌&&◌, Option, none, some, List, [], ◌∷◌, eqb, ◌==◌, if◌then◌else◌, Map,
  lookup,
}
use yage.Settings.{Settings, set_text}
use yage.Settings.Trim.{trim_space}
use yage.Load.{Environment, text_or}
use yage.Snapshot.{apply_snapshot_kv}
use yage.Snapshot.Schema.{schema}

-- What follows a prefix: strings.HasPrefix and the slice after it.
unfoldable pub strip_prefix : String → String → Option String
strip_prefix String.[] s = some s
strip_prefix (String.◌∷◌ c p) String.[] = none
strip_prefix (String.◌∷◌ c p) (String.◌∷◌ d s) =
    let rest = strip_prefix p s in if eqb (code c) (code d) then rest else none

abbrev pub with_value : String → List String → Option String
with_value a [] = none
with_value a (v ∷ rest) = if a == "--config" then some v else none

abbrev pub first_some : Option String → Option String → String → String
first_some (some path) _ otherwise = path
first_some none (some path) otherwise = path
first_some none none otherwise = otherwise

unfoldable pub config_file_path : Environment → List String → String
unfolding strip_prefix trim_space
config_file_path env [] = trim_space (text_or (env "YAGE_CONFIG_FILE") "")
config_file_path env (a ∷ rest) =
    first_some (with_value a rest) (strip_prefix "--config=" a) (config_file_path env rest)

pub data Extra : Type 0 where
  always : String → Extra
  when_empty : String → Extra

-- yamlExtras
abbrev pub yaml_extras : Map Extra
yaml_extras =
    ("INFRA_PROVIDER", always "InfraProvider")
    ∷ ("BOOTSTRAP_MODE", always "BootstrapMode")
    ∷ ("PROXMOX_CAPI_TOKEN", always "Providers.Proxmox.CAPIToken")
    ∷ ("PROXMOX_CAPI_SECRET", always "Providers.Proxmox.CAPISecret")
    ∷ ("PROXMOX_TOKEN", when_empty "Providers.Proxmox.CAPIToken")
    ∷ ("PROXMOX_SECRET", when_empty "Providers.Proxmox.CAPISecret")
    ∷ ("PROXMOX_ADMIN_TOKEN", always "Providers.Proxmox.AdminToken")
    ∷ ("PROXMOX_ADMIN_USERNAME", always "Providers.Proxmox.AdminUsername")
    ∷ ("PROXMOX_CSI_TOKEN_ID", always "Providers.Proxmox.CSITokenID")
    ∷ ("PROXMOX_CSI_TOKEN_SECRET", always "Providers.Proxmox.CSITokenSecret")
    ∷ ("PROXMOX_CSI_USER_ID", always "Providers.Proxmox.CSIUserID")
    ∷ ("PROXMOX_CAPI_USER_ID", always "Providers.Proxmox.CAPIUserID")
    ∷ ("HCLOUD_TOKEN", always "Providers.Hetzner.Token")
    ∷ ("VSPHERE_USERNAME", always "Providers.Vsphere.Username")
    ∷ ("VSPHERE_PASSWORD", always "Providers.Vsphere.Password")
    ∷ ("DIGITALOCEAN_TOKEN", always "Cost.Credentials.DigitalOceanToken")
    ∷ ("IBMCLOUD_API_KEY", always "Cost.Credentials.IBMCloudAPIKey")
    ∷ ("GOOGLE_BILLING_API_KEY", always "Cost.Credentials.GCPAPIKey")
    ∷ []

module _ {F : Type 0} where
  abbrev set_extra : Option Extra → String → Settings F → Settings F
  set_extra none v c = c
  set_extra (some (always field)) v c = set_text c field v
  set_extra (some (when_empty field)) v c = if c.texts field == "" then set_text c field v else c

  unfoldable pub set_extras : Map String → Settings F → Settings F
  unfolding lookup
  set_extras [] c = c
  set_extras ((key, v) ∷ kv) c =
      set_extras kv (if v == "" then c else set_extra (lookup key yaml_extras) v c)

  -- ApplyYAMLFile, on a file with these keys and values
  unfoldable pub apply_yaml : (String → String) → Map String → Settings F → Settings F
  unfolding set_extras apply_snapshot_kv
  apply_yaml to_lower kv c = set_extras kv (apply_snapshot_kv to_lower schema kv c)
