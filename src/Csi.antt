-- ===== src/Csi.antt =====
-- internal/csi: the registry of drivers (driver.go), the default drivers of a provider (defaults.go)
-- and which drivers a configuration selects (csi.go). A driver is a value of `D`, known by its name
-- and by `same`, Go's equality of interface values; the locks make each call atomic.
pub mod Registry
pub mod Selection
mod Examples
use yage.Prelude.{
  String, Bool, true, false, Option, none, some, List, [], ◌∷◌, ◌++◌, Map, lookup, insert, contains,
  ◌==◌, if◌then◌else◌,
}
use yage.Prelude.Sorted.{sort}
use yage.Config.{Config}

-- What Register does: it returns, with the registry, or it panics.
pub data Outcome (A : Type 0) : Type 0 where
  returned : A → Outcome A
  nil_driver : Outcome A
  duplicate : String → Outcome A

-- fmt.Errorf of Get: the name that is wanted and those there are.
pub record NotRegistered : Type 0 where
  pub wanted : String
  pub have : List String

module _ {ℓ} {V : Type ℓ} where
  abbrev pub keys_of : Map V → List String
  keys_of [] = []
  keys_of ((k, _) ∷ m) = k ∷ keys_of m

pub data Lookup (D : Type 0) : Type 0 where
  got : D → Lookup D
  unknown : NotRegistered → Lookup D

module _ {D : Type 0} where
  pub registered : Map D → List String
  registered drivers = sort (keys_of drivers)

  pub found_or : String → List String → Option D → Lookup D
  found_or n have (some d) = got d
  found_or n have none = unknown (record { wanted = n; have = have })

  pub get : Map D → String → Lookup D
  unfolding registered found_or
  get drivers n = found_or n (registered drivers) (lookup n drivers)

  pub add_driver : (D → D → Bool) → Map D → String → D → Option D → Outcome (Map D)
  add_driver same drivers n d (some existing) =
      if same existing d then returned drivers else duplicate n
  add_driver same drivers n d none = returned (insert n d drivers)

  pub register : (D → String) → (D → D → Bool) → Map D → Option D → Outcome (Map D)
  unfolding add_driver
  register name_of same drivers none = nil_driver
  register name_of same drivers (some d) =
      add_driver same drivers (name_of d) d (lookup (name_of d) drivers)

-- The drivers that each provider has by default.
pub defaults_for : String → List String
defaults_for provider =
    if provider == "aws"
    then "aws-ebs" ∷ []
    else if provider == "azure"
    then "azure-disk" ∷ []
    else if provider == "digitalocean"
    then "do-block-storage" ∷ []
    else if provider == "gcp"
    then "gcp-pd" ∷ []
    else if provider == "hetzner"
    then "hcloud-csi" ∷ []
    else if provider == "openstack"
    then "openstack-cinder" ∷ []
    else if provider == "proxmox"
    then "proxmox-csi" ∷ []
    else if provider == "ibmcloud"
    then "ibm-vpc-block" ∷ []
    else if provider == "linode"
    then "linode-block-storage" ∷ []
    else if provider == "oci"
    then "oci-block-storage" ∷ []
    else if provider == "vsphere"
    then "vsphere-csi" ∷ []
    else []

module _ {F : Type 0} where
  pub chosen_names : Config F → List String
  chosen_names cfg = elim cfg.csi_drivers [ [] ↦ defaults_for cfg.infra_provider | n ∷ ns ↦ n ∷ ns ]

module _ {D : Type 0} where
  pub with_found : Lookup D → List D → List D
  with_found (got d) ds = d ∷ ds
  with_found (unknown _) ds = ds

module _ {D : Type 0} (drivers : Map D) where
  -- The loop of Selector, with the names seen so far.
  pub select_from : (seen : List String) → List String → List D
  unfolding get with_found
  select_from seen [] = []
  select_from seen (n ∷ ns) =
      let known = contains seen n in
      let rest = select_from (if known then seen else n ∷ seen) ns in
      if known then rest else with_found (get drivers n) rest

  pub selector : {F : Type 0} → Config F → List D
  unfolding chosen_names select_from
  selector cfg = select_from [] (chosen_names cfg)
