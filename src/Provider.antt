-- ===== src/Provider.antt =====
-- internal/provider: the registry of factories (provider.go), what may run without the internet
-- (airgap.go). A factory makes a provider, a value of `P`. The locks make each call atomic.
pub mod Airgap
mod Examples
use yage.Prelude.{
  String, Bool, true, false, not, ◌&&◌, ◌||◌, Option, none, some, List, [], ◌∷◌, Map, lookup,
  insert, contains, ◌==◌, if◌then◌else◌,
}
use yage.Prelude.Sorted.{sort}
use yage.Config.{Config}

pub data ProviderError : Type 0 where
  not_registered : String → List String → ProviderError
  err_airgapped : String → ProviderError
  empty_name : ProviderError

pub data Result (A : Type 0) : Type 0 where
  ok : A → Result A
  err : ProviderError → Result A

abbrev pub Factory : Type 0 → Type 0
Factory P = Unit → P

-- `none` is the panic on a name that is registered already.
module _ {P : Type 0} where
  pub register : Map (Factory P) → String → Factory P → Option (Map (Factory P))
  register providers name factory = elim (lookup name providers) [
    | some _ ↦ none
    | none ↦ some (insert name factory providers)
  ]

  names : Map (Factory P) → List String
  names [] = []
  names ((n, _) ∷ m) = n ∷ names m

  pub registered : Map (Factory P) → List String
  unfolding names
  registered providers = sort (names providers)

  pub found_or : String → List String → Option (Factory P) → Result P
  found_or n have (some factory) = ok (factory tt)
  found_or n have none = err (not_registered n have)

  pub get : Map (Factory P) → String → Result P
  unfolding registered found_or
  get providers n = found_or n (registered providers) (lookup n providers)

abbrev pub on_prem_providers : List String
on_prem_providers = "proxmox" ∷ "openstack" ∷ "vsphere" ∷ "docker" ∷ []

pub airgap_compatible : String → Bool
airgap_compatible name = contains on_prem_providers name

module _ {P : Type 0} (providers : Map (Factory P)) where
  pub airgap_aware_for_name : String → (airgapped : Bool) → Result P
  unfolding airgap_compatible get
  airgap_aware_for_name name airgapped =
      if airgapped && not (airgap_compatible name)
      then err (err_airgapped name)
      else get providers name

  -- For
  pub for_config : {F : Type 0} → Config F → Result P
  unfolding airgap_aware_for_name
  for_config cfg =
      if cfg.infra_provider == ""
      then err empty_name
      else airgap_aware_for_name cfg.infra_provider cfg.airgapped

compatible_of : List String → List String
unfolding airgap_compatible
compatible_of [] = []
compatible_of (n ∷ ns) = let out = compatible_of ns in if airgap_compatible n then n ∷ out else out

pub airgap_filter : List String → (airgapped : Bool) → List String
unfolding compatible_of
airgap_filter names airgapped = if airgapped then compatible_of names else names
