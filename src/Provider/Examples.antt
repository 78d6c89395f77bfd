-- ===== src/Provider/Examples.antt =====
-- The theorems about providers at concrete inputs: a provider is a number.
use yage.Prelude.{
  ℕ, true, false, not, ◌&&◌, some, [], ◌∷◌, Map, lookup, contains, filter, ◌==◌, ◌≡◌, ◌↔◌,
}
use yage.Config.Sample.{sample}
use yage.Provider.{Factory, for_config, ok, airgap_filter, airgap_aware_for_name, on_prem_providers}
use yage.Provider.Airgap.{for_config-ok_iff, airgap_filter-eq, is_err_airgapped}

abbrev providers : Map (Factory ℕ)
providers = ("aws", λ _. 1) ∷ ("proxmox", λ _. 2) ∷ []

for_config-ok_iff_example : (for_config providers sample ≡ ok 1) ↔ (
    ((sample.infra_provider == "") ≡ false)
    × ((f : Factory ℕ) × (lookup sample.infra_provider providers ≡ some f) × (f tt ≡ 1))
    × (sample.airgapped && not (contains on_prem_providers sample.infra_provider) ≡ false))
for_config-ok_iff_example = for_config-ok_iff providers sample 1

airgap_filter-eq_example :
    airgap_filter ("aws" ∷ "proxmox" ∷ "nowhere" ∷ []) true
    ≡ filter
        (λ n. not (is_err_airgapped (airgap_aware_for_name providers n true)))
        ("aws" ∷ "proxmox" ∷ "nowhere" ∷ [])
airgap_filter-eq_example = airgap_filter-eq providers ("aws" ∷ "proxmox" ∷ "nowhere" ∷ []) true
