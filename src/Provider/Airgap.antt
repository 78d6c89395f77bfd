-- ===== src/Provider/Airgap.antt =====
-- The airgap rule: the same for one provider and for a list of them.
use yage.Prelude.{
  ap, sym, Bool-cases, String, Bool, true, false, not, ◌&&◌, Option, none, some, List, [], ◌∷◌, Map,
  lookup, contains, ◌==◌, ◌≡◌, refl, arith, inl, inr, filter, ◌↔◌,
}
use yage.Config.{Config}
use yage.Provider.{
  Factory, Result, ok, err, err_airgapped, found_or, registered, get, airgap_compatible,
  airgap_aware_for_name, for_config, compatible_of, airgap_filter, on_prem_providers,
}

module _ {P : Type 0} (providers : Map (Factory P)) where
  get-ok_iff :
      (n : String) (p : P)
      → (get providers n ≡ ok p) ↔ ((f : Factory P) × (lookup n providers ≡ some f) × (f tt ≡ p))
  unfolding get found_or
  get-ok_iff n p = go (lookup n providers)
    where
      go :
          (o : Option (Factory P))
          → (found_or n (registered providers) o ≡ ok p)
            ↔ ((f : Factory P) × (o ≡ some f) × (f tt ≡ p))
      go none = (λ h. absurd (ground (arith, h)), λ (f, h, _). absurd (ground (arith, h)))
      go (some g) = (λ h. (g, refl, cc h), λ (f, h, e). cc (h, e))

  -- For returns a provider exactly when the configuration names one, a factory is registered under
  -- the name and makes that provider, and the name is on the list of on-prem providers or the
  -- configuration is not airgapped.
  pub for_config-ok_iff :
      {F : Type 0} (cfg : Config F) (p : P)
      → (for_config providers cfg ≡ ok p) ↔ (
          ((cfg.infra_provider == "") ≡ false)
          × ((f : Factory P) × (lookup cfg.infra_provider providers ≡ some f) × (f tt ≡ p))
          × (cfg.airgapped && not (contains on_prem_providers cfg.infra_provider) ≡ false))
  unfolding for_config airgap_aware_for_name airgap_compatible
  for_config-ok_iff cfg p =
      let got = get-ok_iff cfg.infra_provider p in
      elim (Bool-cases (cfg.infra_provider == "")) [
        | inl a ↦ rw a (λ h. absurd (ground (arith, h)), λ (h, _, _). absurd (ground (arith, h)))
        | inr a ↦
            elim (Bool-cases
              (cfg.airgapped && not (contains on_prem_providers cfg.infra_provider))) [
                | inl b ↦
                    rw (a, b)
                      (λ h. absurd (ground (arith, h)), λ (_, _, h). absurd (ground (arith, h)))
                | inr b ↦ rw (a, b) (λ h. (refl, got.0 h, refl), λ (_, h, _). got.1 h)
              ]
      ]

-- Whether a result is ErrAirgapped.
abbrev pub is_err_airgapped : {P : Type 0} → Result P → Bool
is_err_airgapped (err (err_airgapped _)) = true
is_err_airgapped _ = false

module _ {P : Type 0} (providers : Map (Factory P)) where
  get-not_airgapped : (n : String) → is_err_airgapped (get providers n) ≡ false
  unfolding get found_or
  get-not_airgapped n = go (lookup n providers)
    where
      go : (o : Option (Factory P)) → is_err_airgapped (found_or n (registered providers) o) ≡ false
      go none = refl
      go (some f) = refl

  keep_all :
      (ns : List String)
      → filter (λ n. not (is_err_airgapped (airgap_aware_for_name providers n false))) ns ≡ ns
  unfolding airgap_aware_for_name
  keep_all [] = refl
  keep_all (n ∷ ns) = rw get-not_airgapped (ap (◌∷◌ n) (keep_all ns))

  compatible_of-filter :
      (ns : List String)
      → compatible_of ns
        ≡ filter (λ n. not (is_err_airgapped (airgap_aware_for_name providers n true))) ns
  unfolding compatible_of airgap_aware_for_name
  compatible_of-filter [] = refl
  compatible_of-filter (n ∷ ns) = elim (Bool-cases (airgap_compatible n)) [
    | inl h ↦ rw (h, get-not_airgapped) (ap (◌∷◌ n) (compatible_of-filter ns))
    | inr h ↦ rw h (compatible_of-filter ns)
  ]

  -- AirgapFilter keeps, in order, exactly the names that AirgapAwareForName does not refuse with
  -- ErrAirgapped, whatever is registered.
  pub airgap_filter-eq :
      (ns : List String) (airgapped : Bool)
      → airgap_filter ns airgapped
        ≡ filter (λ n. not (is_err_airgapped (airgap_aware_for_name providers n airgapped))) ns
  unfolding airgap_filter
  airgap_filter-eq ns true = compatible_of-filter ns
  airgap_filter-eq ns false = sym (keep_all ns)
