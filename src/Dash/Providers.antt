-- ===== src/Dash/Providers.antt =====
-- internal/ui/xapiri/dashboard_focus.go: the providers that fit the mode, and the choice among them.
use yage.Prelude.{
  ℕ, suc, ◌+◌, String, Bool, true, false, not, some, List, [], ◌∷◌, ◌==◌, eqb, if◌then◌else◌,
  get_elem?, contains, ◌≡◌, refl, arith, ap, sym, ◌∙◌, Bool-cases, inl, inr, eq_iff,
}
use yage.Dash.Fields.Options.{si_mode, si_provider}
use yage.Dash.{DashModel, SelectState, value, or_empty}

abbrev pub on_prem_only : List String
on_prem_only = "proxmox" ∷ "vsphere" ∷ "openstack" ∷ "docker" ∷ []

-- Whether a provider fits: both or neither are on-prem.
abbrev pub fits_mode : (on_prem : Bool) → String → Bool
fits_mode true p = contains on_prem_only p
fits_mode false p = not (contains on_prem_only p)

pub fitting : (on_prem : Bool) → List String → List String
fitting on_prem [] = []
fitting on_prem (p ∷ ps) =
    let out = fitting on_prem ps in if fits_mode on_prem p then p ∷ out else out

-- `registered` is what provider.Registered gives.
pub provider_list_for_mode : (registered : List String) → (mode : String) → List String
unfolding fitting
provider_list_for_mode registered mode = "auto" ∷ fitting (mode == "on-prem") registered

-- Where a text stands first, or 0.
pub place_from : ℕ → String → List String → ℕ
place_from i cur [] = 0
place_from i cur (p ∷ ps) = let later = place_from (i + 1) cur ps in if p == cur then i else later

abbrev pub set_select : ℕ → SelectState → (ℕ → SelectState) → ℕ → SelectState
set_select i s selects j = if eqb i j then s else selects j

module _ {R : Type 0} where
  pub rebuild_provider_list : (registered : List String) → DashModel R → DashModel R
  unfolding provider_list_for_mode place_from
  rebuild_provider_list registered m =
      let options = provider_list_for_mode registered (value (m.selects si_mode)) in
      let cur = place_from 0 (value (m.selects si_provider)) options in
      record m {
        selects = set_select si_provider (record { options = options; cur = cur }) m.selects;
        cost_rows = [];
      }

-- The place is that of the text where the text is in the list.
place_from-get_elem? :
    (i : ℕ) (cur : String) (ps : List String)
    → contains ps cur ≡ true
    → (k : ℕ) × (place_from i cur ps ≡ i + k) × (get_elem? ps k ≡ some cur)
unfolding place_from contains
place_from-get_elem? i cur [] h = absurd (ground (arith, h))
place_from-get_elem? i cur (p ∷ ps) h = elim (Bool-cases (p == cur)) [
  | inl e ↦ rw e (0, omega arith, ap some (ground (arith, eq_iff p cur, e)))
  | inr e ↦
      let rest : contains ps cur ≡ true = ground (arith, h, e) in
      let (k, at, found) = place_from-get_elem? (i + 1) cur ps rest in
      rw e (suc k, omega (arith, at), found)
]

place_from-missing :
    (i : ℕ) (cur : String) (ps : List String) → contains ps cur ≡ false → place_from i cur ps ≡ 0
unfolding place_from contains
place_from-missing i cur [] h = refl
place_from-missing i cur (p ∷ ps) h = elim (Bool-cases (p == cur)) [
  | inl e ↦ absurd (ground (arith, h, e))
  | inr e ↦ rw e (place_from-missing (i + 1) cur ps (ground (arith, h, e)))
]

module _ {R : Type 0} where
  -- Rebuilding the list keeps the chosen provider if the mode allows it, chooses "auto" if not, and
  -- drops the rows of costs.
  pub rebuild_provider_list-value :
      (registered : List String) (m : DashModel R)
      → let m' = rebuild_provider_list registered m in
        let chosen = value (m.selects si_provider) in
        let allowed = provider_list_for_mode registered (value (m.selects si_mode)) in
        (value (m'.selects si_provider) ≡ (if contains allowed chosen then chosen else "auto"))
        × (m'.cost_rows ≡ [])
  unfolding rebuild_provider_list
  rebuild_provider_list-value registered m =
      let chosen = value (m.selects si_provider) in
      let allowed = provider_list_for_mode registered (value (m.selects si_mode)) in
      (placed chosen (fitting (value (m.selects si_mode) == "on-prem") registered), refl)
    where
      placed :
          (chosen : String) (ps : List String)
          → or_empty (get_elem? ("auto" ∷ ps) (place_from 0 chosen ("auto" ∷ ps)))
            ≡ (if contains ("auto" ∷ ps) chosen then chosen else "auto")
      placed chosen ps = elim (Bool-cases (contains ("auto" ∷ ps) chosen)) [
        | inl e ↦
            let (k, at, found) = place_from-get_elem? 0 chosen ("auto" ∷ ps) e in
            let place : place_from 0 chosen ("auto" ∷ ps) ≡ k = omega (arith, at) in
            ap (λ j. or_empty (get_elem? ("auto" ∷ ps) j)) place
            ∙ ap or_empty found
            ∙ sym (ap (λ b. if b then chosen else "auto") e)
        | inr e ↦
            ap (λ j. or_empty (get_elem? ("auto" ∷ ps) j))
              (place_from-missing 0 chosen ("auto" ∷ ps) e)
            ∙ sym (ap (λ b. if b then chosen else "auto") e)
      ]
