-- ===== src/Form/Reopened.antt =====
-- Opening the dashboard on a configuration and saving it back.
use yage.Prelude.{
  String, Bool, true, false, Option, none, some, List, [], ◌∷◌, ◌==◌, eq_iff, if◌then◌else◌, ◌≡◌,
  refl, sym, ◌∙◌, ap, arith, Bool-cases, inl, inr,
}
use yage.Float.{Float}
use yage.Settings.{Settings, Strconv, set_text, set_flag}
use yage.Settings.Trim.{trim_space}
use yage.Dash.Fields.Options.{si_resil}
use yage.Form.{
  Form, Host, Save, save_text, save_default, save_filled, save_upper, save_number, save_toggle,
  save_select, save_on, filled_or, set_number, save, run_saves, trimmed, selected,
}
use yage.Form.Seeds.{input_seeds}
use yage.Form.Saves.{
  name_saves, connection_saves, mirror_saves, platform_saves, argocd_saves, setting_saves,
}
use yage.Form.Open.{State, seed_at, toggle_at, new_dash_model}
use yage.Form.Build.{
  save_provider, save_mirrors, save_budget, save_inputs, save_shape, shape_of, build_snapshot_cfg,
  replicas_of,
}
use yage.Form.Credentials.{disable_providers_missing_credentials}
use yage.Form.Frame.{Same, apart, set_text-Same, save-Same, target}
use yage.Form.Derived.{save_provider-Same, save_budget-Same, save_shape-Same}
use mathlib.Core.Path.{subst}
use yage.Form.Seeded.{
  IsInput, is_plain, derived, defaulted, derived-CoversRest, shows, comes_back, all_back,
}
use yage.Form.Shown.{Kept, text_for-shows, toggle_for-turns_on}

module _ (f : Float) (go : Strconv f.F) (host : Host f.F) (cfg : Settings f.F) (state : State f.F)
    (registered : List String) where
  abbrev opened : Form
  opened = new_dash_model f host cfg state registered

  module _ (g : String) (plain : derived g ≡ false)
      (kept_g : Kept f go host cfg state registered g) where
    abbrev Agrees : Settings f.F → Type 0
    Agrees s = (s.texts g ≡ cfg.texts g) × (s.flags g ≡ cfg.flags g)

    kept : (s t : Settings f.F) → Same g s t → Agrees s → Agrees t
    kept s t h a = (h.0 ∙ a.0, h.1 ∙ a.1)

    Kept-here : (field : String) → (field == g) ≡ true → Kept f go host cfg state registered field
    Kept-here field same =
        subst (Kept f go host cfg state registered) (sym ((eq_iff field g).0 same)) kept_g

    text_set-Agrees :
        (s : Settings f.F) (field v : String)
        → ((field == g) ≡ true → v ≡ cfg.texts field)
        → Agrees s
        → Agrees (set_text s field v)
    text_set-Agrees s field v eq a = (
      elim (Bool-cases (field == g)) [
        | inl e ↦ rw e (eq e ∙ ap cfg.texts ((eq_iff field g).0 e))
        | inr e ↦ rw e a.0
      ],
      a.1,
    )

    flag_set-Agrees :
        (s : Settings f.F) (field : String) (v : Bool)
        → v ≡ cfg.flags field
        → Agrees s
        → Agrees (set_flag s field v)
    flag_set-Agrees s field v eq a = (
      a.0,
      elim (Bool-cases (field == g)) [
        | inl e ↦ rw e (eq ∙ ap cfg.flags ((eq_iff field g).0 e))
        | inr e ↦ rw e a.1
      ],
    )

    filled_set-Agrees :
        (s : Settings f.F) (field v : String)
        → ((field == g) ≡ true → v ≡ cfg.texts field)
        → Agrees s
        → Agrees (set_text s field (filled_or v (s.texts field)))
    filled_set-Agrees s field v eq a = (
      elim (Bool-cases (field == g)) [
        | inl e ↦
            let old : s.texts field ≡ cfg.texts g = ap s.texts ((eq_iff field g).0 e) ∙ a.0 in
            let new : v ≡ cfg.texts g = eq e ∙ ap cfg.texts ((eq_iff field g).0 e) in
            rw e (either (v == "") v (s.texts field) new old)
        | inr e ↦ rw e a.0
      ],
      a.1,
    )
      where
        either :
            (b : Bool) (x y : String)
            → x ≡ cfg.texts g
            → y ≡ cfg.texts g
            → (if b then y else x) ≡ cfg.texts g
        either true x y h k = k
        either false x y h k = h

    number_set-Agrees :
        (s : Settings f.F) (field : String) (x : Option f.F)
        → Agrees s
        → Agrees (set_number f go opened field x s)
    number_set-Agrees s field none a = a
    number_set-Agrees s field (some x) a = a

    back-Agrees :
        (x : Save) (s : Settings f.F)
        → comes_back x ≡ true
        → Agrees s
        → Agrees (save f go opened x s)
    unfolding save new_dash_model
    back-Agrees (save_text field ti) s h a =
        text_set-Agrees s field (trimmed opened ti)
          (λ same. text_for-shows f go host cfg state registered field _ h (Kept-here field same)) a
    back-Agrees (save_default field ti fallback) s h a =
        let back : shows field (seed_at input_seeds ti) ≡ true = ground (arith, h) in
        let has_default : defaulted field ≡ true = ground (arith, h) in
        text_set-Agrees s field (filled_or (trimmed opened ti) fallback)
          (λ same.
            let kept_h = Kept-here field same in
            let v : trimmed opened ti ≡ cfg.texts field =
              text_for-shows f go host cfg state registered field _ back kept_h in
            let solid : (trimmed opened ti == "") ≡ false =
              ap (λ t. t == "") v ∙ kept_h.2 has_default in
            ap (λ b. if b then fallback else trimmed opened ti) solid ∙ v)
          a
    back-Agrees (save_filled field ti) s h a =
        filled_set-Agrees s field (trimmed opened ti)
          (λ same. text_for-shows f go host cfg state registered field _ h (Kept-here field same)) a
    back-Agrees (save_number field ti) s h a = number_set-Agrees s field _ a
    back-Agrees (save_toggle field toi) s h a =
        flag_set-Agrees s field (opened.toggles toi)
          (toggle_for-turns_on f go host cfg state registered field _ h) a
    back-Agrees (save_upper field ti) s h a = absurd (cc h)
    back-Agrees (save_select field si) s h a = absurd (cc h)
    back-Agrees (save_on field) s h a = absurd (cc h)

    run_saves-Agrees :
        (xs : List Save) (s : Settings f.F)
        → all_back xs ≡ true
        → Agrees s
        → Agrees (run_saves f go opened xs s)
    unfolding run_saves
    run_saves-Agrees [] s h a = a
    run_saves-Agrees (x ∷ xs) s h a =
        let later : all_back xs ≡ true = ground (arith, h) in
        run_saves-Agrees xs (save f go opened x s) later (elim (Bool-cases (derived (target x))) [
          | inl e ↦ kept s (save f go opened x s) (save-Same derived g plain f go opened x s e) a
          | inr e ↦ back-Agrees x s (ground (arith, h, e)) a
        ])

    save_mirrors-Agrees : (s : Settings f.F) → Agrees s → Agrees (save_mirrors f go host opened s)
    unfolding save_mirrors derived seed_at toggle_at defaulted
    save_mirrors-Agrees s a = elim (Bool-cases (s.flags "Airgapped")) [
      | inl e ↦ rw e (run_saves-Agrees mirror_saves s refl a)
      | inr e ↦ rw e a
    ]

    inputs-Agrees : (s : Settings f.F) → Agrees s → Agrees (save_inputs f go host opened s)
    unfolding save_inputs derived seed_at toggle_at defaulted
    inputs-Agrees s a =
        let s1 = run_saves f go opened name_saves s in
        let s2 = save_provider f go host opened s1 in
        let s3 = run_saves f go opened connection_saves s2 in
        let s4 = save_mirrors f go host opened s3 in
        let s5 = run_saves f go opened platform_saves s4 in
        let s6 = run_saves f go opened argocd_saves s5 in
        let count = replicas_of (selected opened si_resil) in
        let s7 = set_text s6 "ControlPlaneMachineCount" count in
        let s8 = run_saves f go opened setting_saves s7 in
        let a1 = run_saves-Agrees name_saves s refl a in
        let a2 =
          kept s1 s2 (save_provider-Same derived g plain derived-CoversRest f go host opened s1)
            a1 in
        let a3 = run_saves-Agrees connection_saves s2 refl a2 in
        let a4 = save_mirrors-Agrees s3 a3 in
        let a5 = run_saves-Agrees platform_saves s4 refl a4 in
        let a6 = run_saves-Agrees argocd_saves s5 refl a5 in
        let h7 = set_text-Same derived g plain s6 "ControlPlaneMachineCount" refl count in
        let a8 = run_saves-Agrees setting_saves s7 refl (kept s6 s7 h7 a6) in
        kept s8 (save_budget f go host opened s8)
          (save_budget-Same derived g plain derived-CoversRest f go host opened s8) a8

    skips_apart : ("SkipProviders" == g) ≡ false
    unfolding derived
    skips_apart = apart derived g plain "SkipProviders" refl

    kept-build : Agrees (build_snapshot_cfg f go host opened cfg)
    unfolding build_snapshot_cfg disable_providers_missing_credentials
    kept-build =
        let a = save_inputs f go host opened cfg in
        let w = shape_of opened go.to_lower in
        let b = save_shape f go host opened w a in
        let h = save_shape-Same derived g plain derived-CoversRest f go host opened w a in
        let c = kept a b h (inputs-Agrees cfg (refl, refl)) in
        let skips = λ (v : String). ap (λ d. if d then v else b.texts g) skips_apart in
        (skips _ ∙ c.0, c.1)

  -- Opening the dashboard on a configuration and building the configuration of its inputs keeps
  -- the text and the flag of every field that is not derived, if the text inputs keep plain
  -- texts, and the text is plain, has no spaces around it and, where it is shown with a fallback, is
  -- not empty.
  pub build_snapshot_cfg-new_dash_model :
      (g : String)
      → IsInput host
      → derived g ≡ false
      → trim_space (cfg.texts g) ≡ cfg.texts g
      → is_plain (cfg.texts g) ≡ true
      → (defaulted g ≡ true → (cfg.texts g == "") ≡ false)
      → let snap = build_snapshot_cfg f go host opened cfg in
        (snap.texts g ≡ cfg.texts g) × (snap.flags g ≡ cfg.flags g)
  build_snapshot_cfg-new_dash_model g input plain clean printable named =
      kept-build g plain (clean, input.plain_kept (cfg.texts g) printable, named)
