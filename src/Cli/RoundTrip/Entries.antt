-- ===== src/Cli/RoundTrip/Entries.antt =====
-- internal/ui/cli: what an emitter's flag, when it is parsed, leaves in the emitter's field.
use yage.Prelude.{
  ℕ, zero, suc, ◌^◌, ◌<◌, ℤ, pos, negsuc, String, true, false, Option, none, some, List, ◌==◌,
  if◌then◌else◌, ◌≡◌, refl, ◌∙◌, ap, Bool-cases, inl, inr,
}
use yage.Text.{codes, atoi}
use yage.Float.{Float, IsIeee}
use yage.Settings.{Settings, Strconv}
use yage.Settings.Trim.{trim_space}
use yage.Settings.Itoa.{itoa, itoa_filled}
use yage.Cli.Steps.{Step}
use yage.Cli.Entry.{
  Entry, flag, flag_int, flag_int_str, flag_float, flag_bool, flag_off, secret, secret_blank,
}
use yage.Cli.Render.{
  SensitiveMode, as_env, raw, masked, hidden, value, flag_value, positive_value, parsed_positive,
  secret_value, shown_secret, shown,
}
use yage.Cli.Replay.{takes_text, takes_int, takes_float, reads_back}
use yage.Cli.Assign.{assign}
use yage.Cli.RoundTrip.Fields.{
  IsStrconv, read_as, takes_text-assign, turns-assign, takes_int-assign, takes_float-assign,
  format_float_filled,
}
use yage.Cli.RoundTrip.Restored.{secret_text, int_text, int_kept, IsRestored, IsRanged}
use yage.Cli.RoundTrip.Shows.{applied, here}

module _ (f : Float) (go : Strconv f.F) (mode : SensitiveMode) (env : String → String)
    (cfg : Settings f.F) where
  module _ (ieee : IsIeee f) (laws : IsStrconv f go) (ranged : IsRanged f go mode env cfg) where
    flag_value-restored :
        (field v : String) (steps : List Step) (s : Settings f.F)
        → takes_text field steps ≡ true
        → (applied f go mode env cfg (flag_value v) steps s).texts field
          ≡ (if v == "" then s.texts field else read_as f go steps v)
    unfolding flag_value
    flag_value-restored field v steps s h = elim (Bool-cases (v == "")) [
      | inl e ↦ rw e refl
      | inr e ↦ rw e (takes_text-assign f go field steps v s h)
    ]

    applied_number :
        (field : String) (n : ℕ) (steps : List Step) (s : Settings f.F)
        → applied f go mode env cfg (flag_value (itoa (suc n))) steps s
          ≡ assign f go steps (itoa (suc n)) s
    unfolding flag_value
    applied_number field n steps s =
        ap (λ b. applied f go mode env cfg (if b then hidden else value (itoa (suc n))) steps s)
          (itoa_filled (suc n))

    int_str-restored :
        (field : String) (n : Option ℤ) (steps : List Step) (s : Settings f.F)
        → takes_text field steps ≡ true
        → (applied f go mode env cfg (parsed_positive n) steps s).texts field
          ≡ int_text f go mode env cfg n steps (s.texts field)
    unfolding positive_value
    int_str-restored field none steps s h = refl
    int_str-restored field (some (pos zero)) steps s h = refl
    int_str-restored field (some (pos (suc n))) steps s h =
        ap (λ (t : Settings f.F). t.texts field) (applied_number field n steps s)
        ∙ takes_text-assign f go field steps (itoa (suc n)) s h
    int_str-restored field (some (negsuc n)) steps s h = refl

    int-restored :
        (field : String) (n : ℤ) (steps : List Step) (s : Settings f.F)
        → takes_int field steps ≡ true
        → ((k : ℕ) → n ≡ pos k → k < 2 ^ 63)
        → (applied f go mode env cfg (positive_value n) steps s).ints field
          ≡ int_kept f go mode env cfg n (s.ints field)
    unfolding positive_value
    int-restored field (pos zero) steps s h small = refl
    int-restored field (pos (suc n)) steps s h small =
        ap (λ (t : Settings f.F). t.ints field) (applied_number field n steps s)
        ∙ takes_int-assign f go field steps n s h (small (suc n) refl)
    int-restored field (negsuc n) steps s h small = refl

    secret-restored :
        (m : SensitiveMode) (field v env_var : String) (steps : List Step) (s : Settings f.F)
        → takes_text field steps ≡ true
        → (applied f go mode env cfg (secret_value m v env_var) steps s).texts field
          ≡ (if v == "" then s.texts field else read_as f go steps (secret_text m env v env_var))
    unfolding secret_value
    secret-restored m field v env_var steps s h = elim (Bool-cases (v == "")) [
      | inl e ↦ rw e refl
      | inr e ↦ rw e (go_on m)
    ]
      where
        go_on :
            (k : SensitiveMode)
            → (applied f go mode env cfg (shown_secret k v env_var) steps s).texts field
              ≡ read_as f go steps (secret_text k env v env_var)
        go_on raw = takes_text-assign f go field steps v s h
        go_on masked = takes_text-assign f go field steps "********" s h
        go_on as_env = elim (Bool-cases (env_var == "")) [
          | inl e ↦ rw e (takes_text-assign f go field steps "********" s h)
          | inr e ↦ rw e (takes_text-assign f go field steps (env env_var) s h)
        ]

    float_restored :
        (field : String) (steps : List Step) (s : Settings f.F)
        → takes_float field steps ≡ true
        → (applied f go mode env cfg
              (if f.le (cfg.floats field) (f.lit 0 1)
                then hidden
                else flag_value (go.format_float (cfg.floats field)))
              steps
              s).floats
            field
          ≡ (if f.le (cfg.floats field) (f.lit 0 1) then s.floats field else cfg.floats field)
    unfolding flag_value
    float_restored field steps s h = elim (Bool-cases (f.le (cfg.floats field) (f.lit 0 1))) [
      | inl e ↦ rw e refl
      | inr e ↦
          let x = cfg.floats field in
          rw e (
            ap
              (λ b.
                (applied f go mode env cfg (if b then hidden else value (go.format_float x)) steps
                    s).floats
                  field)
              (format_float_filled f go ieee laws x (ranged.0 field) e)
            ∙ takes_float-assign f go ieee laws field steps x s h (ranged.0 field) e)
    ]

    -- The flag of an emitter restores the emitter's field.
    pub here-IsRestored :
        (e : Entry) (steps : List Step) (s : Settings f.F)
        → reads_back e steps ≡ true
        → IsRestored f go mode env cfg steps s
            (applied f go mode env cfg (here f go mode env cfg e) steps s)
            e
    unfolding shown
    here-IsRestored (flag name field) steps s h =
        flag_value-restored field (cfg.texts field) steps s h
    here-IsRestored (flag_int name field) steps s h =
        int-restored field (cfg.ints field) steps s h (ranged.1 field)
    here-IsRestored (flag_int_str name field) steps s h =
        int_str-restored field (atoi (codes (trim_space (cfg.texts field)))) steps s h
    here-IsRestored (flag_float name field) steps s h = float_restored field steps s h
    here-IsRestored (flag_bool name field) steps s h = elim (Bool-cases (cfg.flags field)) [
      | inl e ↦ rw e (turns-assign f go field true steps "" s h)
      | inr e ↦ rw e refl
    ]
    here-IsRestored (flag_off name field) steps s h = elim (Bool-cases (cfg.flags field)) [
      | inl e ↦ rw e refl
      | inr e ↦ rw e (turns-assign f go field false steps "" s h)
    ]
    here-IsRestored (secret name field env_var) steps s h =
        secret-restored mode field (cfg.texts field) env_var steps s h
    here-IsRestored (secret_blank name env_var) steps s h = tt
