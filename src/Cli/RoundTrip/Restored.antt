-- ===== src/Cli/RoundTrip/Restored.antt =====
-- internal/ui/cli: what a field of the printed configuration is after the printed command is parsed.
use yage.Prelude.{
  ℕ, suc, ◌^◌, ◌<◌, ℤ, pos, String, true, false, not, Option, some, List, ◌==◌, if◌then◌else◌, ◌≡◌,
  ◌∙◌, ap,
}
use yage.Text.{codes, atoi}
use yage.Float.{Float, IsLe}
use yage.Settings.{Settings, Strconv}
use yage.Settings.Trim.{trim_space}
use yage.Settings.Itoa.{itoa}
use yage.Cli.Steps.{Step}
use yage.Cli.Parse.Assigns.{IsSame}
use yage.Cli.Entry.{
  Entry, flag, flag_int, flag_int_str, flag_float, flag_bool, flag_off, secret, secret_blank,
}
use yage.Cli.Render.{SensitiveMode, as_env, raw, masked}
use yage.Cli.Replay.{field_of}
use yage.Cli.RoundTrip.Fields.{read_as}

-- The value that a secret's flag gets.
abbrev pub secret_text : SensitiveMode → (String → String) → String → String → String
secret_text raw env v env_var = v
secret_text masked env v env_var = "********"
secret_text as_env env v env_var = if env_var == "" then "********" else env env_var

module _ (f : Float) (go : Strconv f.F) (mode : SensitiveMode) (env : String → String)
    (cfg : Settings f.F) where
  abbrev pub int_text : Option ℤ → List Step → String → String
  int_text (some (pos (suc n))) steps old = read_as f go steps (itoa (suc n))
  int_text _ steps old = old

  abbrev pub int_kept : ℤ → ℤ → ℤ
  int_kept (pos (suc n)) old = pos (suc n)
  int_kept _ old = old

  -- What an emitter's field is in `t` when the command printed for `cfg` is parsed from `s`: the
  -- field of `cfg` where it is printed, as its flag reads it, and else that of `s`.
  abbrev pub IsRestored : List Step → Settings f.F → Settings f.F → Entry → Type 0
  IsRestored steps s t (flag name field) =
      t.texts field
      ≡ (if cfg.texts field == "" then s.texts field else read_as f go steps (cfg.texts field))
  IsRestored steps s t (flag_int name field) =
      t.ints field ≡ int_kept (cfg.ints field) (s.ints field)
  IsRestored steps s t (flag_int_str name field) =
      t.texts field ≡ int_text (atoi (codes (trim_space (cfg.texts field)))) steps (s.texts field)
  IsRestored steps s t (flag_float name field) =
      t.floats field
      ≡ (if f.le (cfg.floats field) (f.lit 0 1) then s.floats field else cfg.floats field)
  IsRestored steps s t (flag_bool name field) =
      t.flags field ≡ (if cfg.flags field then true else s.flags field)
  IsRestored steps s t (flag_off name field) =
      t.flags field ≡ (if not (cfg.flags field) then false else s.flags field)
  IsRestored steps s t (secret name field env_var) = t.texts field ≡ (
      if cfg.texts field == ""
      then s.texts field
      else read_as f go steps (secret_text mode env (cfg.texts field) env_var))
  IsRestored steps s t (secret_blank name env_var) = Unit

  -- No float is NaN, and the ints are within their 64 bits.
  abbrev pub IsRanged : Type 0
  IsRanged =
      ((g : String) → IsLe f (cfg.floats g) (cfg.floats g))
      × ((g : String) (n : ℕ) → cfg.ints g ≡ pos n → n < 2 ^ 63)

  -- A field that is the same before and after stays restored.
  pub IsRestored-same :
      (e : Entry) (steps : List Step) (s s' t t' : Settings f.F)
      → IsSame f go (field_of e) s s'
      → IsSame f go (field_of e) t t'
      → IsRestored steps s' t e
      → IsRestored steps s t' e
  IsRestored-same (flag name field) steps s s' t t' a b h =
      b.0
      ∙ h
      ∙ ap (λ x. if cfg.texts field == "" then x else read_as f go steps (cfg.texts field)) a.0
  IsRestored-same (flag_int name field) steps s s' t t' a b h =
      b.2 ∙ h ∙ ap (int_kept (cfg.ints field)) a.2
  IsRestored-same (flag_int_str name field) steps s s' t t' a b h =
      b.0 ∙ h ∙ ap (int_text (atoi (codes (trim_space (cfg.texts field)))) steps) a.0
  IsRestored-same (flag_float name field) steps s s' t t' a b h =
      b.3 ∙ h ∙ ap (λ x. if f.le (cfg.floats field) (f.lit 0 1) then x else cfg.floats field) a.3
  IsRestored-same (flag_bool name field) steps s s' t t' a b h =
      b.1 ∙ h ∙ ap (λ x. if cfg.flags field then true else x) a.1
  IsRestored-same (flag_off name field) steps s s' t t' a b h =
      b.1 ∙ h ∙ ap (λ x. if not (cfg.flags field) then false else x) a.1
  IsRestored-same (secret name field env_var) steps s s' t t' a b h =
      b.0
      ∙ h
      ∙ ap
          (λ x.
            if cfg.texts field == ""
            then x
            else read_as f go steps (secret_text mode env (cfg.texts field) env_var))
          a.0
  IsRestored-same (secret_blank name env_var) steps s s' t t' a b h = tt
