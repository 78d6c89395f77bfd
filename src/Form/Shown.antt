-- ===== src/Form/Shown.antt =====
-- What an input that newDashModel fills gives back.
use yage.Prelude.{
  String, true, false, Option, some, List, ◌==◌, eq_iff, if◌then◌else◌, ◌≡◌, sym, ◌∙◌, ap, arith,
}
use yage.Float.{Float}
use yage.Settings.{Settings, Strconv}
use yage.Settings.Trim.{trim_space}
use yage.Form.{Form, Host, Seed, seed_text, seed_default, Toggle, turned}
use yage.Form.Open.{
  State, dash_default, seed_value, toggle_value, text_for, toggle_for, new_dash_model,
}
use yage.Form.Seeded.{defaulted, shows, turns_on}

module _ (f : Float) (go : Strconv f.F) (host : Host f.F) (cfg : Settings f.F) (state : State f.F)
    (registered : List String) where
  abbrev pub opened : Form
  opened = new_dash_model f host cfg state registered

  -- The text of the field comes back from an input, and it is not empty if it has a fallback.
  abbrev pub Kept : String → Type 0
  Kept h =
      (trim_space (cfg.texts h) ≡ cfg.texts h)
      × (host.input_value (cfg.texts h) ≡ cfg.texts h)
      × (defaulted h ≡ true → (cfg.texts h == "") ≡ false)

  abbrev pub put_and_read : String → String
  put_and_read t = trim_space (host.input_value t)

  put_and_read-Kept : (h : String) → Kept h → put_and_read (cfg.texts h) ≡ cfg.texts h
  put_and_read-Kept h kept_h = ap trim_space kept_h.1 ∙ kept_h.0

  default_shown :
      (h fallback : String)
      → Kept h
      → defaulted h ≡ true
      → put_and_read (dash_default (cfg.texts h) fallback) ≡ cfg.texts h
  unfolding dash_default
  default_shown h fallback kept_h has_default =
      let filled : (trim_space (cfg.texts h) == "") ≡ false =
        ap (λ t. t == "") kept_h.0 ∙ kept_h.2 has_default in
      ap (λ b. put_and_read (if b then fallback else cfg.texts h)) filled
      ∙ put_and_read-Kept h kept_h

  pub text_for-shows :
      (field : String) (o : Option Seed)
      → shows field o ≡ true
      → Kept field
      → put_and_read (text_for f host cfg state o) ≡ cfg.texts field
  unfolding text_for seed_value
  text_for-shows field (some (seed_text other)) h kept_h =
      ap (λ name. put_and_read (cfg.texts name)) ((eq_iff other field).0 h)
      ∙ put_and_read-Kept field kept_h
  text_for-shows field (some (seed_default other fallback)) h kept_h =
      let name : other ≡ field = (eq_iff other field).0 (ground (arith, h)) in
      let has_default : defaulted other ≡ true = ground (arith, h) in
      ap (λ t. put_and_read (dash_default (cfg.texts t) fallback)) name
      ∙ default_shown field fallback kept_h (ap defaulted (sym name) ∙ has_default)
  text_for-shows field _ h kept_h = absurd (cc h)

  pub toggle_for-turns_on :
      (field : String) (o : Option Toggle)
      → turns_on field o ≡ true
      → toggle_for f host cfg state o ≡ cfg.flags field
  unfolding toggle_for toggle_value
  toggle_for-turns_on field (some (turned other)) h = ap cfg.flags ((eq_iff other field).0 h)
  toggle_for-turns_on field _ h = absurd (cc h)
