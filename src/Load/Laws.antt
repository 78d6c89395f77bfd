-- ===== src/Load/Laws.antt =====
-- What the statements of Load leave in a text field or a flag: what the last that writes it gives.
use yage.Prelude.{
  String, Bool, true, false, not, ◌&&◌, Option, none, some, List, [], ◌∷◌, ◌==◌, if◌then◌else◌, ◌≡◌,
  refl, ◌∙◌, ap, Bool-cases, inl, inr, ◌⊎◌,
}
use yage.Float.{Float}
use yage.Settings.{Settings, Strconv}
use yage.Load.{mark_unset, fill_from, Environment, evaluate, decide, run, run_all}
use yage.Load.Syntax.{
  Statement, set_str, set_bool, set_number, set_whole, fill, from_keyring, when_unset, csi_drivers,
}

-- Whether a statement may write a text field, or a flag.
abbrev pub writes_text : String → Statement → Bool
writes_text g (set_str field e) = field == g
writes_text g (fill field e) = field == g
writes_text g (from_keyring field key) = field == g
writes_text g _ = false

abbrev pub writes_flag : String → Statement → Bool
writes_flag g (set_bool field t) = field == g
writes_flag g (when_unset key field) = field == g
writes_flag g _ = false

abbrev pub none_writes : (Statement → Bool) → List Statement → Bool
none_writes writes [] = true
none_writes writes (s ∷ ss) = let rest = none_writes writes ss in not (writes s) && rest

-- The statement that a field has its value from: the last that may write it.
abbrev last_or : Option Statement → Bool → Statement → Option Statement
last_or (some t) here s = some t
last_or none true s = some s
last_or none false s = none

unfoldable pub last_write : (Statement → Bool) → List Statement → Option Statement
last_write writes [] = none
last_write writes (s ∷ ss) = last_or (last_write writes ss) (writes s) s

last_or-cases :
    (later : Option Statement) (here : Bool) (s t : Statement)
    → last_or later here s ≡ some t
    → (later ≡ some t) ⊎ ((later ≡ none) × (s ≡ t))
last_or-cases (some u) here s t h = inl h
last_or-cases none true s t h = inr (refl, cc h)
last_or-cases none false s t h = absurd (cc h)

last_or-none :
    (later : Option Statement) (here : Bool) (s : Statement)
    → last_or later here s ≡ none
    → (later ≡ none) × (here ≡ false)
last_or-none (some u) here s h = absurd (cc h)
last_or-none none true s h = absurd (cc h)
last_or-none none false s h = (refl, refl)

module _ (f : Float) (go : Strconv f.F) (env keyring : Environment) where
  run-text :
      (s : Statement) (g : String) (c : Settings f.F)
      → writes_text g s ≡ false
      → (run f go env keyring s c).texts g ≡ c.texts g
  unfolding run
  run-text (set_str field e) g c h =
      ap (λ b. if b then evaluate f go env keyring e c else c.texts g) h
  run-text (set_bool field t) g c h = refl
  run-text (set_number field key n d) g c h = refl
  run-text (set_whole field key n) g c h = refl
  run-text (fill field e) g c h = elim (Bool-cases (c.texts field == "")) [
    | inl empty ↦ rw empty (rw h refl)
    | inr filled ↦ rw filled refl
  ]
  run-text (from_keyring field key) g c h = elim (Bool-cases (c.texts field == "")) [
    | inl empty ↦ rw empty (from_key (keyring key) h)
    | inr filled ↦ rw filled refl
  ]
    where
      from_key :
          (o : Option String)
          → (field == g) ≡ false
          → (fill_from f go env keyring field o c).texts g ≡ c.texts g
      from_key none k = refl
      from_key (some v) k = rw k refl
  run-text (when_unset key field) g c h = unset (env key)
    where
      unset : (o : Option String) → (mark_unset f go env keyring field o c).texts g ≡ c.texts g
      unset none = refl
      unset (some v) = refl
  run-text (csi_drivers key) g c h = refl

  run_all-text :
      (ss : List Statement) (g : String) (c : Settings f.F)
      → last_write (writes_text g) ss ≡ none
      → (run_all f go env keyring ss c).texts g ≡ c.texts g
  unfolding run_all last_write
  run_all-text [] g c h = refl
  run_all-text (s ∷ ss) g c h =
      let both = last_or-none (last_write (writes_text g) ss) (writes_text g s) s h in
      run_all-text ss g (run f go env keyring s c) both.0 ∙ run-text s g c both.1

  pub run_all-last_text :
      (ss : List Statement) (g : String) (s : Statement) (v : String) (c : Settings f.F)
      → last_write (writes_text g) ss ≡ some s
      → ((d : Settings f.F) → (run f go env keyring s d).texts g ≡ v)
      → (run_all f go env keyring ss c).texts g ≡ v
  unfolding run_all last_write
  run_all-last_text [] g s v c h gives = absurd (cc h)
  run_all-last_text (t ∷ ss) g s v c h gives =
      elim (last_or-cases (last_write (writes_text g) ss) (writes_text g t) t s h) [
        | inl later ↦ run_all-last_text ss g s v (run f go env keyring t c) later gives
        | inr here ↦
            run_all-text ss g (run f go env keyring t c) here.0
            ∙ ap (λ x. (run f go env keyring x c).texts g) here.1
            ∙ gives c
      ]

  run-flag :
      (s : Statement) (g : String) (c : Settings f.F)
      → writes_flag g s ≡ false
      → (run f go env keyring s c).flags g ≡ c.flags g
  unfolding run
  run-flag (set_str field e) g c h = refl
  run-flag (set_bool field t) g c h = ap (λ b. if b then decide f go env keyring t else c.flags g) h
  run-flag (set_number field key n d) g c h = refl
  run-flag (set_whole field key n) g c h = refl
  run-flag (fill field e) g c h = elim (Bool-cases (c.texts field == "")) [
    | inl empty ↦ rw empty refl
    | inr filled ↦ rw filled refl
  ]
  run-flag (from_keyring field key) g c h = elim (Bool-cases (c.texts field == "")) [
    | inl empty ↦ rw empty (from_key (keyring key))
    | inr filled ↦ rw filled refl
  ]
    where
      from_key : (o : Option String) → (fill_from f go env keyring field o c).flags g ≡ c.flags g
      from_key none = refl
      from_key (some v) = refl
  run-flag (when_unset key field) g c h = unset (env key) h
    where
      unset :
          (o : Option String)
          → (field == g) ≡ false
          → (mark_unset f go env keyring field o c).flags g ≡ c.flags g
      unset none k = rw k refl
      unset (some v) k = refl
  run-flag (csi_drivers key) g c h = refl

  run_all-flag :
      (ss : List Statement) (g : String) (c : Settings f.F)
      → last_write (writes_flag g) ss ≡ none
      → (run_all f go env keyring ss c).flags g ≡ c.flags g
  unfolding run_all last_write
  run_all-flag [] g c h = refl
  run_all-flag (s ∷ ss) g c h =
      let both = last_or-none (last_write (writes_flag g) ss) (writes_flag g s) s h in
      run_all-flag ss g (run f go env keyring s c) both.0 ∙ run-flag s g c both.1

  pub run_all-last_flag :
      (ss : List Statement) (g : String) (s : Statement) (v : Bool) (c : Settings f.F)
      → last_write (writes_flag g) ss ≡ some s
      → ((d : Settings f.F) → (run f go env keyring s d).flags g ≡ v)
      → (run_all f go env keyring ss c).flags g ≡ v
  unfolding run_all last_write
  run_all-last_flag [] g s v c h gives = absurd (cc h)
  run_all-last_flag (t ∷ ss) g s v c h gives =
      elim (last_or-cases (last_write (writes_flag g) ss) (writes_flag g t) t s h) [
        | inl later ↦ run_all-last_flag ss g s v (run f go env keyring t c) later gives
        | inr here ↦
            run_all-flag ss g (run f go env keyring t c) here.0
            ∙ ap (λ x. (run f go env keyring x c).flags g) here.1
            ∙ gives c
      ]
