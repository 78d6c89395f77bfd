-- ===== src/Form/Frame.antt =====
-- Which fields buildSnapshotCfg leaves as they are.
use yage.Prelude.{
  String, Bool, true, false, ◌&&◌, Option, none, some, List, [], ◌∷◌, ℤ, ◌==◌, eq_iff,
  if◌then◌else◌, ◌≡◌, refl, ◌∙◌, ap, arith, Bool-cases, inl, inr,
}
use yage.Float.{Float}
use yage.Settings.{Settings, Strconv, set_text, set_flag, set_int, set_float}
use yage.Form.{
  Form, Save, save_text, save_default, save_filled, save_upper, save_number, save_toggle,
  save_select, save_on, set_number, save, run_saves,
}

abbrev pub target : Save → String
target (save_text field ti) = field
target (save_default field ti fallback) = field
target (save_filled field ti) = field
target (save_upper field ti) = field
target (save_number field ti) = field
target (save_toggle field toi) = field
target (save_select field si) = field
target (save_on field) = field

-- Whether the fields that are set are all among those that `p` tells.
abbrev pub within : (String → Bool) → List Save → Bool
within p [] = true
within p (x ∷ xs) = let rest = within p xs in p (target x) && rest

abbrev pub all_of : (String → Bool) → List String → Bool
all_of p [] = true
all_of p (x ∷ xs) = let rest = all_of p xs in p x && rest

-- The field is the same in both, whatever its type.
abbrev pub Same : {F : Type 0} → String → Settings F → Settings F → Type 0
Same g s t =
    (t.texts g ≡ s.texts g)
    × (t.flags g ≡ s.flags g)
    × (t.ints g ≡ s.ints g)
    × (t.floats g ≡ s.floats g)

pub same : {F : Type 0} → (g : String) (s : Settings F) → Same g s s
same g s = (refl, refl, refl, refl)

pub then_same :
    {F : Type 0} → (g : String) (s t u : Settings F) → Same g s t → Same g t u → Same g s u
then_same g s t u a b = (b.0 ∙ a.0, b.1 ∙ a.1, b.2 ∙ a.2, b.3 ∙ a.3)

module _ (p : String → Bool) (g : String) (outside : p g ≡ false) where
  pub apart : (field : String) → p field ≡ true → (field == g) ≡ false
  apart field h = elim (Bool-cases (field == g)) [
    | inl e ↦
        let eq : field ≡ g = (eq_iff field g).0 e in
        let both : true ≡ false = cc (ap p eq, h, outside) in absurd (cc both)
    | inr e ↦ e
  ]

  module _ {F : Type 0} (s : Settings F) (field : String) (h : p field ≡ true) where
    pub set_text-Same : (v : String) → Same g s (set_text s field v)
    set_text-Same v = (ap (λ b. if b then v else s.texts g) (apart field h), refl, refl, refl)

    pub set_flag-Same : (v : Bool) → Same g s (set_flag s field v)
    set_flag-Same v = (refl, ap (λ b. if b then v else s.flags g) (apart field h), refl, refl)

    pub set_float-Same : (v : F) → Same g s (set_float s field v)
    set_float-Same v = (refl, refl, refl, ap (λ b. if b then v else s.floats g) (apart field h))

  pub set_int-Same :
      {F : Type 0}
      → (s : Settings F) (field : String) → p field ≡ true
      → (v : ℤ) → Same g s (set_int s field v)
  set_int-Same s field h v = (refl, refl, ap (λ b. if b then v else s.ints g) (apart field h), refl)

  module _ (f : Float) (go : Strconv f.F) (form : Form) where
    set_number-Same :
        (s : Settings f.F) (field : String) (x : Option f.F)
        → p field ≡ true
        → Same g s (set_number f go form field x s)
    set_number-Same s field none h = same g s
    set_number-Same s field (some x) h = set_float-Same s field h x

    pub save-Same :
        (x : Save) (s : Settings f.F) → p (target x) ≡ true → Same g s (save f go form x s)
    unfolding save
    save-Same (save_text field ti) s h = set_text-Same s field h _
    save-Same (save_default field ti fallback) s h = set_text-Same s field h _
    save-Same (save_filled field ti) s h = set_text-Same s field h _
    save-Same (save_upper field ti) s h = set_text-Same s field h _
    save-Same (save_number field ti) s h = set_number-Same s field _ h
    save-Same (save_toggle field toi) s h = set_flag-Same s field h _
    save-Same (save_select field si) s h = set_text-Same s field h _
    save-Same (save_on field) s h = set_flag-Same s field h _

    pub run_saves-Same :
        (xs : List Save) (s : Settings f.F)
        → within p xs ≡ true
        → Same g s (run_saves f go form xs s)
    unfolding run_saves
    run_saves-Same [] s h = same g s
    run_saves-Same (x ∷ xs) s h =
        let now : p (target x) ≡ true = ground (arith, h) in
        let later : within p xs ≡ true = ground (arith, h) in
        let first = save-Same x s now in
        let last = run_saves-Same xs (save f go form x s) later in
        (last.0 ∙ first.0, last.1 ∙ first.1, last.2 ∙ first.2, last.3 ∙ first.3)
