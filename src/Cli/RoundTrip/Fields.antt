-- ===== src/Cli/RoundTrip/Fields.antt =====
-- internal/ui/cli: what the flag of an emitter leaves in the emitter's field.
use yage.Prelude.{
  ℕ, suc, ◌^◌, ◌<◌, pos, String, Bool, true, false, not, none, some, List, [], ◌∷◌, ◌==◌,
  if◌then◌else◌, ◌≡◌, refl, ◌∙◌, ap, arith, Bool-cases, inl, inr, eq_iff, leb_ℤ,
}
use yage.Float.{Float, IsLe, IsIeee}
use yage.Settings.{Strconv, set_text, set_flag}
use yage.Settings.Itoa.{itoa, atoi-itoa}
use yage.Cli.Steps.{
  Step, turn, take, take_int, take_float, S, transform, store_int, store_float, float_allowed,
}
use yage.Cli.Steps.{
  IntTest, any_int, int_not_negative, FloatTest, any_float, float_not_negative, float_positive,
}
use yage.Settings.{set_int, set_float}
use yage.Cli.Render.{positive_value}
use yage.Cli.Replay.{all_turn, takes_text, takes_int, takes_float, turns}
use yage.Cli.Assign.{takes_value, assign}

pub takes_text-takes_value :
    (field : String) (steps : List Step) → takes_text field steps ≡ true → takes_value steps ≡ true
takes_text-takes_value field [] h = absurd (cc h)
takes_text-takes_value field (turn g b ∷ steps) h = takes_text-takes_value field steps h
takes_text-takes_value field (take g t ∷ steps) h = ground (arith, h)
takes_text-takes_value field (_ ∷ steps) h = absurd (cc h)

pub takes_int-takes_value :
    (field : String) (steps : List Step) → takes_int field steps ≡ true → takes_value steps ≡ true
takes_int-takes_value field (take_int g test ∷ []) h = refl
takes_int-takes_value field _ h = absurd (cc h)

pub takes_float-takes_value :
    (field : String) (steps : List Step) → takes_float field steps ≡ true → takes_value steps ≡ true
takes_float-takes_value field (take_float g test ∷ []) h = refl
takes_float-takes_value field _ h = absurd (cc h)

pub turns-all_turn :
    (field : String) (b : Bool) (steps : List Step)
    → turns field b steps ≡ true
    → all_turn steps ≡ true
turns-all_turn field true (turn g true ∷ []) h = refl
turns-all_turn field false (turn g false ∷ []) h = refl
turns-all_turn field _ _ h = absurd (cc h)

-- What the code relies on of the printing and parsing of floats.
pub record IsStrconv (f : Float) (go : Strconv f.F) : Type 0 where
  pub parse_empty : go.parse_float "" ≡ none
  pub parse-format :
      (x : f.F)
      → IsLe f x x
      → f.le x (f.lit 0 1) ≡ false
      → go.parse_float (go.format_float x) ≡ some x

module _ (f : Float) (go : Strconv f.F) where
  -- How the case of a flag reads a value into its text field.
  abbrev pub read_as : List Step → String → String
  read_as (turn g b ∷ steps) v = read_as steps v
  read_as (take g t ∷ steps) v = transform f go t v
  read_as _ v = v

  all_turn-texts :
      (steps : List Step) (v : String) (s : S f go)
      → all_turn steps ≡ true
      → (assign f go steps v s).texts ≡ s.texts
  unfolding assign
  all_turn-texts [] v s h = refl
  all_turn-texts (turn g b ∷ steps) v s h = all_turn-texts steps v (set_flag s g b) h
  all_turn-texts (_ ∷ steps) v s h = absurd (cc h)

  pub takes_text-assign :
      (field : String) (steps : List Step) (v : String) (s : S f go)
      → takes_text field steps ≡ true
      → (assign f go steps v s).texts field ≡ read_as steps v
  unfolding assign
  takes_text-assign field [] v s h = absurd (cc h)
  takes_text-assign field (turn g b ∷ steps) v s h =
      takes_text-assign field steps v (set_flag s g b) h
  takes_text-assign field (take g t ∷ steps) v s h =
      let same : (g == field) ≡ true = ground (arith, h) in
      let rest : all_turn steps ≡ true = ground (arith, h) in
      let x = transform f go t v in
      ap (λ m. m field) (all_turn-texts steps v (set_text s g x) rest)
      ∙ ap (λ b. if b then x else s.texts field) same
  takes_text-assign field (_ ∷ steps) v s h = absurd (cc h)

  pub turns-assign :
      (field : String) (b : Bool) (steps : List Step) (v : String) (s : S f go)
      → turns field b steps ≡ true
      → (assign f go steps v s).flags field ≡ b
  unfolding assign
  turns-assign field true (turn g true ∷ []) v s h = ap (λ b. if b then true else s.flags field) h
  turns-assign field false (turn g false ∷ []) v s h =
      ap (λ b. if b then false else s.flags field) h
  turns-assign field _ _ v s h = absurd (cc h)

  store_positive :
      (field : String) (test : IntTest) (n : ℕ) (s : S f go)
      → store_int f go field test (some (pos (suc n))) s ≡ set_int s field (pos (suc n))
  unfolding store_int
  store_positive field any_int n s = refl
  store_positive field int_not_negative n s =
      let above : leb_ℤ (pos 0) (pos (suc n)) ≡ true = ground arith in
      ap (λ b. if b then set_int s field (pos (suc n)) else s) above

  pub takes_int-assign :
      (field : String) (steps : List Step) (n : ℕ) (s : S f go)
      → takes_int field steps ≡ true
      → suc n < 2 ^ 63
      → (assign f go steps (itoa (suc n)) s).ints field ≡ pos (suc n)
  unfolding assign
  takes_int-assign field (take_int g test ∷ []) n s h small =
      ap (λ o. (store_int f go g test o s).ints field) (atoi-itoa (suc n) small)
      ∙ ap (λ (t : S f go). t.ints field) (store_positive g test n s)
      ∙ ap (λ b. if b then pos (suc n) else s.ints field) h
  takes_int-assign field _ n s h small = absurd (cc h)

  module _ (ieee : IsIeee f) (laws : IsStrconv f go) where
    float_allowed-positive :
        (test : FloatTest) (x : f.F)
        → IsLe f x x
        → f.le x (f.lit 0 1) ≡ false
        → float_allowed f go test x ≡ true
    float_allowed-positive any_float x number h = refl
    float_allowed-positive float_not_negative x number h =
        ieee.lt_le (f.lit 0 1) x
          (ieee.lt-eq-not-le (f.lit 0 1) x (ieee.lit_pos 0 0) number ∙ ap not h)
    float_allowed-positive float_positive x number h =
        ieee.lt-eq-not-le (f.lit 0 1) x (ieee.lit_pos 0 0) number ∙ ap not h

    pub takes_float-assign :
        (field : String) (steps : List Step) (x : f.F) (s : S f go)
        → takes_float field steps ≡ true
        → IsLe f x x
        → f.le x (f.lit 0 1) ≡ false
        → (assign f go steps (go.format_float x) s).floats field ≡ x
    unfolding assign store_float
    takes_float-assign field (take_float g test ∷ []) x s h number positive_value =
        ap (λ o. (store_float f go g test o s).floats field)
          (laws.parse-format x number positive_value)
        ∙ ap (λ b. (if b then set_float s g x else s).floats field)
            (float_allowed-positive test x number positive_value)
        ∙ ap (λ b. if b then x else s.floats field) h
    takes_float-assign field _ x s h number positive_value = absurd (cc h)

    -- A float above 0 is not printed as the empty text.
    pub format_float_filled :
        (x : f.F) → IsLe f x x → f.le x (f.lit 0 1) ≡ false → (go.format_float x == "") ≡ false
    format_float_filled x number positive_value = elim (Bool-cases (go.format_float x == "")) [
      | inl e ↦ absurd (
          cc (
            laws.parse_empty,
            laws.parse-format x number positive_value,
            (eq_iff (go.format_float x) "").0 e,
          ))
      | inr e ↦ e
    ]
