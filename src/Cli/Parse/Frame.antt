-- ===== src/Cli/Parse/Frame.antt =====
-- The fields that Parse writes.
use yage.Prelude.{
  ℕ, zero, suc, String, Bool, false, Option, none, some, List, [], ◌∷◌, length, All, ◌≡◌, ◌∙◌,
  arith, Bool-cases, inl, inr,
}
use text.Mathlib.Text.{starts_with}
use yage.Float.{Float}
use yage.Settings.{Settings, Strconv}
use yage.Cli.Steps.{
  Result, ok, exit, with_rest, shift_value, opt_positional, Reading, reads_none, reads_value,
  reads_optional, exits, read, Step, Case, S, reading, and_then, run_steps,
}
use yage.Cli.Parse.{find_case, run_found, continue, parse_loop, parse}
use yage.Cli.Parse.Assigns.{
  assigns, some_assigns, IsSame, Keeps, KeepsRead, stays, reading-KeepsRead,
}

-- Whether an argument is a flag whose case assigns the field.
abbrev pub found_assigns : String → Option (List Step) → Bool
found_assigns g none = false
found_assigns g (some steps) = some_assigns g steps

abbrev pub flag_assigns : List Case → String → String → Bool
flag_assigns cases g a = found_assigns g (find_case cases a)

module _ (f : Float) (go : Strconv f.F) (g : String) where
  -- The field is kept, and what is left of the arguments are some of those that were there.
  abbrev KeepsStep : S f go → List String → Result (S f go × List String) → Type 0
  KeepsStep s rest (ok (t, left)) =
      IsSame f go g s t
      × ((a : String → Bool) → All (λ x. a x ≡ false) rest → All (λ x. a x ≡ false) left)
  KeepsStep s rest (exit e) = Unit

  with_rest-KeepsStep :
      (s : S f go) (whole rest : List String) (r : Result (S f go))
      → ((a : String → Bool) → All (λ x. a x ≡ false) whole → All (λ x. a x ≡ false) rest)
      → Keeps f go g s r
      → KeepsStep s whole (with_rest rest r)
  with_rest-KeepsStep s whole rest (ok t) tail h = (h, tail)
  with_rest-KeepsStep s whole rest (exit e) tail h = tt

  read-KeepsStep :
      (s : S f go) (r : Reading (S f go)) (name : String) (rest : List String)
      → KeepsRead f go g s r
      → KeepsStep s rest (read r name rest)
  unfolding read shift_value opt_positional
  read-KeepsStep s (reads_none t) name rest h = (h, λ a all. all)
  read-KeepsStep s (reads_value u) name [] h = tt
  read-KeepsStep s (reads_value u) name (v ∷ rest) h =
      with_rest-KeepsStep s (v ∷ rest) rest (u v) (λ a all. all.1) (h v)
  read-KeepsStep s (reads_optional u) name [] h =
      with_rest-KeepsStep s [] [] (u none) (λ a all. all) (h none)
  read-KeepsStep s (reads_optional u) name (v ∷ rest) h = elim (Bool-cases (starts_with v "--")) [
    | inl e ↦ rw e (with_rest-KeepsStep s (v ∷ rest) (v ∷ rest) (u none) (λ a all. all) (h none))
    | inr e ↦
        rw e (with_rest-KeepsStep s (v ∷ rest) rest (u (some v)) (λ a all. all.1) (h (some v)))
  ]
  read-KeepsStep s (exits e) name rest h = tt

  abbrev Next : Type 0
  Next = S f go → List String → Result (S f go × List String)

  joined :
      (s t : S f go) (rest left : List String) (out : Result (S f go × List String))
      → IsSame f go g s t
      → ((a : String → Bool) → All (λ x. a x ≡ false) rest → All (λ x. a x ≡ false) left)
      → KeepsStep t left out
      → KeepsStep s rest out
  joined s t rest left (ok (u, last)) same tail next = (
    (next.0.0 ∙ same.0, next.0.1 ∙ same.1, next.0.2 ∙ same.2, next.0.3 ∙ same.3),
    λ a all. next.1 a (tail a all),
  )
  joined s t rest left (exit e) same tail next = tt

  and_then-KeepsStep :
      (next : Next) (s : S f go) (rest : List String) (out : Result (S f go × List String))
      → ((t : S f go) (left : List String) → KeepsStep t left (next t left))
      → KeepsStep s rest out
      → KeepsStep s rest (and_then f go next out)
  unfolding and_then
  and_then-KeepsStep next s rest (ok (t, left)) later h =
      joined s t rest left (next t left) h.0 h.1 (later t left)
  and_then-KeepsStep next s rest (exit e) later h = tt

  run_steps-KeepsStep :
      (steps : List Step) (name : String) (s : S f go) (rest : List String)
      → some_assigns g steps ≡ false
      → KeepsStep s rest (run_steps f go steps name s rest)
  unfolding run_steps
  run_steps-KeepsStep [] name s rest h = (stays f go g s, λ a all. all)
  run_steps-KeepsStep (step ∷ steps) name s rest h =
      let now : assigns g step ≡ false = ground (arith, h) in
      let later : some_assigns g steps ≡ false = ground (arith, h) in
      let r = reading f go step s in
      and_then-KeepsStep (run_steps f go steps name) s rest (read r name rest)
        (λ t left. run_steps-KeepsStep steps name t left later)
        (read-KeepsStep s r name rest (reading-KeepsRead f go g step s now))

  module _ (cases : List Case) where
    run_found-KeepsStep :
        (found : Option (List Step)) (name : String) (s : S f go) (rest : List String)
        → found_assigns g found ≡ false
        → KeepsStep s rest (run_found f go found name s rest)
    unfolding run_found
    run_found-KeepsStep none name s rest h = tt
    run_found-KeepsStep (some steps) name s rest h = run_steps-KeepsStep steps name s rest h

    abbrev Spared : List String → Type 0
    Spared = All (λ (a : String). flag_assigns cases g a ≡ false)

    continue-kept :
        (again : S f go → List String → Option (Result (S f go))) (s t : S f go)
        (rest : List String) (out : Result (S f go × List String))
        → ((u : S f go) (left : List String)
            → Spared left
            → again u left ≡ some (ok t)
            → IsSame f go g u t)
        → Spared rest
        → KeepsStep s rest out
        → continue f go again out ≡ some (ok t)
        → IsSame f go g s t
    unfolding continue
    continue-kept again s t rest (ok (u, left)) later spared h done =
        let same = later u left (h.1 (flag_assigns cases g) spared) done in
        (same.0 ∙ h.0.0, same.1 ∙ h.0.1, same.2 ∙ h.0.2, same.3 ∙ h.0.3)
    continue-kept again s t rest (exit e) later spared h done = absurd (cc done)

    parse_loop_kept :
        (fuel : ℕ) (s t : S f go) (argv : List String)
        → Spared argv
        → parse_loop f go cases fuel s argv ≡ some (ok t)
        → IsSame f go g s t
    unfolding parse_loop
    parse_loop_kept fuel s t [] spared done = let same : t ≡ s = cc done in rw same (stays f go g s)
    parse_loop_kept zero s t (a ∷ rest) spared done = absurd (cc done)
    parse_loop_kept (suc fuel) s t (a ∷ rest) spared done =
        continue-kept (parse_loop f go cases fuel) s t rest
          (run_found f go (find_case cases a) a s rest)
          (λ u left later e. parse_loop_kept fuel u t left later e) spared.1
          (run_found-KeepsStep (find_case cases a) a s rest spared.0) done

    -- A field that the case of no argument assigns has after the parse the value it had before.
    pub parse_kept :
        (s t : Settings f.F) (argv : List String)
        → All (λ (a : String). flag_assigns cases g a ≡ false) argv
        → parse f go cases s argv ≡ some (ok t)
        → IsSame f go g s t
    unfolding parse
    parse_kept s t argv spared done = parse_loop_kept (length argv) s t argv spared done
