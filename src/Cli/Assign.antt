-- ===== src/Cli/Assign.antt =====
-- internal/ui/cli/parse.go: what the cases that read one value, or none, do to the settings.
use yage.Prelude.{
  suc, String, Bool, true, false, some, List, [], ◌∷◌, ◌≡◌, refl, ◌∙◌, ap, arith, length,
}
use yage.Text.{codes, atoi}
use yage.Float.{Float}
use yage.Settings.{Settings, Strconv, set_text, set_flag}
use yage.Cli.Steps.{
  ok, Step, turn, take, take_int, take_float, Case, S, transform, reading, read, shift_value,
  and_then, run_steps, store_int, store_float,
}
use yage.Cli.Parse.{find_case, run_found, continue, parse_loop, parse}
use yage.Cli.Parse.Loop.{parse_loop_fuel}
use yage.Cli.Parse.Assigns.{assigns, some_assigns, IsSame, store_int-IsSame, store_float-IsSame}
use yage.Cli.Replay.{all_turn}

-- Cases that only turn switches, and cases that read one value besides.
abbrev pub takes_value : List Step → Bool
takes_value (turn g b ∷ steps) = takes_value steps
takes_value (take g t ∷ steps) = all_turn steps
takes_value (take_int g test ∷ steps) = all_turn steps
takes_value (take_float g test ∷ steps) = all_turn steps
takes_value _ = false

module _ (f : Float) (go : Strconv f.F) where
  assign_step : Step → String → S f go → S f go
  assign_step (turn field b) v s = set_flag s field b
  assign_step (take field t) v s = set_text s field (transform f go t v)
  assign_step (take_int field test) v s = store_int f go field test (atoi (codes v)) s
  assign_step (take_float field test) v s = store_float f go field test (go.parse_float v) s
  assign_step _ v s = s

  unfoldable pub assign : List Step → String → S f go → S f go
  unfolding assign_step
  assign [] v s = s
  assign (step ∷ steps) v s = assign steps v (assign_step step v s)

  run_steps-all_turn :
      (steps : List Step) (name v : String) (s : S f go) (rest : List String)
      → all_turn steps ≡ true
      → run_steps f go steps name s rest ≡ ok (assign steps v s, rest)
  unfolding run_steps assign read reading and_then
  run_steps-all_turn [] name v s rest h = refl
  run_steps-all_turn (turn g b ∷ steps) name v s rest h =
      run_steps-all_turn steps name v (set_flag s g b) rest h
  run_steps-all_turn (_ ∷ steps) name v s rest h = absurd (cc h)

  run_steps-takes_value :
      (steps : List Step) (name v : String) (s : S f go) (rest : List String)
      → takes_value steps ≡ true
      → run_steps f go steps name s (v ∷ rest) ≡ ok (assign steps v s, rest)
  unfolding run_steps assign read reading and_then shift_value
  run_steps-takes_value [] name v s rest h = absurd (cc h)
  run_steps-takes_value (turn g b ∷ steps) name v s rest h =
      run_steps-takes_value steps name v (set_flag s g b) rest h
  run_steps-takes_value (take g t ∷ steps) name v s rest h =
      run_steps-all_turn steps name v (assign_step (take g t) v s) rest h
  run_steps-takes_value (take_int g t ∷ steps) name v s rest h =
      run_steps-all_turn steps name v (assign_step (take_int g t) v s) rest h
  run_steps-takes_value (take_float g t ∷ steps) name v s rest h =
      run_steps-all_turn steps name v (assign_step (take_float g t) v s) rest h
  run_steps-takes_value (_ ∷ steps) name v s rest h = absurd (cc h)

  module _ (table : List Case) where
    -- A flag alone, and a flag with its value, at the front of the arguments.
    pub parse-bare :
        (name : String) (steps : List Step) (s : Settings f.F) (rest : List String)
        → find_case table name ≡ some steps
        → all_turn steps ≡ true
        → parse f go table s (name ∷ rest) ≡ parse f go table (assign steps "" s) rest
    unfolding parse parse_loop run_found continue
    parse-bare name steps s rest found h = rw found (
        ap (continue f go (parse_loop f go table (length rest)))
          (run_steps-all_turn steps name "" s rest h))

    pub parse-value :
        (name v : String) (steps : List Step) (s : Settings f.F) (rest : List String)
        → find_case table name ≡ some steps
        → takes_value steps ≡ true
        → parse f go table s (name ∷ v ∷ rest) ≡ parse f go table (assign steps v s) rest
    unfolding parse parse_loop run_found continue
    parse-value name v steps s rest found h = rw found (
        ap (continue f go (parse_loop f go table (suc (length rest))))
          (run_steps-takes_value steps name v s rest h)
        ∙ parse_loop_fuel f go table (suc (length rest)) (length rest) (assign steps v s) rest
            (omega arith) (omega arith))

  module _ (g : String) where
    assign_step-IsSame :
        (step : Step) (v : String) (s : S f go)
        → assigns g step ≡ false
        → IsSame f go g s (assign_step step v s)
    unfolding assign_step
    assign_step-IsSame (turn field b) v s h = ground (arith, h)
    assign_step-IsSame (take field t) v s h = ground (arith, h)
    assign_step-IsSame (take_int field test) v s h =
        store_int-IsSame f go g field test (atoi (codes v)) s h
    assign_step-IsSame (take_float field test) v s h =
        store_float-IsSame f go g field test (go.parse_float v) s h
    assign_step-IsSame _ v s h = (refl, refl, refl, refl)

    pub assign-IsSame :
        (steps : List Step) (v : String) (s : S f go)
        → some_assigns g steps ≡ false
        → IsSame f go g s (assign steps v s)
    unfolding assign
    assign-IsSame [] v s h = (refl, refl, refl, refl)
    assign-IsSame (step ∷ steps) v s h =
        let now : assigns g step ≡ false = ground (arith, h) in
        let later : some_assigns g steps ≡ false = ground (arith, h) in
        let first = assign_step-IsSame step v s now in
        let last = assign-IsSame steps v (assign_step step v s) later in
        (last.0 ∙ first.0, last.1 ∙ first.1, last.2 ∙ first.2, last.3 ∙ first.3)
