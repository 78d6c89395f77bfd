-- ===== src/Cli/Parse/Errors.antt =====
-- How Parse ends with an error.
use yage.Prelude.{String, Bool, true, false, none, some, List, [], ◌∷◌, ◌++◌, ◌≡◌, refl, ◌∙◌, ap}
use text.Mathlib.Text.{starts_with}
use yage.Float.{Float}
use yage.Settings.{Settings, Strconv}
use yage.Cli.Steps.{
  ok, exit, die, unknown_option, missing_value, read, shift_value, Step, turn, put, take, take_both,
  take_int, take_float, take_driver, take_gitops_mode, maybe_access, maybe_forward, maybe_rollout,
  maybe_backup, maybe_print_mode, take_archive, show_help, show_completion, refuse_removed, Case, S,
  reading, and_then, run_steps,
}
use yage.Cli.Parse.{find_case, run_found, continue, parse_loop, parse}
use yage.Cli.Parse.Loop.{parse-append}

-- Whether the first statement that reads an argument wants a value.
abbrev pub wants_value : List Step → Bool
wants_value (turn field b ∷ steps) = wants_value steps
wants_value (put field v ∷ steps) = wants_value steps
wants_value (take field t ∷ steps) = true
wants_value (take_both field other ∷ steps) = true
wants_value (take_int field test ∷ steps) = true
wants_value (take_float field test ∷ steps) = true
wants_value (take_driver ∷ steps) = true
wants_value (take_gitops_mode ∷ steps) = true
wants_value _ = false

module _ (f : Float) (go : Strconv f.F) (cases : List Case) where
  -- After arguments that are parsed, an argument with "--" in front that is no flag ends the
  -- process with an error, whatever follows it.
  pub parse-unknown_option :
      (s t : Settings f.F) (argv rest : List String) (a : String)
      → parse f go cases s argv ≡ some (ok t)
      → starts_with a "--" ≡ true
      → find_case cases a ≡ none
      → parse f go cases s (argv ++ a ∷ rest) ≡ some (exit (die (unknown_option a)))
  unfolding parse_loop parse run_found continue
  parse-unknown_option s t argv rest a done dashes unknown =
      parse-append f go cases s t argv (a ∷ rest) dashes done ∙ rw unknown refl

  run_steps-missing :
      (steps : List Step) (name : String) (s : S f go)
      → wants_value steps ≡ true
      → run_steps f go steps name s [] ≡ exit (die (missing_value name))
  unfolding run_steps and_then read shift_value reading
  run_steps-missing [] name s h = absurd (cc h)
  run_steps-missing (turn field b ∷ steps) name s h = run_steps-missing steps name _ h
  run_steps-missing (put field v ∷ steps) name s h = run_steps-missing steps name _ h
  run_steps-missing (take field t ∷ steps) name s h = refl
  run_steps-missing (take_both field other ∷ steps) name s h = refl
  run_steps-missing (take_int field test ∷ steps) name s h = refl
  run_steps-missing (take_float field test ∷ steps) name s h = refl
  run_steps-missing (take_driver ∷ steps) name s h = refl
  run_steps-missing (take_gitops_mode ∷ steps) name s h = refl
  run_steps-missing (maybe_access ∷ steps) name s h = absurd (cc h)
  run_steps-missing (maybe_forward ∷ steps) name s h = absurd (cc h)
  run_steps-missing (maybe_rollout ∷ steps) name s h = absurd (cc h)
  run_steps-missing (maybe_backup ∷ steps) name s h = absurd (cc h)
  run_steps-missing (maybe_print_mode ∷ steps) name s h = absurd (cc h)
  run_steps-missing (take_archive ∷ steps) name s h = absurd (cc h)
  run_steps-missing (show_help ∷ steps) name s h = absurd (cc h)
  run_steps-missing (show_completion ∷ steps) name s h = absurd (cc h)
  run_steps-missing (refuse_removed ∷ steps) name s h = absurd (cc h)

  -- A flag with "--" in front that wants a value and is the last argument, after arguments that
  -- are parsed, ends the process with an error.
  pub parse-missing_value :
      (s t : Settings f.F) (argv : List String) (a : String) (steps : List Step)
      → parse f go cases s argv ≡ some (ok t)
      → starts_with a "--" ≡ true
      → find_case cases a ≡ some steps
      → wants_value steps ≡ true
      → parse f go cases s (argv ++ a ∷ []) ≡ some (exit (die (missing_value a)))
  unfolding parse_loop parse run_found continue
  parse-missing_value s t argv a steps done dashes found wants =
      parse-append f go cases s t argv (a ∷ []) dashes done
      ∙ rw found
          (ap (λ r. continue f go (parse_loop f go cases 0) r) (run_steps-missing steps a t wants))
