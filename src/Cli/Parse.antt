-- ===== src/Cli/Parse.antt =====
-- internal/ui/cli/parse.go: the loop of Parse over the arguments. A round takes an argument and
-- what its case reads, so the length of argv is fuel enough; `none` means that it ran out.
pub mod Reads
pub mod Loop
pub mod Assigns
pub mod Frame
pub mod Errors
use yage.Prelude.{
  ℕ, zero, suc, String, Bool, true, false, Option, none, some, List, [], ◌∷◌, length, contains,
  if◌then◌else◌,
}
use yage.Float.{Float}
use yage.Settings.{Settings, Strconv}
use yage.Cli.Steps.{Result, ok, exit, die, unknown_option, Step, Case, run_steps}

unfoldable pub find_case : List Case → String → Option (List Step)
unfolding contains
find_case [] name = none
find_case (c ∷ cs) name =
    let rest = find_case cs name in if contains c.spellings name then some c.steps else rest

module _ (f : Float) (go : Strconv f.F) where
  unfoldable pub run_found :
      Option (List Step) → String → Settings f.F → List String → Result (Settings f.F × List String)
  unfolding run_steps
  run_found none name s rest = exit (die (unknown_option name))
  run_found (some steps) name s rest = run_steps f go steps name s rest

  -- The rounds that follow a round, given as a function.
  unfoldable pub continue :
      (Settings f.F → List String → Option (Result (Settings f.F)))
      → Result (Settings f.F × List String)
      → Option (Result (Settings f.F))
  continue again (ok r) = again r.0 r.1
  continue again (exit e) = some (exit e)

module _ (f : Float) (go : Strconv f.F) (cases : List Case) where
  unfoldable pub parse_loop : ℕ → Settings f.F → List String → Option (Result (Settings f.F))
  unfolding find_case run_found continue
  parse_loop fuel s [] = some (ok s)
  parse_loop zero s (a ∷ rest) = none
  parse_loop (suc fuel) s (a ∷ rest) =
      continue f go (parse_loop fuel) (run_found f go (find_case cases a) a s rest)

  unfoldable pub parse : Settings f.F → List String → Option (Result (Settings f.F))
  unfolding parse_loop
  parse s argv = parse_loop (length argv) s argv
