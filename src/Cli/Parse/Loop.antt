-- ===== src/Cli/Parse/Loop.antt =====
-- The loop of Parse: it ends, and its parts compose.
use yage.Prelude.{
  ℕ, zero, suc, ◌+◌, ◌≤◌, String, Option, some, List, [], ◌∷◌, ◌++◌, length, length-append, ◌≡◌,
  refl, ◌∙◌, ap, arith,
}
use yage.Float.{Float}
use yage.Settings.{Settings, Strconv}
use yage.Cli.Steps.{Result, ok, exit, Case, S}
use yage.Cli.Parse.{find_case, run_found, continue, parse_loop, parse}
use yage.Cli.Parse.Reads.{
  IsFlagFirst, IsOk, IsWithin, more_left, run_found-append, run_found-IsWithin,
}

module _ (f : Float) (go : Strconv f.F) (cases : List Case) where
  abbrev Again : Type 0
  Again = S f go → List String → Option (Result (S f go))

  abbrev loop : ℕ → Again
  loop = parse_loop f go cases

  continue-total :
      (again : Again) (n : ℕ) (out : Result (S f go × List String))
      → ((t : S f go) (left : List String)
          → length left ≤ n
          → (r : Result (S f go)) × (again t left ≡ some r))
      → IsWithin n out
      → (r : Result (S f go)) × (continue f go again out ≡ some r)
  unfolding continue
  continue-total again n (ok (t, left)) total h = total t left h
  continue-total again n (exit e) total h = (exit e, refl)

  parse_loop-total :
      (fuel : ℕ) (s : S f go) (argv : List String)
      → length argv ≤ fuel
      → (r : Result (S f go)) × (loop fuel s argv ≡ some r)
  unfolding parse_loop
  parse_loop-total fuel s [] h = (ok s, refl)
  parse_loop-total zero s (a ∷ rest) h = absurd (omega arith)
  parse_loop-total (suc fuel) s (a ∷ rest) h =
      continue-total (loop fuel) (length rest) (run_found f go (find_case cases a) a s rest)
        (λ t left k. parse_loop-total fuel t left (omega arith))
        (run_found-IsWithin f go (find_case cases a) a s rest)

  -- Parse ends, whatever the arguments are: with the settings, or by an exit.
  pub parse_terminates :
      (s : Settings f.F) (argv : List String)
      → (r : Result (Settings f.F)) × (parse f go cases s argv ≡ some r)
  unfolding parse
  parse_terminates s argv = parse_loop-total (length argv) s argv (omega arith)

  continue-same :
      (again other : Again) (n : ℕ) (out : Result (S f go × List String))
      → ((t : S f go) (left : List String) → length left ≤ n → again t left ≡ other t left)
      → IsWithin n out
      → continue f go again out ≡ continue f go other out
  unfolding continue
  continue-same again other n (ok (t, left)) same h = same t left h
  continue-same again other n (exit e) same h = refl

  pub parse_loop_fuel :
      (fuel more : ℕ) (s : S f go) (argv : List String)
      → length argv ≤ fuel
      → length argv ≤ more
      → loop fuel s argv ≡ loop more s argv
  unfolding parse_loop
  parse_loop_fuel fuel more s [] h k = refl
  parse_loop_fuel zero more s (a ∷ rest) h k = absurd (omega arith)
  parse_loop_fuel (suc fuel) zero s (a ∷ rest) h k = absurd (omega arith)
  parse_loop_fuel (suc fuel) (suc more) s (a ∷ rest) h k =
      continue-same (loop fuel) (loop more) (length rest)
        (run_found f go (find_case cases a) a s rest)
        (λ t left l. parse_loop_fuel fuel more t left (omega arith) (omega arith))
        (run_found-IsWithin f go (find_case cases a) a s rest)

  continue-append :
      (again : Again) (n : ℕ) (more : List String) (out : Result (S f go × List String))
      {t : S f go} {r : Option (Result (S f go))}
      → ((u : S f go) (left : List String)
          → length left ≤ n
          → again u left ≡ some (ok t)
          → again u (left ++ more) ≡ r)
      → IsWithin n out
      → continue f go again out ≡ some (ok t)
      → continue f go again (more_left more out) ≡ r
  unfolding continue
  continue-append again n more (ok (u, left)) next h done = next u left h done
  continue-append again n more (exit e) next h done = absurd (cc done)

  continue-IsOk :
      (again : Again) (out : Result (S f go × List String)) {t : S f go}
      → continue f go again out ≡ some (ok t)
      → IsOk out
  unfolding continue
  continue-IsOk again (ok r) done = tt
  continue-IsOk again (exit e) done = absurd (cc done)

  loop-append :
      (fuel : ℕ) (s t : S f go) (argv more : List String)
      → IsFlagFirst more
      → length argv + length more ≤ fuel
      → loop fuel s argv ≡ some (ok t)
      → loop fuel s (argv ++ more) ≡ parse f go cases t more
  unfolding parse_loop parse
  loop-append fuel s t [] more first h done =
      let same : s ≡ t = cc done in
      rw same (parse_loop_fuel fuel (length more) t more (omega arith) (omega arith))
  loop-append zero s t (a ∷ rest) more first h done = absurd (omega arith)
  loop-append (suc fuel) s t (a ∷ rest) more first h done =
      let out = run_found f go (find_case cases a) a s rest in
      ap (continue f go (loop fuel)) (
        run_found-append f go (find_case cases a) a s rest more first
          (continue-IsOk (loop fuel) out done))
      ∙ continue-append (loop fuel) (length rest) more out
          (λ u left l e. loop-append fuel u t left more first (omega arith) e)
          (run_found-IsWithin f go (find_case cases a) a s rest) done

  -- Where the first arguments are parsed, and no argument follows them or one that begins with
  -- "--", the parse of all is that of the rest in the settings reached.
  pub parse-append :
      (s t : Settings f.F) (argv more : List String)
      → IsFlagFirst more
      → parse f go cases s argv ≡ some (ok t)
      → parse f go cases s (argv ++ more) ≡ parse f go cases t more
  unfolding parse
  parse-append s t argv more first done = rw (length-append argv more) (
      loop-append (length argv + length more) s t argv more first (omega arith) (
        parse_loop_fuel (length argv + length more) (length argv) s argv (omega arith) (omega arith)
        ∙ done))
