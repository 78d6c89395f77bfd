-- ===== src/Cli/Parse/Reads.antt =====
-- What the cases of Parse read of the arguments.
use yage.Prelude.{
  ℕ, ◌≤◌, String, true, Option, none, some, List, [], ◌∷◌, ◌++◌, length, ◌≡◌, refl, ◌∙◌, ap, arith,
  Bool-cases, inl, inr,
}
use text.Mathlib.Text.{starts_with}
use yage.Float.{Float}
use yage.Settings.{Strconv}
use yage.Cli.Steps.{
  Result, ok, exit, with_rest, shift_value, opt_positional, Reading, reads_none, reads_value,
  reads_optional, exits, read, Step, S, reading, and_then, run_steps,
}
use yage.Cli.Parse.{run_found}

-- No argument, or one that an optional value leaves alone.
abbrev pub IsFlagFirst : List String → Type 0
IsFlagFirst [] = Unit
IsFlagFirst (v ∷ rest) = starts_with v "--" ≡ true

abbrev pub IsOk : {A : Type 0} → Result A → Type 0
IsOk (ok a) = Unit
IsOk (exit e) = ⊥

module _ {T : Type 0} where
  abbrev pub more_left : List String → Result (T × List String) → Result (T × List String)
  more_left more (ok (t, left)) = ok (t, left ++ more)
  more_left more (exit e) = exit e

  with_rest-append :
      (rest more : List String) (r : Result T)
      → with_rest (rest ++ more) r ≡ more_left more (with_rest rest r)
  with_rest-append rest more (ok s) = refl
  with_rest-append rest more (exit e) = refl

  -- What a statement has read stays read when more arguments follow.
  read-append :
      (r : Reading T) (name : String) (rest more : List String)
      → IsFlagFirst more
      → IsOk (read r name rest)
      → read r name (rest ++ more) ≡ more_left more (read r name rest)
  unfolding read shift_value opt_positional
  read-append (reads_none s) name rest more first fine = refl
  read-append (reads_value g) name [] more first fine = absurd fine
  read-append (reads_value g) name (v ∷ rest) more first fine = with_rest-append rest more (g v)
  read-append (reads_optional g) name [] [] first fine = with_rest-append [] [] (g none)
  read-append (reads_optional g) name [] (v ∷ more) first fine =
      rw first (with_rest-append [] (v ∷ more) (g none))
  read-append (reads_optional g) name (v ∷ rest) more first fine =
      elim (Bool-cases (starts_with v "--")) [
        | inl e ↦ rw e (with_rest-append (v ∷ rest) more (g none))
        | inr e ↦ rw e (with_rest-append rest more (g (some v)))
      ]
  read-append (exits e) name rest more first fine = absurd fine

  abbrev pub IsWithin : ℕ → Result (T × List String) → Type 0
  IsWithin n (ok (t, left)) = length left ≤ n
  IsWithin n (exit e) = Unit

  with_rest-IsWithin :
      (rest : List String) (n : ℕ) (r : Result T) → length rest ≤ n → IsWithin n (with_rest rest r)
  with_rest-IsWithin rest n (ok s) h = h
  with_rest-IsWithin rest n (exit e) h = tt

  read-IsWithin :
      (r : Reading T) (name : String) (rest : List String) (n : ℕ)
      → length rest ≤ n
      → IsWithin n (read r name rest)
  unfolding read shift_value opt_positional
  read-IsWithin (reads_none s) name rest n h = h
  read-IsWithin (reads_value g) name [] n h = tt
  read-IsWithin (reads_value g) name (v ∷ rest) n h = with_rest-IsWithin rest n (g v) (omega arith)
  read-IsWithin (reads_optional g) name [] n h = with_rest-IsWithin [] n (g none) h
  read-IsWithin (reads_optional g) name (v ∷ rest) n h = elim (Bool-cases (starts_with v "--")) [
    | inl e ↦ rw e (with_rest-IsWithin (v ∷ rest) n (g none) h)
    | inr e ↦ rw e (with_rest-IsWithin rest n (g (some v)) (omega arith))
  ]
  read-IsWithin (exits e) name rest n h = tt

module _ (f : Float) (go : Strconv f.F) where
  abbrev Next : Type 0
  Next = S f go → List String → Result (S f go × List String)

  and_then-IsOk :
      (next : Next) (out : Result (S f go × List String)) → IsOk (and_then f go next out) → IsOk out
  unfolding and_then
  and_then-IsOk next (ok r) fine = tt
  and_then-IsOk next (exit e) fine = fine

  and_then-append :
      (next : Next) (more : List String) (out : Result (S f go × List String))
      → ((t : S f go) (left : List String)
          → IsOk (next t left)
          → next t (left ++ more) ≡ more_left more (next t left))
      → IsOk (and_then f go next out)
      → and_then f go next (more_left more out) ≡ more_left more (and_then f go next out)
  unfolding and_then
  and_then-append next more (ok (t, left)) again fine = again t left fine
  and_then-append next more (exit e) again fine = absurd fine

  pub run_steps-append :
      (steps : List Step) (name : String) (s : S f go) (rest more : List String)
      → IsFlagFirst more
      → IsOk (run_steps f go steps name s rest)
      → run_steps f go steps name s (rest ++ more)
        ≡ more_left more (run_steps f go steps name s rest)
  unfolding run_steps
  run_steps-append [] name s rest more first fine = refl
  run_steps-append (step ∷ steps) name s rest more first fine =
      let r = reading f go step s in
      let next = run_steps f go steps name in
      ap (and_then f go next)
        (read-append r name rest more first (and_then-IsOk next (read r name rest) fine))
      ∙ and_then-append next more (read r name rest)
          (λ t left. run_steps-append steps name t left more first) fine

  and_then-IsWithin :
      (next : Next) (n : ℕ) (out : Result (S f go × List String))
      → ((t : S f go) (left : List String) → length left ≤ n → IsWithin n (next t left))
      → IsWithin n out
      → IsWithin n (and_then f go next out)
  unfolding and_then
  and_then-IsWithin next n (ok (t, left)) again h = again t left h
  and_then-IsWithin next n (exit e) again h = tt

  run_steps-IsWithin :
      (steps : List Step) (name : String) (s : S f go) (rest : List String) (n : ℕ)
      → length rest ≤ n
      → IsWithin n (run_steps f go steps name s rest)
  unfolding run_steps
  run_steps-IsWithin [] name s rest n h = h
  run_steps-IsWithin (step ∷ steps) name s rest n h =
      and_then-IsWithin (run_steps f go steps name) n (read (reading f go step s) name rest)
        (λ t left. run_steps-IsWithin steps name t left n)
        (read-IsWithin (reading f go step s) name rest n h)

  pub run_found-append :
      (found : Option (List Step)) (name : String) (s : S f go) (rest more : List String)
      → IsFlagFirst more
      → IsOk (run_found f go found name s rest)
      → run_found f go found name s (rest ++ more)
        ≡ more_left more (run_found f go found name s rest)
  unfolding run_found
  run_found-append none name s rest more first fine = absurd fine
  run_found-append (some steps) name s rest more first fine =
      run_steps-append steps name s rest more first fine

  pub run_found-IsWithin :
      (found : Option (List Step)) (name : String) (s : S f go) (rest : List String)
      → IsWithin (length rest) (run_found f go found name s rest)
  unfolding run_found
  run_found-IsWithin none name s rest = tt
  run_found-IsWithin (some steps) name s rest =
      run_steps-IsWithin steps name s rest (length rest) (omega arith)
