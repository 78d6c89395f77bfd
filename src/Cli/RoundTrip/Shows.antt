-- ===== src/Cli/RoundTrip/Shows.antt =====
-- internal/ui/cli: what an emitter shows, given to the case of its flag.
use yage.Prelude.{
  zero, suc, ℤ, pos, negsuc, String, Bool, true, false, Option, none, some, List, ◌++◌, ◌==◌, ◌≡◌,
  refl, Bool-cases, inl, inr,
}
use yage.Text.{codes, atoi}
use yage.Float.{Float}
use yage.Settings.{Settings, Strconv}
use yage.Settings.Trim.{trim_space}
use yage.Settings.Itoa.{itoa}
use yage.Cli.Steps.{Step, Case}
use yage.Cli.Parse.{find_case, parse}
use yage.Cli.Parse.Assigns.{some_assigns, IsSame}
use yage.Cli.Entry.{
  Entry, flag, flag_int, flag_int_str, flag_float, flag_bool, flag_off, secret, secret_blank,
}
use yage.Cli.Render.{
  SensitiveMode, as_env, raw, masked, Shown, hidden, bare, placeholder, value, reference,
  flag_value, positive_value, parsed_positive, secret_value, shown_secret, shown,
}
use yage.Cli.Words.{words}
use yage.Cli.Replay.{all_turn, reads_back}
use yage.Cli.Assign.{takes_value, assign, parse-bare, parse-value, assign-IsSame}
use yage.Cli.RoundTrip.Fields.{
  takes_text-takes_value, takes_int-takes_value, takes_float-takes_value, turns-all_turn,
}

module _ (f : Float) (go : Strconv f.F) (mode : SensitiveMode) (env : String → String)
    (cfg : Settings f.F) where
  -- What is shown, given to the case of the flag.
  abbrev pub applied : Shown → List Step → Settings f.F → Settings f.F
  applied hidden steps s = s
  applied bare steps s = assign f go steps "" s
  applied placeholder steps s = assign f go steps "********" s
  applied (value v) steps s = assign f go steps v s
  applied (reference env_var) steps s = assign f go steps (env env_var) s

  abbrev pub here : Entry → Shown
  here e = shown f go mode cfg e

  abbrev pub fits : Shown → List Step → Bool
  fits hidden steps = true
  fits bare steps = all_turn steps
  fits _ steps = takes_value steps

  flag_value-fits :
      (v : String) (steps : List Step) → takes_value steps ≡ true → fits (flag_value v) steps ≡ true
  unfolding flag_value
  flag_value-fits v steps h = elim (Bool-cases (v == "")) [ inl e ↦ rw e refl | inr e ↦ rw e h ]

  positive-fits :
      (n : Option ℤ) (steps : List Step)
      → takes_value steps ≡ true
      → fits (parsed_positive n) steps ≡ true
  unfolding positive_value
  positive-fits none steps h = refl
  positive-fits (some (pos zero)) steps h = refl
  positive-fits (some (pos (suc n))) steps h = flag_value-fits (itoa (suc n)) steps h
  positive-fits (some (negsuc n)) steps h = refl

  secret_value-fits :
      (m : SensitiveMode) (v env_var : String) (steps : List Step)
      → takes_value steps ≡ true
      → fits (secret_value m v env_var) steps ≡ true
  unfolding secret_value
  secret_value-fits m v env_var steps h = elim (Bool-cases (v == "")) [
    | inl e ↦ rw e refl
    | inr e ↦ rw e (go_on m)
  ]
    where
      go_on : (k : SensitiveMode) → fits (shown_secret k v env_var) steps ≡ true
      go_on raw = h
      go_on masked = h
      go_on as_env = elim (Bool-cases (env_var == "")) [ inl e ↦ rw e h | inr e ↦ rw e h ]

  pub reads_back-fits :
      (e : Entry) (steps : List Step) → reads_back e steps ≡ true → fits (here e) steps ≡ true
  unfolding shown
  reads_back-fits (flag name field) steps h =
      flag_value-fits (cfg.texts field) steps (takes_text-takes_value field steps h)
  reads_back-fits (flag_int name field) steps h =
      positive-fits (some (cfg.ints field)) steps (takes_int-takes_value field steps h)
  reads_back-fits (flag_int_str name field) steps h =
      positive-fits (atoi (codes (trim_space (cfg.texts field)))) steps
        (takes_text-takes_value field steps h)
  reads_back-fits (flag_float name field) steps h =
      elim (Bool-cases (f.le (cfg.floats field) (f.lit 0 1))) [
        | inl e ↦ rw e refl
        | inr e ↦ rw e (
            flag_value-fits (go.format_float (cfg.floats field)) steps
              (takes_float-takes_value field steps h))
      ]
  reads_back-fits (flag_bool name field) steps h = elim (Bool-cases (cfg.flags field)) [
    | inl e ↦ rw e (turns-all_turn field true steps h)
    | inr e ↦ rw e refl
  ]
  reads_back-fits (flag_off name field) steps h = elim (Bool-cases (cfg.flags field)) [
    | inl e ↦ rw e refl
    | inr e ↦ rw e (turns-all_turn field false steps h)
  ]
  reads_back-fits (secret name field env_var) steps h =
      secret_value-fits mode (cfg.texts field) env_var steps (takes_text-takes_value field steps h)
  reads_back-fits (secret_blank name env_var) steps h = refl

  pub applied-IsSame :
      (g : String) (shows : Shown) (steps : List Step) (s : Settings f.F)
      → some_assigns g steps ≡ false
      → IsSame f go g s (applied shows steps s)
  applied-IsSame g hidden steps s h = (refl, refl, refl, refl)
  applied-IsSame g bare steps s h = assign-IsSame f go g steps "" s h
  applied-IsSame g placeholder steps s h = assign-IsSame f go g steps "********" s h
  applied-IsSame g (value v) steps s h = assign-IsSame f go g steps v s h
  applied-IsSame g (reference env_var) steps s h = assign-IsSame f go g steps (env env_var) s h

  pub parse-words :
      (table : List Case) (name : String) (shows : Shown) (steps : List Step) (s : Settings f.F)
      (rest : List String)
      → find_case table name ≡ some steps
      → fits shows steps ≡ true
      → parse f go table s (words env name shows ++ rest)
        ≡ parse f go table (applied shows steps s) rest
  parse-words table name hidden steps s rest found h = refl
  parse-words table name bare steps s rest found h = parse-bare f go table name steps s rest found h
  parse-words table name placeholder steps s rest found h =
      parse-value f go table name "********" steps s rest found h
  parse-words table name (value v) steps s rest found h =
      parse-value f go table name v steps s rest found h
  parse-words table name (reference env_var) steps s rest found h =
      parse-value f go table name (env env_var) steps s rest found h
