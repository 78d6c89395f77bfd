-- ===== src/Cli/Steps.antt =====
-- internal/ui/cli/parse.go: what the cases of Parse's switch do. A case is its flags and its
-- statements in order. `rest` is argv[i+1:]; taking a value makes it shorter. The log lines of
-- logx.Warn are left out.
use yage.Prelude.{
  String, Bool, true, ◌||◌, Option, none, some, List, [], ◌∷◌, ◌++◌, ℤ, pos, leb_ℤ, ◌==◌,
  if◌then◌else◌,
}
use text.Mathlib.Text.{starts_with}
use yage.Text.{codes, atoi}
use yage.Float.{Float}
use yage.Settings.{Settings, set_text, set_flag, set_int, set_float, Strconv}
use yage.Settings.Trim.{trim_space, trim_slashes}

-- The messages of logx.Die, which ends the process.
pub data Failure : Type 0 where
  missing_value : String → Failure
  flag_removed : Failure
  wrong_gitops_mode : String → Failure
  no_archive : Failure
  wrong_print_mode : Failure
  no_shell : Failure
  wrong_shell : String → Failure
  unknown_option : String → Failure

-- How the process ends.
pub data Exit : Type 0 where
  die : Failure → Exit
  help : String → Exit
  completion : String → Exit

pub data Result (A : Type 0) : Type 0 where
  ok : A → Result A
  exit : Exit → Result A

pub data Transform : Type 0 where
  as_is lower trim trim_lower trim_upper trim_mirror : Transform

pub data IntTest : Type 0 where
  any_int int_not_negative : IntTest

pub data FloatTest : Type 0 where
  any_float float_not_negative float_positive : FloatTest

pub data Step : Type 0 where
  turn : String → Bool → Step
  put : String → String → Step
  take : String → Transform → Step
  take_both : String → String → Step
  take_int : String → IntTest → Step
  take_float : String → FloatTest → Step
  take_driver take_gitops_mode : Step
  maybe_access maybe_forward maybe_rollout maybe_backup maybe_print_mode : Step
  take_archive : Step
  show_help show_completion : Step
  refuse_removed : Step

pub record Case : Type 0 where
  pub spellings : List String
  pub steps : List Step

-- A case with one flag and one statement.
abbrev pub flag : String → Step → Case
flag name step = record { spellings = name ∷ []; steps = step ∷ [] }

abbrev pub int_allowed : IntTest → ℤ → Bool
int_allowed any_int n = true
int_allowed int_not_negative n = leb_ℤ (pos 0) n

abbrev pub with_rest : {S : Type 0} → List String → Result S → Result (S × List String)
with_rest rest (ok s) = ok (s, rest)
with_rest rest (exit e) = exit e

-- shiftVal, with the statement that uses the value
unfoldable pub shift_value :
    {S : Type 0} → String → (String → Result S) → List String → Result (S × List String)
shift_value name use_value [] = exit (die (missing_value name))
shift_value name use_value (v ∷ rest) = with_rest rest (use_value v)

-- optPositional, likewise
unfoldable pub opt_positional :
    {S : Type 0} → (Option String → Result S) → List String → Result (S × List String)
opt_positional use_value [] = with_rest [] (use_value none)
opt_positional use_value (v ∷ rest) =
    if starts_with v "--"
    then with_rest (v ∷ rest) (use_value none)
    else with_rest rest (use_value (some v))

-- What a statement reads of the arguments that follow.
pub data Reading (S : Type 0) : Type 0 where
  reads_none : S → Reading S
  reads_value : (String → Result S) → Reading S
  reads_optional : (Option String → Result S) → Reading S
  exits : (List String → Exit) → Reading S

unfoldable pub read : {S : Type 0} → Reading S → String → List String → Result (S × List String)
unfolding shift_value opt_positional
read (reads_none s) name rest = ok (s, rest)
read (reads_value use_value) name rest = shift_value name use_value rest
read (reads_optional use_value) name rest = opt_positional use_value rest
read (exits e) name rest = exit (e rest)

module _ (f : Float) (go : Strconv f.F) where
  unfoldable pub transform : Transform → String → String
  unfolding trim_space trim_slashes
  transform as_is v = v
  transform lower v = go.to_lower v
  transform trim v = trim_space v
  transform trim_lower v = go.to_lower (trim_space v)
  transform trim_upper v = go.to_upper (trim_space v)
  transform trim_mirror v = trim_slashes (trim_space v)

  abbrev pub float_allowed : FloatTest → f.F → Bool
  float_allowed any_float x = true
  float_allowed float_not_negative x = f.le (f.lit 0 1) x
  float_allowed float_positive x = f.lt (f.lit 0 1) x

  abbrev pub S : Type 0
  S = Settings f.F

  unfoldable pub store_int : String → IntTest → Option ℤ → S → S
  store_int field test none s = s
  store_int field test (some n) s = if int_allowed test n then set_int s field n else s

  unfoldable pub store_float : String → FloatTest → Option f.F → S → S
  store_float field test none s = s
  store_float field test (some x) s = if float_allowed test x then set_float s field x else s

  unfoldable pub set_access : Option String → S → S
  set_access none s = s
  set_access (some v) s =
      if v == "workload" || v == "kind" || v == "both"
      then set_text s "ArgoCD.PrintAccessTarget" "workload"
      else s

  unfoldable pub set_forward : Option String → S → S
  set_forward none s = s
  set_forward (some v) s =
      let forwarded = set_text s "ArgoCD.PortForwardTarget" "workload" in
      if v == "workload"
      then if s.texts "ArgoCD.PrintAccessTarget" == ""
        then set_text forwarded "ArgoCD.PrintAccessTarget" "workload"
        else forwarded
      else if v == "kind" || v == "both"
      then forwarded
      else s

  unfoldable pub set_rollout : Option String → S → S
  set_rollout none s = s
  set_rollout (some v) s =
      if v == "argocd" || v == "capi" || v == "all" then set_text s "WorkloadRolloutMode" v else s

  unfoldable pub set_backup : Option String → S → S
  set_backup none s = s
  set_backup (some v) s = set_text s "BootstrapKindBackupOut" v

  unfoldable pub set_print_mode : Option String → S → Result S
  unfolding trim_space
  set_print_mode none s = ok s
  set_print_mode (some v) s =
      let mode = go.to_lower (trim_space v) in
      if mode == "env" || mode == "raw" || mode == "masked"
      then ok (set_text s "PrintCommand" mode)
      else exit (die wrong_print_mode)

  unfoldable pub set_archive : Option String → S → Result S
  set_archive none s = exit (die no_archive)
  set_archive (some v) s =
      ok (set_text (set_text s "BootstrapKindStateOp" "restore") "BootstrapKindStatePath" v)

  unfoldable pub set_gitops_mode : String → S → Result S
  set_gitops_mode v s =
      if v == "caaph"
      then ok (set_text s "WorkloadGitopsMode" "caaph")
      else exit (die (wrong_gitops_mode v))

  unfoldable pub help_topic : List String → String
  help_topic [] = ""
  help_topic (v ∷ rest) = if starts_with v "-" then "" else v

  unfoldable pub complete : List String → Exit
  unfolding trim_space
  complete [] = die no_shell
  complete (shell ∷ rest) =
      let name = go.to_lower (trim_space shell) in
      if name == "bash" || name == "zsh" || name == "fish"
      then completion shell
      else die (wrong_shell shell)

  unfoldable pub reading : Step → S → Reading S
  unfolding transform store_int store_float set_access set_forward set_rollout set_backup
      set_print_mode set_archive set_gitops_mode help_topic complete
  reading (turn field b) s = reads_none (set_flag s field b)
  reading (put field v) s = reads_none (set_text s field v)
  reading (take field t) s = reads_value λ v. ok (set_text s field (transform t v))
  reading (take_both field other) s = reads_value λ v. ok (set_text (set_text s field v) other v)
  reading (take_int field test) s = reads_value λ v. ok (store_int field test (atoi (codes v)) s)
  reading (take_float field test) s =
      reads_value λ v. ok (store_float field test (go.parse_float v) s)
  reading take_driver s = reads_value λ v. ok (record s { drivers = s.drivers ++ v ∷ [] })
  reading take_gitops_mode s = reads_value λ v. set_gitops_mode v s
  reading maybe_access s = reads_optional λ v. ok (set_access v s)
  reading maybe_forward s = reads_optional λ v. ok (set_forward v s)
  reading maybe_rollout s = reads_optional λ v. ok (set_rollout v s)
  reading maybe_backup s = reads_optional λ v. ok (set_backup v s)
  reading maybe_print_mode s = reads_optional λ v. set_print_mode v s
  reading take_archive s = reads_optional λ v. set_archive v s
  reading show_help s = exits λ rest. help (help_topic rest)
  reading show_completion s = exits complete
  reading refuse_removed s = exits λ rest. die flag_removed

  -- The statements that follow, given as a function.
  unfoldable pub and_then :
      (S → List String → Result (S × List String))
      → Result (S × List String)
      → Result (S × List String)
  and_then next (ok (s, rest)) = next s rest
  and_then next (exit e) = exit e

  unfoldable pub run_steps : List Step → String → S → List String → Result (S × List String)
  unfolding reading read and_then
  run_steps [] name s rest = ok (s, rest)
  run_steps (step ∷ steps) name s rest =
      and_then (run_steps steps name) (read (reading step s) name rest)
