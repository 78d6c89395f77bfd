-- ===== src/ConfigFile/Path.antt =====
-- The argument "--config=path": ConfigFilePath reads it, and Parse does not.
use yage.Prelude.{
  String, Bool, true, false, ◌&&◌, Option, none, some, List, [], ◌∷◌, ◌==◌, eq_iff, contains, ◌≡◌,
  refl, ap, arith, Bool-cases, inl, inr,
}
use yage.Float.{Float}
use yage.Settings.{Settings, Strconv}
use yage.Settings.Join.{◌<>◌}
use yage.Load.{Environment}
use yage.Cli.Steps.{exit, die, unknown_option, Case}
use yage.Cli.Flags.{cases}
use yage.Cli.Parse.{find_case, parse, parse_loop, run_found, continue}
use yage.ConfigFile.{strip_prefix, config_file_path, with_value, first_some}

abbrev is_none : Option String → Bool
is_none none = true
is_none (some s) = false

abbrev lack : List String → Bool
lack [] = true
lack (name ∷ names) = let rest = lack names in is_none (strip_prefix "--config=" name) && rest

abbrev all_lack : List Case → Bool
all_lack [] = true
all_lack (c ∷ cs) = let rest = all_lack cs in lack c.spellings && rest

no_flag_has_it : all_lack cases ≡ true
unfolding strip_prefix
no_flag_has_it = refl

strip_config : (path : String) → strip_prefix "--config=" ("--config=" <> path) ≡ some path
unfolding strip_prefix
strip_config path = refl

name_differs :
    (name path : String)
    → is_none (strip_prefix "--config=" name) ≡ true
    → (name == ("--config=" <> path)) ≡ false
name_differs name path h = elim (Bool-cases (name == ("--config=" <> path))) [
  | inl e ↦
      let same = (eq_iff name ("--config=" <> path)).0 e in
      absurd (
        cc (h, ap (λ n. is_none (strip_prefix "--config=" n)) same, ap is_none (strip_config path)))
  | inr e ↦ e
]

lack-contains :
    (names : List String) (path : String)
    → lack names ≡ true
    → contains names ("--config=" <> path) ≡ false
unfolding contains
lack-contains [] path h = refl
lack-contains (name ∷ names) path h =
    let now : is_none (strip_prefix "--config=" name) ≡ true = ground (arith, h) in
    let later : lack names ≡ true = ground (arith, h) in
    rw (name_differs name path now) (lack-contains names path later)

all_lack-find_case :
    (cs : List Case) (path : String)
    → all_lack cs ≡ true
    → find_case cs ("--config=" <> path) ≡ none
unfolding find_case
all_lack-find_case [] path h = refl
all_lack-find_case (c ∷ cs) path h =
    let now : lack c.spellings ≡ true = ground (arith, h) in
    let later : all_lack cs ≡ true = ground (arith, h) in
    rw (lack-contains c.spellings path now) (all_lack-find_case cs path later)

no_value : (rest : List String) (path : String) → with_value ("--config=" <> path) rest ≡ none
unfolding strip_prefix
no_value [] path = refl
no_value (v ∷ rest) path = elim (Bool-cases (("--config=" <> path) == "--config")) [
  | inl e ↦
      let same = (eq_iff ("--config=" <> path) "--config").0 e in
      absurd (
        cc (
          ap (λ n. is_none (strip_prefix "--config=" n)) same,
          lacking,
          ap is_none (strip_config path),
        ))
  | inr e ↦ rw e refl
]
  where
    lacking : is_none (strip_prefix "--config=" "--config") ≡ true
    lacking = refl

-- With "--config=" and a path in front, ConfigFilePath gives the path, and Parse ends with the error
-- that the option is unknown.
pub config_file_path-equals :
    (f : Float) (go : Strconv f.F) (env : Environment) (s : Settings f.F) (path : String)
    (rest : List String)
    → (config_file_path env (("--config=" <> path) ∷ rest) ≡ path)
      × (parse f go cases s (("--config=" <> path) ∷ rest)
          ≡ some (exit (die (unknown_option ("--config=" <> path)))))
unfolding config_file_path strip_prefix parse parse_loop run_found continue
config_file_path-equals f go env s path rest = (
  ap
      (λ o.
        first_some o (strip_prefix "--config=" ("--config=" <> path)) (config_file_path env rest))
      (no_value rest path),
  rw (all_lack-find_case cases path no_flag_has_it) refl,
)
