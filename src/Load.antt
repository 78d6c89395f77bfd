-- ===== src/Load.antt =====
-- internal/config/config.go: Load reads the environment into a new configuration. The environment
-- and the keyring of the operating system are functions; a variable that is not set, and a key that
-- the keyring does not have, is `none`.
pub mod Syntax
pub mod Table
pub mod Laws
pub mod Back
mod Examples
use Prim.Native.Char.{Char, code}
use yage.Prelude.{
  ℕ, String, Bool, true, false, not, ◌||◌, Option, none, some, List, [], ◌∷◌, ◌++◌, pos, eqb, ◌==◌,
  if◌then◌else◌,
}
use yage.Float.{Float}
use yage.Settings.{Settings, Strconv, set_text, set_flag, set_int, set_float}
use yage.Settings.Trim.{trim_space, trim_slashes}
use yage.Settings.Join.{◌<>◌}
use yage.Load.Syntax.{
  Expression, lit, of_field, plus, getenv, getenv_keep, os_getenv, first_non_empty, trim, lower,
  upper, trim_slash, Test, env_bool, loose_or_set, is_set, Statement, set_str, set_bool, set_number,
  set_whole, fill, from_keyring, when_unset, csi_drivers,
}

-- An environment, or a keyring.
abbrev pub Environment : Type 0
Environment = String → Option String

abbrev pub text_or : Option String → String → String
text_or none default = default
text_or (some v) default = v

-- getenv
unfoldable pub non_empty_or : Option String → String → String
non_empty_or none default = default
non_empty_or (some v) default = if v == "" then default else v

-- envBool
unfoldable pub bool_or : Option String → Bool → Bool
bool_or none default = default
bool_or (some v) default =
    if v == "true" || v == "1" || v == "yes" || v == "y" || v == "on" || v == "TRUE"
    then true
    else if v == "false" || v == "0" || v == "no" || v == "n" || v == "off" || v == "FALSE"
    then false
    else default

-- envBoolLoose
unfoldable pub loose_bool_or : Option String → Bool → Bool
loose_bool_or none default = default
loose_bool_or (some v) default =
    if v == "1" || v == "true" || v == "TRUE" || v == "yes" || v == "on"
    then true
    else if v == "0" || v == "false" || v == "FALSE" || v == "no" || v == "off"
    then false
    else default

-- strings.Split(v, ","), each part trimmed, and no empty ones
comma_cut : String → String × List String
comma_cut String.[] = ("", [])
comma_cut (String.◌∷◌ c s) =
    let (part, rest) = comma_cut s in
    if eqb (code c) b',' then ("", part ∷ rest) else (String.◌∷◌ c part, rest)

trimmed_parts : List String → List String
unfolding trim_space
trimmed_parts [] = []
trimmed_parts (p ∷ ps) =
    let rest = trimmed_parts ps in if trim_space p == "" then rest else trim_space p ∷ rest

unfoldable pub driver_names : String → List String
unfolding comma_cut trimmed_parts
driver_names v = let (part, rest) = comma_cut v in trimmed_parts (part ∷ rest)

abbrev parsed_or : {F : Type 0} → Option F → F → F
parsed_or none default = default
parsed_or (some x) default = x

module _ (f : Float) (go : Strconv f.F) (env keyring : Environment) where
  unfoldable pub float_or : Option String → f.F → f.F
  unfolding trim_space
  float_or none default = default
  float_or (some v) default =
      if trim_space v == "" then default else parsed_or (go.parse_float (trim_space v)) default

  unfoldable pub evaluate : Expression → Settings f.F → String
  unfolding non_empty_or trim_space trim_slashes
  evaluate (lit v) c = v
  evaluate (of_field field) c = c.texts field
  evaluate (plus a b) c = evaluate a c <> evaluate b c
  evaluate (getenv key e) c = non_empty_or (env key) (evaluate e c)
  evaluate (getenv_keep key e) c = text_or (env key) (evaluate e c)
  evaluate (os_getenv key) c = text_or (env key) ""
  evaluate (first_non_empty a b) c =
      let first = evaluate a c in let second = evaluate b c in if first == "" then second else first
  evaluate (trim e) c = trim_space (evaluate e c)
  evaluate (lower e) c = go.to_lower (evaluate e c)
  evaluate (upper e) c = go.to_upper (evaluate e c)
  evaluate (trim_slash e) c = trim_slashes (evaluate e c)

  unfoldable pub decide : Test → Bool
  unfolding bool_or loose_bool_or
  decide (env_bool key default) = bool_or (env key) default
  decide (loose_or_set key other) =
      loose_bool_or (env key) false || not (text_or (env other) "" == "")
  decide (is_set key) = not (text_or (env key) "" == "")

  abbrev pub fill_from : String → Option String → Settings f.F → Settings f.F
  fill_from field none c = c
  fill_from field (some v) c = set_text c field v

  abbrev pub mark_unset : String → Option String → Settings f.F → Settings f.F
  mark_unset field none c = set_flag c field true
  mark_unset field (some v) c = c

  unfoldable pub run : Statement → Settings f.F → Settings f.F
  unfolding evaluate decide float_or driver_names
  run (set_str field e) c = set_text c field (evaluate e c)
  run (set_bool field t) c = set_flag c field (decide t)
  run (set_number field key n d) c = set_float c field (float_or (env key) (f.lit n d))
  run (set_whole field key n) c = set_int c field (f.trunc (float_or (env key) (f.lit n 1)))
  run (fill field e) c = if c.texts field == "" then set_text c field (evaluate e c) else c
  run (from_keyring field key) c =
      if c.texts field == "" then fill_from field (keyring key) c else c
  run (when_unset key field) c = mark_unset field (env key) c
  run (csi_drivers key) c = record c { drivers = c.drivers ++ driver_names (text_or (env key) "") }

  unfoldable pub run_all : List Statement → Settings f.F → Settings f.F
  unfolding run
  run_all [] c = c
  run_all (s ∷ ss) c = run_all ss (run s c)

  -- &Config{}
  abbrev pub zero_config : Settings f.F
  zero_config = record {
    texts = λ field. "";
    flags = λ field. false;
    ints = λ field. pos 0;
    floats = λ field. f.lit 0 1;
    drivers = [];
    apps = [];
  }
