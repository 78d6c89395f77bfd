-- ===== src/Cli/Render.antt =====
-- internal/ui/cli/render.go: the command that reproduces a configuration. A section's emitters are
-- a list of entries, each the emitter with its flag and its field. The texts are those of `cfg`.
pub mod Sections
use yage.Prelude.{
  ℕ, String, Bool, true, false, not, ◌&&◌, ◌||◌, Option, none, some, List, [], ◌∷◌, ◌++◌, ℤ, pos,
  negsuc, zero, suc, leb_ℤ, eqb, leb, ◌==◌, if◌then◌else◌,
}
use Prim.Native.Char.{Char, code}
use yage.Text.{codes, atoi}
use yage.Float.{Float}
use yage.Settings.{Settings, Strconv}
use yage.Settings.Trim.{trim_space}
use yage.Settings.Join.{◌<>◌, join}
use yage.Cli.Entry.{
  Entry, flag, flag_int, flag_int_str, flag_float, flag_bool, flag_off, secret, secret_blank,
}
use yage.Cli.Render.Sections.{entries}
use yage.Settings.Itoa.{itoa}

pub data SensitiveMode : Type 0 where
  as_env raw masked : SensitiveMode

-- What stands after the flag: nothing is printed, the flag alone, a value, a shell variable, or the
-- placeholder of a secret that has no variable.
pub data Shown : Type 0 where
  hidden bare placeholder : Shown
  value : String → Shown
  reference : String → Shown

unfoldable pub is_safe_char : ℕ → Bool
is_safe_char c =
    leb b'a' c && leb c b'z'
    || leb b'A' c && leb c b'Z'
    || leb b'0' c && leb c b'9'
    || eqb c b'-'
    || eqb c b'_'
    || eqb c b'.'
    || eqb c b'/'
    || eqb c b':'
    || eqb c b','
    || eqb c b'='
    || eqb c b'+'

unfoldable pub is_shell_safe : String → Bool
unfolding is_safe_char
is_shell_safe String.[] = true
is_shell_safe (String.◌∷◌ c s) = is_safe_char (code c) && is_shell_safe s

-- `strings.ReplaceAll(v, "'", "'\''")`
unfoldable pub escape_quotes : String → String
escape_quotes String.[] = ""
escape_quotes (String.◌∷◌ c s) =
    let rest = escape_quotes s in if eqb (code c) b'\'' then "'\\''" <> rest else String.◌∷◌ c rest

unfoldable pub shell_quote : String → String
unfolding is_shell_safe escape_quotes
shell_quote v =
    if v == "" then "''" else if is_shell_safe v then v else "'" <> (escape_quotes v <> "'")

unfoldable pub flag_value : String → Shown
flag_value v = if v == "" then hidden else value v

unfoldable pub positive_value : ℤ → Shown
unfolding flag_value
positive_value (pos (suc n)) = flag_value (itoa (suc n))
positive_value _ = hidden

abbrev pub parsed_positive : Option ℤ → Shown
parsed_positive none = hidden
parsed_positive (some n) = positive_value n

abbrev pub shown_secret : SensitiveMode → String → String → Shown
shown_secret raw v env_var = value v
shown_secret masked v env_var = value "********"
shown_secret as_env v env_var = if env_var == "" then placeholder else reference env_var

unfoldable pub secret_value : SensitiveMode → String → String → Shown
secret_value mode v env_var = if v == "" then hidden else shown_secret mode v env_var

abbrev pub name_of : Entry → String
name_of (flag name field) = name
name_of (flag_int name field) = name
name_of (flag_int_str name field) = name
name_of (flag_float name field) = name
name_of (flag_bool name field) = name
name_of (flag_off name field) = name
name_of (secret name field env_var) = name
name_of (secret_blank name env_var) = name

unfoldable pub line : String → Shown → List String
unfolding shell_quote
line name hidden = []
line name bare = ("    " <> name) ∷ []
line name placeholder = ("    " <> (name <> " \"********\"  # supply via env / vault")) ∷ []
line name (value v) = ("    " <> (name <> (" " <> shell_quote v))) ∷ []
line name (reference env_var) = ("    " <> (name <> (" \"$" <> (env_var <> "\"")))) ∷ []

module _ (f : Float) (go : Strconv f.F) (mode : SensitiveMode) where
  unfoldable pub shown : Settings f.F → Entry → Shown
  unfolding flag_value positive_value secret_value trim_space
  shown cfg (flag name field) = flag_value (cfg.texts field)
  shown cfg (flag_int name field) = positive_value (cfg.ints field)
  shown cfg (flag_int_str name field) =
      parsed_positive (atoi (codes (trim_space (cfg.texts field))))
  shown cfg (flag_float name field) =
      if f.le (cfg.floats field) (f.lit 0 1)
      then hidden
      else flag_value (go.format_float (cfg.floats field))
  shown cfg (flag_bool name field) = if cfg.flags field then bare else hidden
  shown cfg (flag_off name field) = if not (cfg.flags field) then bare else hidden
  shown cfg (secret name field env_var) = secret_value mode (cfg.texts field) env_var
  shown cfg (secret_blank name env_var) = secret_value mode "" env_var

  unfoldable pub entry_lines : Settings f.F → List Entry → List String
  unfolding shown line
  entry_lines cfg [] = []
  entry_lines cfg (e ∷ es) = line (name_of e) (shown cfg e) ++ entry_lines cfg es

  unfoldable pub render_command : Option (Settings f.F) → String
  unfolding entry_lines
  render_command none = "yage"
  render_command (some cfg) =
      join ("yage" ∷ entry_lines cfg (entries (cfg.texts "InfraProvider"))) " \\\n"
