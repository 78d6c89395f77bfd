-- ===== src/ConfigFile/Examples.antt =====
-- The configuration file's path at concrete arguments.
use yage.Prelude.{none, some, [], ◌∷◌, ◌≡◌}
use yage.Float.Thousandths.{thousandths}
use yage.Settings.Sample.{strconv, blank}
use yage.Settings.Join.{◌<>◌}
use yage.Load.{Environment}
use yage.Cli.Steps.{exit, die, unknown_option}
use yage.Cli.Flags.{cases}
use yage.Cli.Parse.{parse}
use yage.ConfigFile.{config_file_path}
use yage.ConfigFile.Path.{config_file_path-equals}

abbrev unset : Environment
unset key = none

config_file_path-equals_example :
    (config_file_path unset (("--config=" <> "lab.yaml") ∷ "--dry-run" ∷ []) ≡ "lab.yaml")
    × (parse thousandths strconv cases blank (("--config=" <> "lab.yaml") ∷ "--dry-run" ∷ [])
        ≡ some (exit (die (unknown_option ("--config=" <> "lab.yaml")))))
config_file_path-equals_example =
    config_file_path-equals thousandths strconv unset blank "lab.yaml" ("--dry-run" ∷ [])
