-- ===== src/Cli/Examples.antt =====
-- The command line at concrete arguments and settings.
use yage.Prelude.{
  ℕ, ◌^◌, ◌<◌, String, true, false, none, some, List, [], ◌∷◌, ◌++◌, ◌≡◌, refl, pos, All, arith, ap,
  Bool-cases, inl, inr, ◌==◌, if◌then◌else◌,
}
use yage.Text.{codes, atoi}
use yage.Float.{IsLe}
use yage.Float.Thousandths.{Amount, thousandths, thousandths-IsIeee}
use yage.Settings.{Settings, set_text}
use yage.Settings.Trim.{trim_space}
use yage.Settings.Sample.{strconv, parse_empty, parse-format, blank, lab}
use yage.Cli.Steps.{Result, ok, exit, die, unknown_option, missing_value, take, as_is}
use yage.Cli.Flags.{cases}
use yage.Cli.Parse.{find_case, parse}
use yage.Cli.Parse.Loop.{parse_terminates, parse-append}
use yage.Cli.Parse.Assigns.{IsSame}
use yage.Cli.Parse.Frame.{parse_kept, flag_assigns}
use yage.Cli.Parse.Errors.{parse-unknown_option, parse-missing_value}
use yage.Cli.Entry.{Entry}
use yage.Cli.Render.{as_env, raw, render_command}
use yage.Cli.Render.Sections.{entries}
use yage.Cli.Shell.{shell_words}
use yage.Cli.Words.{entry_words, shell_words-render_command}
use yage.Cli.Replay.{steps_of}
use yage.Cli.RoundTrip.Fields.{IsStrconv}
use yage.Cli.RoundTrip.Restored.{IsRestored, IsRanged}
use yage.Cli.RoundTrip.Command.{parse-render_command}
use yage.Cli.RoundTrip.Unknown.{render_command-aws_zones, render_command-hetzner_token}

abbrev gateway : List String
gateway = "--gateway" ∷ "10.0.0.1" ∷ []

abbrev with_gateway : Settings Amount
with_gateway = record blank {
  texts = λ g. if "Gateway" == g then "10.0.0.1" else "";
  flags = λ g. if "GatewayExplicit" == g then true else false;
}

gateway-parsed : parse thousandths strconv cases blank gateway ≡ some (ok with_gateway)
unfolding parse
gateway-parsed = refl

parse_terminates_example :
    (r : Result (Settings Amount)) × (parse thousandths strconv cases blank gateway ≡ some r)
parse_terminates_example = parse_terminates thousandths strconv cases blank gateway

parse-append_example :
    parse thousandths strconv cases blank (gateway ++ "--dry-run" ∷ [])
    ≡ parse thousandths strconv cases with_gateway ("--dry-run" ∷ [])
parse-append_example =
    parse-append thousandths strconv cases blank with_gateway gateway ("--dry-run" ∷ []) refl
      gateway-parsed

gateway-spares : All (λ (a : String). flag_assigns cases "KindConfig" a ≡ false) gateway
unfolding find_case
gateway-spares = (refl, (refl, tt))

parse_kept_example : IsSame thousandths strconv "KindConfig" blank with_gateway
parse_kept_example =
    parse_kept thousandths strconv "KindConfig" cases blank with_gateway gateway gateway-spares
      gateway-parsed

unknown_bridges : find_case cases "--bridges" ≡ none
unfolding find_case
unknown_bridges = refl

parse-unknown_option_example :
    parse thousandths strconv cases blank (gateway ++ "--bridges" ∷ "vmbr0" ∷ [])
    ≡ some (exit (die (unknown_option "--bridges")))
parse-unknown_option_example =
    parse-unknown_option thousandths strconv cases blank with_gateway gateway ("vmbr0" ∷ [])
      "--bridges" gateway-parsed refl unknown_bridges

bridge-steps : find_case cases "--bridge" ≡ some (take "Providers.Proxmox.Bridge" as_is ∷ [])
unfolding find_case
bridge-steps = refl

parse-missing_value_example :
    parse thousandths strconv cases blank (gateway ++ "--bridge" ∷ [])
    ≡ some (exit (die (missing_value "--bridge")))
parse-missing_value_example =
    parse-missing_value thousandths strconv cases blank with_gateway gateway "--bridge"
      (take "Providers.Proxmox.Bridge" as_is ∷ []) gateway-parsed refl bridge-steps refl

abbrev no_variables : String → String
no_variables name = ""

shell_words-render_command_example :
    shell_words no_variables (render_command thousandths strconv raw (some lab))
    ≡ some ("yage" ∷ entry_words thousandths strconv raw no_variables lab (entries "proxmox"))
shell_words-render_command_example =
    shell_words-render_command thousandths strconv raw no_variables lab

strconv-IsStrconv : IsStrconv thousandths strconv
strconv-IsStrconv = record { parse_empty = parse_empty; parse-format = parse-format }

lab-IsRanged : IsRanged thousandths strconv raw no_variables lab
lab-IsRanged = (float_is_number, int_fits)
  where
    float_is_number : (g : String) → IsLe thousandths (lab.floats g) (lab.floats g)
    float_is_number g = elim (Bool-cases ("HardwareWatts" == g)) [
      | inl e ↦ rw e refl
      | inr e ↦ rw e refl
    ]

    int_fits : (g : String) (n : ℕ) → lab.ints g ≡ pos n → n < 2 ^ 63
    int_fits g n h = elim (Bool-cases ("PostgresMemoryMiBOverride" == g)) [
      | inl e ↦
          let at : n ≡ 512 = cc (h, e, ap (λ b. if b then pos 512 else pos 0) e) in
          omega (arith, at)
      | inr e ↦
          let at : n ≡ 0 = cc (h, e, ap (λ b. if b then pos 512 else pos 0) e) in omega (arith, at)
    ]

parse-render_command_example :
    (argv : List String) × (t : Settings Amount) × (shell_words no_variables
        (render_command thousandths strconv raw (some lab))
      ≡ some ("yage" ∷ argv))
    × (parse thousandths strconv cases blank argv ≡ some (ok t))
    × All
        (λ (e : Entry).
          IsRestored thousandths strconv raw no_variables lab (steps_of cases e) blank t e)
        (entries "proxmox")
parse-render_command_example =
    parse-render_command thousandths strconv raw no_variables lab blank thousandths-IsIeee
      strconv-IsStrconv lab-IsRanged refl refl

abbrev zones : Settings Amount
zones = set_text (set_text blank "InfraProvider" "aws") "Providers.AWS.Route53HostedZones" " 2"

two_zones :
    atoi (codes (trim_space (zones.texts "Providers.AWS.Route53HostedZones"))) ≡ some (pos 2)
unfolding trim_space atoi
two_zones = refl

render_command-aws_zones_example :
    (argv : List String) × (shell_words no_variables
        (render_command thousandths strconv raw (some zones))
      ≡ some ("yage" ∷ argv))
    × (parse thousandths strconv cases blank argv
        ≡ some (exit (die (unknown_option "--aws-route53-hosted-zones"))))
render_command-aws_zones_example =
    render_command-aws_zones thousandths strconv raw no_variables zones blank 1 refl two_zones

abbrev cloud : Settings Amount
cloud = set_text (set_text blank "InfraProvider" "hetzner") "Providers.Hetzner.Token" "abc"

render_command-hetzner_token_example :
    (argv : List String) × (shell_words no_variables
        (render_command thousandths strconv as_env (some cloud))
      ≡ some ("yage" ∷ argv))
    × (parse thousandths strconv cases blank argv
        ≡ some (exit (die (unknown_option "--hcloud-token"))))
render_command-hetzner_token_example =
    render_command-hetzner_token thousandths strconv as_env no_variables cloud blank refl refl
