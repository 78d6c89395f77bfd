-- ===== src/Cli/RoundTrip/Unknown.antt =====
-- internal/ui/cli: printed flags that Parse does not know.
use yage.Prelude.{
  ℕ, suc, pos, String, true, false, none, some, List, [], ◌∷◌, ◌++◌, ◌==◌, if◌then◌else◌, ◌≡◌, refl,
  sym, ◌∙◌, ap,
}
use yage.Text.{codes, atoi}
use yage.Float.{Float}
use yage.Settings.{Settings, Strconv}
use yage.Settings.Trim.{trim_space}
use yage.Settings.Itoa.{itoa, itoa_filled}
use yage.Cli.Flags.{cases}
use yage.Cli.Parse.{find_case, parse}
use yage.Cli.Entry.{Entry, flag_int_str, secret}
use yage.Cli.Render.{
  shown_secret, SensitiveMode, as_env, raw, masked, hidden, value, flag_value, positive_value,
  parsed_positive, secret_value, name_of, shown, render_command,
}
use yage.Cli.Render.Sections.{shared_entries, entries}
use yage.Cli.Shell.{shell_words}
use yage.Cli.Words.{words, entry_words, every, shell_words-render_command}
use yage.Cli.Replay.{is_known}
use mathlib.Core.List.{append_assoc}
use text.Mathlib.Text.{starts_with}
use yage.Prelude.{take as first, drop}
use yage.Cli.Steps.{exit, die, unknown_option}
use yage.Cli.Parse.Errors.{parse-unknown_option}
use yage.Cli.Render.Sections.{aws_entries}
use yage.Cli.RoundTrip.Command.{replay, parse-replay}

module _ (f : Float) (go : Strconv f.F) (mode : SensitiveMode) (env : String → String)
    (cfg : Settings f.F) where
  entry_words-append :
      (es ds : List Entry)
      → entry_words f go mode env cfg (es ++ ds)
        ≡ entry_words f go mode env cfg es ++ entry_words f go mode env cfg ds
  unfolding entry_words
  entry_words-append [] ds = refl
  entry_words-append (e ∷ es) ds =
      ap (λ ws. words env (name_of e) (shown f go mode cfg e) ++ ws) (entry_words-append es ds)
      ∙ sym (append_assoc (words env (name_of e) (shown f go mode cfg e)) _ _)

  unknown_entry :
      (before : List Entry) (e : Entry) (after : List Entry) (s : Settings f.F) (x : String)
      → every (is_known cases) before ≡ true
      → find_case cases (name_of e) ≡ none
      → starts_with (name_of e) "--" ≡ true
      → words env (name_of e) (shown f go mode cfg e) ≡ name_of e ∷ x ∷ []
      → parse f go cases s (entry_words f go mode env cfg (before ++ e ∷ after))
        ≡ some (exit (die (unknown_option (name_of e))))
  unfolding entry_words
  unknown_entry before e after s x known unknown dashes printed =
      ap (parse f go cases s) (
        entry_words-append before (e ∷ after)
        ∙ ap
            (λ ws.
              entry_words f go mode env cfg before ++ (ws ++ entry_words f go mode env cfg after))
            printed)
      ∙ parse-unknown_option f go cases s (replay f go mode env cfg cases before s)
          (entry_words f go mode env cfg before) (x ∷ entry_words f go mode env cfg after)
          (name_of e) (parse-replay f go mode env cfg cases before s known) dashes unknown

  -- A command printed for aws with a positive number of hosted zones is not accepted: the shell
  -- reads its arguments, and Parse ends with the error that --aws-route53-hosted-zones is unknown.
  pub render_command-aws_zones :
      (s : Settings f.F) (n : ℕ)
      → cfg.texts "InfraProvider" ≡ "aws"
      → atoi (codes (trim_space (cfg.texts "Providers.AWS.Route53HostedZones")))
        ≡ some (pos (suc n))
      → (argv : List String) × (shell_words env (render_command f go mode (some cfg))
          ≡ some ("yage" ∷ argv))
        × (parse f go cases s argv
            ≡ some (exit (die (unknown_option "--aws-route53-hosted-zones"))))
  unfolding find_case shown positive_value flag_value
  render_command-aws_zones s n aws zones = (
    entry_words f go mode env cfg (entries (cfg.texts "InfraProvider")),
    shell_words-render_command f go mode env cfg,
    ap (λ p. parse f go cases s (entry_words f go mode env cfg (entries p))) aws
        ∙ unknown_entry (shared_entries ++ first 7 aws_entries)
            (flag_int_str "--aws-route53-hosted-zones" "Providers.AWS.Route53HostedZones")
            (drop 8 aws_entries) s (itoa (suc n)) refl refl refl
            (ap (λ o. words env "--aws-route53-hosted-zones" (parsed_positive o)) zones
              ∙ ap
                  (λ b.
                    words env "--aws-route53-hosted-zones"
                      (if b then hidden else value (itoa (suc n))))
                  (itoa_filled (suc n))),
  )

  -- A command printed for hetzner with a token is not accepted: the shell reads its arguments, and
  -- Parse ends with the error that --hcloud-token is unknown.
  pub render_command-hetzner_token :
      (s : Settings f.F)
      → cfg.texts "InfraProvider" ≡ "hetzner"
      → (cfg.texts "Providers.Hetzner.Token" == "") ≡ false
      → (argv : List String) × (shell_words env (render_command f go mode (some cfg))
          ≡ some ("yage" ∷ argv))
        × (parse f go cases s argv ≡ some (exit (die (unknown_option "--hcloud-token"))))
  unfolding find_case shown secret_value
  render_command-hetzner_token s hetzner token =
      let (x, printed) = secret_words mode in
      (
        entry_words f go mode env cfg (entries (cfg.texts "InfraProvider")),
        shell_words-render_command f go mode env cfg,
        ap (λ p. parse f go cases s (entry_words f go mode env cfg (entries p))) hetzner
            ∙ unknown_entry shared_entries
                (secret "--hcloud-token" "Providers.Hetzner.Token" "HCLOUD_TOKEN") [] s x refl refl
                refl
                (ap
                    (λ b. words env "--hcloud-token" (
                      if b
                      then hidden
                      else shown_secret mode (cfg.texts "Providers.Hetzner.Token") "HCLOUD_TOKEN"))
                    token
                  ∙ printed),
      )
    where
      secret_words :
          (m : SensitiveMode)
          → (x : String) × (words env "--hcloud-token"
                (shown_secret m (cfg.texts "Providers.Hetzner.Token") "HCLOUD_TOKEN")
              ≡ "--hcloud-token" ∷ x ∷ [])
      secret_words raw = (cfg.texts "Providers.Hetzner.Token", refl)
      secret_words masked = ("********", refl)
      secret_words as_env = (env "HCLOUD_TOKEN", refl)
