-- ===== src/Cli/RoundTrip/Command.antt =====
-- internal/ui/cli: the words of the printed command, parsed.
use yage.Prelude.{
  String, Bool, true, false, not, ◌&&◌, Option, none, some, List, [], ◌∷◌, ◌++◌, All, ◌⊎◌, ◌==◌,
  ◌≡◌, refl, ◌∙◌, arith, inl, inr,
}
use yage.Float.{Float, IsIeee}
use yage.Settings.{Settings, Strconv}
use yage.Cli.Steps.{ok, Step, Case}
use yage.Cli.Flags.{cases}
use yage.Cli.Parse.{find_case, parse, parse_loop}
use yage.Cli.Parse.Assigns.{some_assigns, IsSame}
use yage.Cli.Entry.{
  Entry, flag, flag_int, flag_int_str, flag_float, flag_bool, flag_off, secret, secret_blank,
}
use yage.Cli.Render.{SensitiveMode, secret_value, name_of, shown, render_command}
use yage.Cli.Render.Sections.{entries}
use yage.Cli.Shell.{shell_words}
use yage.Cli.Words.{words, entry_words, every, shell_words-render_command}
use yage.Cli.Replay.{
  steps_of, found_steps, reads_back, is_known, field_of, apart, provider_entries-IsReadBack,
}
use yage.Cli.RoundTrip.Fields.{IsStrconv}
use yage.Cli.RoundTrip.Restored.{IsRestored, IsRanged, IsRestored-same}
use yage.Cli.RoundTrip.Shows.{applied, here, reads_back-fits, applied-IsSame, parse-words}
use yage.Cli.RoundTrip.Entries.{here-IsRestored}
use yage.Cli.Replay.{found_reads_back}

found_known :
    (e : Entry) (found : Option (List Step))
    → found_reads_back e found ≡ true
    → (found ≡ some (found_steps found)) × (reads_back e (found_steps found) ≡ true)
found_known e none h = absurd (cc h)
found_known e (some steps) h = (refl, h)

-- What the table has for an emitter that it knows and that prints something.
known_found :
    (table : List Case) (e : Entry)
    → is_known table e ≡ true
    → ((find_case table (name_of e) ≡ some (steps_of table e))
        × (reads_back e (steps_of table e) ≡ true))
      ⊎ ((name : String) × (env_var : String) × (e ≡ secret_blank name env_var))
known_found table (flag name field) h = inl (found_known (flag name field) (find_case table name) h)
known_found table (flag_int name field) h =
    inl (found_known (flag_int name field) (find_case table name) h)
known_found table (flag_int_str name field) h =
    inl (found_known (flag_int_str name field) (find_case table name) h)
known_found table (flag_float name field) h =
    inl (found_known (flag_float name field) (find_case table name) h)
known_found table (flag_bool name field) h =
    inl (found_known (flag_bool name field) (find_case table name) h)
known_found table (flag_off name field) h =
    inl (found_known (flag_off name field) (find_case table name) h)
known_found table (secret name field env_var) h =
    inl (found_known (secret name field env_var) (find_case table name) h)
known_found table (secret_blank name env_var) h = inr (name, env_var, refl)

module _ (f : Float) (go : Strconv f.F) (mode : SensitiveMode) (env : String → String)
    (cfg : Settings f.F) (table : List Case) where
  pub applied_here : Entry → Settings f.F → Settings f.F
  applied_here e s = applied f go mode env cfg (here f go mode env cfg e) (steps_of table e) s

  pub replay : List Entry → Settings f.F → Settings f.F
  unfolding applied_here
  replay [] s = s
  replay (e ∷ es) s = replay es (applied_here e s)

  abbrev assigns_none : String → Entry → Bool
  assigns_none g e = not (some_assigns g (steps_of table e))

  replay-IsSame :
      (g : String) (es : List Entry) (s : Settings f.F)
      → every (assigns_none g) es ≡ true
      → IsSame f go g s (replay es s)
  unfolding replay applied_here
  replay-IsSame g [] s h = (refl, refl, refl, refl)
  replay-IsSame g (e ∷ es) s h =
      let now : some_assigns g (steps_of table e) ≡ false = ground (arith, h) in
      let later : every (assigns_none g) es ≡ true = ground (arith, h) in
      let first =
        applied-IsSame f go mode env cfg g (here f go mode env cfg e) (steps_of table e) s now in
      let last = replay-IsSame g es (applied_here e s) later in
      (last.0 ∙ first.0, last.1 ∙ first.1, last.2 ∙ first.2, last.3 ∙ first.3)

  parse_entry :
      (e : Entry) (s : Settings f.F) (rest : List String)
      → is_known table e ≡ true
      → parse f go table s (words env (name_of e) (shown f go mode cfg e) ++ rest)
        ≡ parse f go table (applied_here e s) rest
  unfolding applied_here shown secret_value
  parse_entry e s rest h = elim (known_found table e h) [
    | inl found ↦
        parse-words f go mode env cfg table (name_of e) (here f go mode env cfg e)
          (steps_of table e) s rest found.0
          (reads_back-fits f go mode env cfg e (steps_of table e) found.1)
    | inr blank ↦ rw blank.2 refl
  ]

  pub parse-replay :
      (es : List Entry) (s : Settings f.F)
      → every (is_known table) es ≡ true
      → parse f go table s (entry_words f go mode env cfg es) ≡ some (ok (replay es s))
  unfolding replay entry_words parse parse_loop
  parse-replay [] s h = refl
  parse-replay (e ∷ es) s h =
      let now : is_known table e ≡ true = ground (arith, h) in
      let later : every (is_known table) es ≡ true = ground (arith, h) in
      parse_entry e s (entry_words f go mode env cfg es) now
      ∙ parse-replay es (applied_here e s) later

  module _ (ieee : IsIeee f) (laws : IsStrconv f go) (ranged : IsRanged f go mode env cfg) where
    abbrev Restored : Settings f.F → Settings f.F → Entry → Type 0
    Restored s t e = IsRestored f go mode env cfg (steps_of table e) s t e

    applied_here-Restored :
        (e : Entry) (s : Settings f.F) → is_known table e ≡ true → Restored s (applied_here e s) e
    unfolding applied_here
    applied_here-Restored e s h = elim (known_found table e h) [
      | inl found ↦
          here-IsRestored f go mode env cfg ieee laws ranged e (steps_of table e) s found.1
      | inr blank ↦ rw blank.2 tt
    ]

    abbrev separate : Entry → Entry → Bool
    separate e d =
        not (some_assigns (field_of e) (steps_of table d))
        && not (some_assigns (field_of d) (steps_of table e))

    later_none :
        (e : Entry) (es : List Entry)
        → every (separate e) es ≡ true
        → every (assigns_none (field_of e)) es ≡ true
    later_none e [] h = refl
    later_none e (d ∷ es) h =
        let now : separate e d ≡ true = ground (arith, h) in
        let rest = later_none e es (ground (arith, h)) in ground (arith, now, rest)

    later-Restored :
        (e : Entry) (es : List Entry) (s t : Settings f.F)
        → every (separate e) es ≡ true
        → All (Restored (applied_here e s) t) es
        → All (Restored s t) es
    unfolding applied_here
    later-Restored e [] s t h all = tt
    later-Restored e (d ∷ es) s t h (first, all) =
        let apart_from : some_assigns (field_of d) (steps_of table e) ≡ false = ground (arith, h) in
        let rest : every (separate e) es ≡ true = ground (arith, h) in
        (
          IsRestored-same f go mode env cfg d (steps_of table d) s (applied_here e s) t t
              (applied-IsSame f go mode env cfg (field_of d) (here f go mode env cfg e)
                (steps_of table e) s apart_from)
              (refl, refl, refl, refl) first,
          later-Restored e es s t rest all,
        )

    replay-Restored :
        (es : List Entry) (s : Settings f.F)
        → every (is_known table) es ≡ true
        → apart table es ≡ true
        → All (Restored s (replay es s)) es
    unfolding replay
    replay-Restored [] s h k = tt
    replay-Restored (e ∷ es) s h k =
        let now : is_known table e ≡ true = ground (arith, h) in
        let later : every (is_known table) es ≡ true = ground (arith, h) in
        let distinct : every (separate e) es ≡ true = ground (arith, k) in
        let others : apart table es ≡ true = ground (arith, k) in
        let s' = applied_here e s in
        (
          IsRestored-same f go mode env cfg e (steps_of table e) s s s' (replay es s')
              (refl, refl, refl, refl) (replay-IsSame (field_of e) es s' (later_none e es distinct))
              (applied_here-Restored e s now),
          later-Restored e es s (replay es s') distinct (replay-Restored es s' later others),
        )

-- For a provider other than aws and hetzner, and numbers that fit their types: the shell reads the
-- printed command as "yage" and arguments that Parse accepts, and after Parse the field of every
-- emitter has the printed value, as its flag reads it; a field that is not printed is as before.
pub parse-render_command :
    (f : Float) (go : Strconv f.F) (mode : SensitiveMode) (env : String → String)
    (cfg s : Settings f.F)
    → IsIeee f
    → IsStrconv f go
    → IsRanged f go mode env cfg
    → (cfg.texts "InfraProvider" == "aws") ≡ false
    → (cfg.texts "InfraProvider" == "hetzner") ≡ false
    → (argv : List String) × (t : Settings f.F) × (shell_words env
          (render_command f go mode (some cfg))
        ≡ some ("yage" ∷ argv))
      × (parse f go cases s argv ≡ some (ok t))
      × All
          (λ (e : Entry). IsRestored f go mode env cfg (steps_of cases e) s t e)
          (entries (cfg.texts "InfraProvider"))
parse-render_command f go mode env cfg s ieee laws ranged not_aws not_hetzner =
    let provider = cfg.texts "InfraProvider" in
    let es = entries provider in
    let read = provider_entries-IsReadBack provider not_aws not_hetzner in
    (
      entry_words f go mode env cfg es,
      replay f go mode env cfg cases es s,
      shell_words-render_command f go mode env cfg,
      parse-replay f go mode env cfg cases es s read.0,
      replay-Restored f go mode env cfg cases ieee laws ranged es s read.0 read.1,
    )
