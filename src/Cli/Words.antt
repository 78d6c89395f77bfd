-- ===== src/Cli/Words.antt =====
-- internal/ui/cli/render.go: the words that the printed command stands for, and that the shell
-- reads them from it.
use Prim.Native.Char.{Char, code}
use yage.Prelude.{
  zero, suc, ℤ, pos, negsuc, String, Bool, true, false, not, ◌&&◌, Option, none, some, List, [],
  ◌∷◌, ◌++◌, eqb, if◌then◌else◌, ◌==◌, ◌≡◌, refl, ◌∙◌, ap, arith, Bool-cases, inl, inr,
}
use yage.Float.{Float}
use yage.Settings.{Settings, Strconv}
use yage.Settings.Join.{◌<>◌, <>_assoc, <>-nil, prefixed, join-prefixed}
use yage.Cli.Shell.{between, inside, variable, split, move, shell_words}
use yage.Cli.Shell.Quote.{split-word, split-shell_quote}
use yage.Cli.Entry.{
  Entry, flag, flag_int, flag_int_str, flag_float, flag_bool, flag_off, secret, secret_blank,
}
use yage.Cli.Render.{
  SensitiveMode, as_env, raw, masked, Shown, hidden, bare, placeholder, value, reference,
  is_safe_char, is_shell_safe, shell_quote, flag_value, positive_value, secret_value, name_of, line,
  shown, entry_lines, render_command, parsed_positive,
}
use yage.Settings.Itoa.{itoa}
use yage.Settings.Trim.{trim_space}
use yage.Text.{codes, atoi}
use yage.Cli.Render.Sections.{
  shared_entries, provider_entries, entries, proxmox_entries, aws_entries, azure_entries,
  gcp_entries, hetzner_entries, digitalocean_entries, linode_entries, oci_entries, ibmcloud_entries,
  openstack_entries, vsphere_entries,
}

-- The words of a flag and what is shown after it, with the shell's variables `env`.
abbrev pub words : (String → String) → String → Shown → List String
words env name hidden = []
words env name bare = name ∷ []
words env name placeholder = name ∷ "********" ∷ []
words env name (value v) = name ∷ v ∷ []
words env name (reference env_var) = name ∷ env env_var ∷ []

abbrev pub is_word : String → Bool
is_word t = not (t == "") && is_shell_safe t

abbrev pub is_plain : Entry → Bool
is_plain (secret name field env_var) = is_word name && is_word env_var
is_plain (secret_blank name env_var) = is_word name && is_word env_var
is_plain e = is_word (name_of e)

abbrev pub every : {A : Type 0} → (A → Bool) → List A → Bool
every p [] = true
every p (x ∷ xs) = p x && every p xs

pub every-append :
    {A : Type 0} (p : A → Bool) (xs ys : List A)
    → every p xs ≡ true
    → every p ys ≡ true
    → every p (xs ++ ys) ≡ true
every-append p [] ys h k = k
every-append p (x ∷ xs) ys h k =
    let now : p x ≡ true = ground (arith, h) in
    let later : every p xs ≡ true = ground (arith, h) in rw now (every-append p xs ys later k)

every_if :
    {A : Type 0} (p : A → Bool) (b : Bool) (xs ys : List A)
    → every p xs ≡ true
    → every p ys ≡ true
    → every p (if b then xs else ys) ≡ true
every_if p true xs ys h k = h
every_if p false xs ys h k = k

abbrev break : String
break = " \\\n"

-- Whether the shell reads what is shown: a variable has a name, and there is no placeholder.
abbrev readable : Shown → Bool
readable placeholder = false
readable (reference env_var) = is_shell_safe env_var
readable s = true

no_quote :
    (c : Char) (t : String) → is_shell_safe (String.◌∷◌ c t) ≡ true → eqb (code c) b'"' ≡ false
unfolding is_shell_safe is_safe_char
no_quote c t h = ground (arith, h)

safe_tail : (c : Char) (t : String) → is_shell_safe (String.◌∷◌ c t) ≡ true → is_shell_safe t ≡ true
unfolding is_shell_safe
safe_tail c t h = ground (arith, h)

module _ (env : String → String) where
  split-name :
      (acc : String) (c : Char) (s : String)
      → eqb (code c) b'"' ≡ false
      → split env (variable acc) (String.◌∷◌ c s) ≡ split env (variable (acc <> String.◌∷◌ c "")) s
  unfolding split move
  split-name acc c s h = rw h refl

  at_quote :
      (acc rest w : String) (ws : List String)
      → split env inside rest ≡ some (w ∷ ws)
      → split env (variable acc) ("\"" <> rest) ≡ some ((env (acc <> "") <> w) ∷ ws)
  unfolding split move
  at_quote acc rest w ws tail = rw tail (rw (<>-nil acc) refl)

  split-variable :
      (acc name rest w : String) (ws : List String)
      → is_shell_safe name ≡ true
      → split env inside rest ≡ some (w ∷ ws)
      → split env (variable acc) (name <> ("\"" <> rest)) ≡ some ((env (acc <> name) <> w) ∷ ws)
  split-variable acc String.[] rest w ws h tail = at_quote acc rest w ws tail
  split-variable acc (String.◌∷◌ c name) rest w ws h tail =
      split-name acc c (name <> ("\"" <> rest)) (no_quote c name h)
      ∙ split-variable (acc <> String.◌∷◌ c "") name rest w ws (safe_tail c name h) tail
      ∙ ap (λ t. some ((env t <> w) ∷ ws)) (<>_assoc acc (String.◌∷◌ c "") name)

  split-line :
      (name : String) (s : Shown) (more ws : List String)
      → is_shell_safe name ≡ true
      → (name == "") ≡ false
      → readable s ≡ true
      → split env inside (prefixed break more) ≡ some ("" ∷ ws)
      → split env inside (prefixed break (line name s ++ more))
        ≡ some ("" ∷ (words env name s ++ ws))
  unfolding line split move
  split-line name hidden more ws safe filled read tail = tail
  split-line name bare more ws safe filled read tail =
      rw (split-word env name (prefixed break more) "" ws safe filled tail) (rw (<>-nil name) refl)
  split-line name placeholder more ws safe filled read tail = absurd (cc read)
  split-line name (value v) more ws safe filled read tail =
      let rest = prefixed break more in
      let read_value : split env inside (" " <> (shell_quote v <> rest)) ≡ some ("" ∷ v ∷ ws) =
        rw (split-shell_quote env v rest "" ws tail) (rw (<>-nil v) refl) in
      rw (<>_assoc name (" " <> shell_quote v) rest) (
        rw (split-word env name (" " <> (shell_quote v <> rest)) "" (v ∷ ws) safe filled read_value)
          (rw (<>-nil name) refl))
  split-line name (reference env_var) more ws safe filled read tail =
      let rest = prefixed break more in
      let read_value : split env inside (" \"$" <> (env_var <> ("\"" <> rest)))
          ≡ some ("" ∷ env env_var ∷ ws) =
        rw (split-variable "" env_var rest "" ws read tail) (rw (<>-nil (env env_var)) refl) in
      rw (<>_assoc name (" \"$" <> (env_var <> "\"")) rest) (
        rw (<>_assoc env_var "\"" rest) (
          rw
            (split-word env name (" \"$" <> (env_var <> ("\"" <> rest))) "" (env env_var ∷ ws) safe
              filled read_value)
            (rw (<>-nil name) refl)))

module _ (f : Float) (go : Strconv f.F) (mode : SensitiveMode) (env : String → String) where
  -- The words of the flags of some entries.
  unfoldable pub entry_words : Settings f.F → List Entry → List String
  entry_words cfg [] = []
  entry_words cfg (e ∷ es) = words env (name_of e) (shown f go mode cfg e) ++ entry_words cfg es

  flag_value-readable : (v : String) → readable (flag_value v) ≡ true
  unfolding flag_value
  flag_value-readable v = ground arith

  positive-readable : (n : Option ℤ) → readable (parsed_positive n) ≡ true
  unfolding positive_value
  positive-readable none = refl
  positive-readable (some (pos zero)) = refl
  positive-readable (some (pos (suc n))) = flag_value-readable (itoa (suc n))
  positive-readable (some (negsuc n)) = refl

  secret_value-readable :
      (m : SensitiveMode) (v env_var : String)
      → is_word env_var ≡ true
      → readable (secret_value m v env_var) ≡ true
  unfolding secret_value
  secret_value-readable raw v env_var h = ground arith
  secret_value-readable masked v env_var h = ground arith
  secret_value-readable as_env v env_var h = ground (arith, h)

  shown-readable :
      (cfg : Settings f.F) (e : Entry) → is_plain e ≡ true → readable (shown f go mode cfg e) ≡ true
  unfolding shown
  shown-readable cfg (flag name field) h = flag_value-readable (cfg.texts field)
  shown-readable cfg (flag_int name field) h = positive-readable (some (cfg.ints field))
  shown-readable cfg (flag_int_str name field) h =
      positive-readable (atoi (codes (trim_space (cfg.texts field))))
  shown-readable cfg (flag_float name field) h =
      elim (Bool-cases (f.le (cfg.floats field) (f.lit 0 1))) [
        | inl e ↦ rw e refl
        | inr e ↦ rw e (flag_value-readable (go.format_float (cfg.floats field)))
      ]
  shown-readable cfg (flag_bool name field) h = ground arith
  shown-readable cfg (flag_off name field) h = ground arith
  shown-readable cfg (secret name field env_var) h =
      secret_value-readable mode (cfg.texts field) env_var (ground (arith, h))
  shown-readable cfg (secret_blank name env_var) h =
      secret_value-readable mode "" env_var (ground (arith, h))

  name_of-is_word : (e : Entry) → is_plain e ≡ true → is_word (name_of e) ≡ true
  name_of-is_word (flag name field) h = h
  name_of-is_word (flag_int name field) h = h
  name_of-is_word (flag_int_str name field) h = h
  name_of-is_word (flag_float name field) h = h
  name_of-is_word (flag_bool name field) h = h
  name_of-is_word (flag_off name field) h = h
  name_of-is_word (secret name field env_var) h = ground (arith, h)
  name_of-is_word (secret_blank name env_var) h = ground (arith, h)

  split-entry_lines :
      (cfg : Settings f.F) (es : List Entry)
      → every is_plain es ≡ true
      → split env inside (prefixed break (entry_lines f go mode cfg es))
        ≡ some ("" ∷ entry_words cfg es)
  unfolding entry_lines entry_words split
  split-entry_lines cfg [] h = refl
  split-entry_lines cfg (e ∷ es) h =
      let plain : is_plain e ≡ true = ground (arith, h) in
      let later : every is_plain es ≡ true = ground (arith, h) in
      let word = name_of-is_word e plain in
      split-line env (name_of e) (shown f go mode cfg e) (entry_lines f go mode cfg es)
        (entry_words cfg es) (ground (arith, word)) (ground (arith, word))
        (shown-readable cfg e plain) (split-entry_lines cfg es later)

provider_entries-plain : (provider : String) → every is_plain (provider_entries provider) ≡ true
unfolding is_shell_safe
provider_entries-plain provider = every_if is_plain (provider == "proxmox") proxmox_entries _ refl (
    every_if is_plain (provider == "aws") aws_entries _ refl (
      every_if is_plain (provider == "azure") azure_entries _ refl (
        every_if is_plain (provider == "gcp") gcp_entries _ refl (
          every_if is_plain (provider == "hetzner") hetzner_entries _ refl (
            every_if is_plain (provider == "digitalocean") digitalocean_entries _ refl (
              every_if is_plain (provider == "linode") linode_entries _ refl (
                every_if is_plain (provider == "oci") oci_entries _ refl (
                  every_if is_plain (provider == "ibmcloud") ibmcloud_entries _ refl (
                    every_if is_plain (provider == "openstack") openstack_entries _ refl (
                      every_if is_plain (provider == "vsphere") vsphere_entries _ refl
                        (refl)))))))))))

entries-plain : (provider : String) → every is_plain (entries provider) ≡ true
unfolding is_shell_safe
entries-plain provider =
    every-append is_plain shared_entries (provider_entries provider) refl
      (provider_entries-plain provider)

-- The shell reads the printed command as "yage", and each printed flag with its value, or with the
-- variable's content for a secret in the mode of variables.
pub shell_words-render_command :
    (f : Float) (go : Strconv f.F) (mode : SensitiveMode) (env : String → String)
    (cfg : Settings f.F)
    → shell_words env (render_command f go mode (some cfg))
      ≡ some ("yage" ∷ entry_words f go mode env cfg (entries (cfg.texts "InfraProvider")))
unfolding shell_words render_command is_shell_safe
shell_words-render_command f go mode env cfg =
    let es = entries (cfg.texts "InfraProvider") in
    let lines = entry_lines f go mode cfg es in
    ap (split env between) (join-prefixed "yage" lines break)
    ∙ split-word env "yage" (prefixed break lines) "" (entry_words f go mode env cfg es) refl refl
        (split-entry_lines f go mode env cfg es (entries-plain (cfg.texts "InfraProvider")))
