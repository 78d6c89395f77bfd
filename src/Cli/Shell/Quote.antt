-- ===== src/Cli/Shell/Quote.antt =====
-- What the shell reads of quoted texts and of names.
use Prim.Native.Char.{Char, code}
use text.Mathlib.TextEquality.{Char-path}
use yage.Prelude.{
  String, Bool, true, false, some, List, ◌∷◌, eqb, ◌==◌, ◌≡◌, refl, arith, Bool-cases, inl, inr,
  eq_iff,
}
use yage.Settings.Join.{◌<>◌, <>_assoc}
use yage.Cli.Shell.{between, inside, single, add, move_plain, move, split}
use yage.Cli.Render.{is_safe_char, is_shell_safe, escape_quotes, shell_quote}

module _ (env : String → String) where
  move-safe :
      (start : Bool) (c : Char)
      → is_safe_char (code c) ≡ true
      → move_plain env start c ≡ add c inside
  unfolding move_plain is_safe_char
  move-safe start c h = ground (arith, h)

  -- A word goes on after safe characters.
  pub split-safe :
      (t rest w : String) (ws : List String)
      → is_shell_safe t ≡ true
      → split env inside rest ≡ some (w ∷ ws)
      → split env inside (t <> rest) ≡ some ((t <> w) ∷ ws)
  unfolding split is_shell_safe move
  split-safe String.[] rest w ws h tail = tail
  split-safe (String.◌∷◌ c t) rest w ws h tail =
      let now : is_safe_char (code c) ≡ true = ground (arith, h) in
      let later : is_shell_safe t ≡ true = ground (arith, h) in
      rw (move-safe false c now) (rw (split-safe t rest w ws later tail) refl)

  -- A word begins with a safe character.
  pub split-word :
      (t rest w : String) (ws : List String)
      → is_shell_safe t ≡ true
      → (t == "") ≡ false
      → split env inside rest ≡ some (w ∷ ws)
      → split env between (t <> rest) ≡ some ((t <> w) ∷ ws)
  unfolding split is_shell_safe move
  split-word String.[] rest w ws h filled tail = absurd (cc filled)
  split-word (String.◌∷◌ c t) rest w ws h filled tail =
      let now : is_safe_char (code c) ≡ true = ground (arith, h) in
      let later : is_shell_safe t ≡ true = ground (arith, h) in
      rw (move-safe true c now) (rw (split-safe t rest w ws later tail) refl)

  quote_char : (c : Char) → eqb (code c) b'\'' ≡ true → c ≡ "'"
  quote_char c h = Char-path c "'" (ground (arith, h))

  -- A text in single quotes stands for itself.
  split-single :
      (t rest w : String) (ws : List String)
      → split env inside rest ≡ some (w ∷ ws)
      → split env single (escape_quotes t <> ("'" <> rest)) ≡ some ((t <> w) ∷ ws)
  unfolding split escape_quotes move
  split-single String.[] rest w ws tail = tail
  split-single (String.◌∷◌ c t) rest w ws tail = elim (Bool-cases (eqb (code c) b'\'')) [
    | inl e ↦ rw e (rw (split-single t rest w ws tail) (rw (quote_char c e) refl))
    | inr e ↦ rw e (rw e (rw (split-single t rest w ws tail) refl))
  ]

  -- Outside of words, the shell reads a quoted text as that text.
  pub split-shell_quote :
      (t rest w : String) (ws : List String)
      → split env inside rest ≡ some (w ∷ ws)
      → split env between (shell_quote t <> rest) ≡ some ((t <> w) ∷ ws)
  unfolding split shell_quote move
  split-shell_quote t rest w ws tail = elim (Bool-cases (t == "")) [
    | inl e ↦ rw ((eq_iff t "").0 e) tail
    | inr e ↦ elim (Bool-cases (is_shell_safe t)) [
      | inl safe ↦ rw (e, safe) (split-word t rest w ws safe e tail)
      | inr unsafe ↦
          rw (e, unsafe) (rw (<>_assoc (escape_quotes t) "'" rest) (split-single t rest w ws tail))
    ]
  ]
