-- ===== src/Cli/Shell.antt =====
-- The POSIX shell, as the reader of the printed command: how it splits a simple command into
-- words. This is the language of internal/ui/cli/render.go's output, and the reference for its
-- shellQuote. `env` has the shell's variables. `none` stands for a character that has a meaning
-- outside this part of the language, and for a quote that is not closed.

pub mod Quote
use Prim.Native.Char.{Char, code}
use yage.Prelude.{
  ℕ, String, Bool, true, false, ◌||◌, ◌&&◌, ◌≡◌, refl, Option, none, some, List, [], ◌∷◌, eqb, leb,
  if◌then◌else◌,
}
use mathlib.Core.Option
use yage.Settings.Join.{◌<>◌}

pub data Place : Type 0 where
  between inside escaped_between escaped_inside single double : Place
  variable : String → Place

-- Operators, quotes, expansions, patterns and comments, when they are not quoted.
unfoldable pub is_special : ℕ → Bool
is_special c =
    leb c 31
    || leb 33 c && leb c 36
    || leb 38 c && leb c 42
    || leb 59 c && leb c 60
    || leb 62 c && leb c 63
    || leb 91 c && leb c 94
    || eqb c 96
    || leb 123 c

-- What a character does: nothing, a character or a text for the word, the end of the word.
pub data Move : Type 0 where
  skip : Place → Move
  add : Char → Place → Move
  paste : String → Place → Move
  close : Place → Move
  refuse : Move

module _ (env : String → String) where
  -- A character outside quotes. `start` is whether it begins a word.
  unfoldable pub move_plain : Bool → Char → Move
  unfolding is_special
  move_plain start c =
      if eqb (code c) b' '
      then if start then skip between else close between
      else if eqb (code c) b'\\'
      then if start then skip escaped_between else skip escaped_inside
      else if eqb (code c) b'\''
      then skip single
      else if eqb (code c) b'"'
      then skip double
      else if is_special (code c)
      then refuse
      else add c inside

  unfoldable pub move : Place → Char → Move
  unfolding move_plain
  move between c = move_plain true c
  move inside c = move_plain false c
  move escaped_between c = if eqb (code c) b'\n' then skip between else add c inside
  move escaped_inside c = if eqb (code c) b'\n' then skip inside else add c inside
  move single c = if eqb (code c) b'\'' then skip inside else add c single
  move double c =
      if eqb (code c) b'"'
      then skip inside
      else if eqb (code c) b'$'
      then skip (variable "")
      else if eqb (code c) b'\\' || eqb (code c) b'`'
      then refuse
      else add c double
  move (variable name) c =
      if eqb (code c) b'"'
      then paste (env name) inside
      else skip (variable (name <> String.◌∷◌ c ""))

-- A text for the word that the rest begins with.
abbrev pub onto : String → List String → List String
onto t [] = t ∷ []
onto t (w ∷ ws) = (t <> w) ∷ ws

abbrev pub act : Move → (Place → Option (List String)) → Option (List String)
act (skip p) next = next p
act (add c p) next = Option.map (onto (String.◌∷◌ c "")) (next p)
act (paste t p) next = Option.map (onto t) (next p)
act (close p) next = Option.map (λ ws. "" ∷ ws) (next p)
act refuse next = none

abbrev pub at_end : Place → Option (List String)
at_end between = some []
at_end inside = some ("" ∷ [])
at_end _ = none

-- The words of a text, the first of them being the rest of the word that has begun.
unfoldable pub split : (String → String) → Place → String → Option (List String)
unfolding move
split env p String.[] = at_end p
split env p (String.◌∷◌ c s) = act (move env p c) (λ q. split env q s)

unfoldable pub shell_words : (String → String) → String → Option (List String)
unfolding split
shell_words env s = split env between s

runs :
    shell_words (λ v. "T" <> v) "yage \\\n    --a b'it'\\''s' \\\n    -n 'x y' \"$Q\""
    ≡ some ("yage" ∷ "--a" ∷ "bit's" ∷ "-n" ∷ "x y" ∷ "TQ" ∷ [])
unfolding shell_words
runs = refl
