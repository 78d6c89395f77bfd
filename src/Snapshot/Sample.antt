-- ===== src/Snapshot/Sample.antt =====
-- A concrete text of a string as JSON, which escapes a double quote, a backslash and a newline.
use Prim.Native.Char.{Char, code}
use text.Mathlib.TextEquality.{Char-path}
use yage.Prelude.{
  String, Bool, true, false, ◌||◌, Option, none, some, eqb, if◌then◌else◌, ◌≡◌, refl, sym, ap,
  arith, Bool-cases, inl, inr,
}
use mathlib.Core.Option
use yage.Settings.Join.{◌<>◌, lacks}
use yage.Snapshot.Yaml.{Json, IsJson}

abbrev needs_slash : Char → Bool
needs_slash c = eqb (code c) b'"' || eqb (code c) b'\\'

escape : String → String
escape String.[] = ""
escape (String.◌∷◌ c s) =
    let rest = escape s in
    if eqb (code c) b'\n'
    then String.◌∷◌ "\\" (String.◌∷◌ "n" rest)
    else if needs_slash c
    then String.◌∷◌ "\\" (String.◌∷◌ c rest)
    else String.◌∷◌ c rest

abbrev escaped_char : Char → Char
escaped_char c = if eqb (code c) b'n' then "\n" else c

-- The text up to the double quote that ends it, behind a backslash or not.
decode : (escaped : Bool) → String → Option String
decode escaped String.[] = none
decode true (String.◌∷◌ c s) = Option.map (String.◌∷◌ (escaped_char c)) (decode false s)
decode false (String.◌∷◌ c s) =
    let plain = decode false s in
    let behind = decode true s in
    if eqb (code c) b'"'
    then some ""
    else if eqb (code c) b'\\'
    then behind
    else Option.map (String.◌∷◌ c) plain

abbrev quoted_text : String → Option String
quoted_text String.[] = none
quoted_text (String.◌∷◌ c s) = decode false s

unfoldable pub json : Json
unfolding escape decode
json = record {
  marshal = λ v. "\"" <> (escape v <> "\"");
  unmarshal = quoted_text;
  unmarshal_object = λ text. none;
}

newline_char : (c : Char) → eqb (code c) b'\n' ≡ true → c ≡ "\n"
newline_char c h = Char-path c "\n" (ground (arith, h))

decode-escape : (v : String) → decode false (escape v <> "\"") ≡ some v
unfolding decode escape
decode-escape String.[] = refl
decode-escape (String.◌∷◌ c s) = elim (Bool-cases (eqb (code c) b'\n')) [
  | inl e ↦ rw (e, decode-escape s) (ap (λ d. some (String.◌∷◌ d s)) (sym (newline_char c e)))
  | inr e ↦ elim (Bool-cases (needs_slash c)) [
    | inl k ↦
        let letter : eqb (code c) b'n' ≡ false = ground (arith, k) in
        rw (e, k, decode-escape s, letter) refl
    | inr k ↦
        let quote : eqb (code c) b'"' ≡ false = ground (arith, k) in
        let slash : eqb (code c) b'\\' ≡ false = ground (arith, k) in
        rw (e, k, quote, slash, decode-escape s) refl
  ]
]

escape-one_line : (v : String) → lacks b'\n' (escape v <> "\"") ≡ true
unfolding escape
escape-one_line String.[] = refl
escape-one_line (String.◌∷◌ c s) = elim (Bool-cases (eqb (code c) b'\n')) [
  | inl e ↦ rw (e, escape-one_line s) refl
  | inr e ↦ elim (Bool-cases (needs_slash c)) [
    | inl k ↦ rw (e, k, escape-one_line s) (rw e refl)
    | inr k ↦ rw (e, k, escape-one_line s) (rw e refl)
  ]
]

escape-no_number_sign : (v : String) → lacks b'#' v ≡ true → lacks b'#' (escape v <> "\"") ≡ true
unfolding escape
escape-no_number_sign String.[] h = refl
escape-no_number_sign (String.◌∷◌ c s) h =
    let here : eqb (code c) b'#' ≡ false = ground (arith, h) in
    let rest = escape-no_number_sign s (ground (arith, h)) in
    elim (Bool-cases (eqb (code c) b'\n')) [
      | inl e ↦ rw (e, rest) refl
      | inr e ↦ elim (Bool-cases (needs_slash c)) [
        | inl k ↦ rw (e, k, rest) (rw here refl)
        | inr k ↦ rw (e, k, rest) (rw here refl)
      ]
    ]

pub json-IsJson : IsJson json
unfolding json
json-IsJson = record {
  quoted = λ v. (escape v, refl);
  one_line = escape-one_line;
  no_number_sign = escape-no_number_sign;
  read_back = decode-escape;
}
