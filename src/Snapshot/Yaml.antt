-- ===== src/Snapshot/Yaml.antt =====
-- internal/config/snapshot.go, internal/cluster/kindsync/config.go: SnapshotYAML, and
-- parseFlatYAMLOrJSON, which reads its text. encoding/json is an interface. A map that is read comes
-- as its last assignments in the order of the lines.
use Prim.Native.Char.{Char, code}
use yage.Prelude.{
  ℕ, String, Bool, true, false, ◌&&◌, ◌||◌, Option, none, some, List, [], ◌∷◌, leb, eqb, ◌==◌,
  if◌then◌else◌, Map, lookup, ◌≡◌,
}
use yage.Settings.{Settings}
use yage.Settings.Trim.{trim_space}
use yage.Settings.Join.{◌<>◌, lacks}
use yage.Snapshot.{get}
use yage.Snapshot.Field.{SnapshotField}

pub record Json : Type 0 where
  -- of a string
  pub marshal : String → String
  pub unmarshal : String → Option String
  -- of an object, each value printed by fmt.Sprint
  pub unmarshal_object : String → Option (Map String)

-- What the code relies on of encoding/json: the text of a string stands between double quotes, on one
-- line, has a number sign only if the string has one, and is read back.
pub record IsJson (json : Json) : Type 0 where
  pub quoted : (v : String) → (inner : String) × (json.marshal v ≡ "\"" <> (inner <> "\""))
  pub one_line : (v : String) → lacks b'\n' (json.marshal v) ≡ true
  pub no_number_sign : (v : String) → lacks b'#' v ≡ true → lacks b'#' (json.marshal v) ≡ true
  pub read_back : (v : String) → json.unmarshal (json.marshal v) ≡ some v

abbrev pub is_blank : Char → Bool
is_blank c = eqb (code c) b' ' || eqb (code c) b'\t' || eqb (code c) b'\n' || eqb (code c) b'\r'

-- The class of spaces of package regexp.
abbrev pub is_re_space : Char → Bool
is_re_space c = is_blank c || eqb (code c) 0xc

abbrev pub is_letter : Char → Bool
is_letter c =
    (leb b'A' (code c) && leb (code c) b'Z')
    || (leb b'a' (code c) && leb (code c) b'z')
    || eqb (code c) b'_'

abbrev pub is_word : Char → Bool
is_word c = is_letter c || (leb b'0' (code c) && leb (code c) b'9')

-- strings.TrimLeftFunc and TrimRight
unfoldable pub trim_start : String → String
trim_start String.[] = ""
trim_start (String.◌∷◌ c s) = let rest = trim_start s in if is_blank c then rest else String.◌∷◌ c s

abbrev pub after_blank : Char → String → String
after_blank c String.[] = if is_blank c then "" else String.◌∷◌ c ""
after_blank c (String.◌∷◌ d s) = String.◌∷◌ c (String.◌∷◌ d s)

unfoldable pub trim_end : String → String
trim_end String.[] = ""
trim_end (String.◌∷◌ c s) = after_blank c (trim_end s)

-- strings.Split by a newline: the first line and the others
unfoldable pub split_lines : String → String × List String
split_lines String.[] = ("", [])
split_lines (String.◌∷◌ c s) =
    let cut = split_lines s in
    if eqb (code c) b'\n' then ("", cut.0 ∷ cut.1) else (String.◌∷◌ c cut.0, cut.1)

unfoldable pub cut_comment : String → String
cut_comment String.[] = ""
cut_comment (String.◌∷◌ c s) =
    let rest = cut_comment s in if eqb (code c) b'#' then "" else String.◌∷◌ c rest

-- flatKVLineRE, as its two groups
unfoldable pub skip_spaces : String → String
skip_spaces String.[] = ""
skip_spaces (String.◌∷◌ c s) =
    let rest = skip_spaces s in if is_re_space c then rest else String.◌∷◌ c s

unfoldable pub span_words : String → String × String
span_words String.[] = ("", "")
span_words (String.◌∷◌ c s) =
    let rest = span_words s in
    if is_word c then (String.◌∷◌ c rest.0, rest.1) else ("", String.◌∷◌ c s)

abbrev pub after_key : String → String → Option (String × String)
after_key key String.[] = none
after_key key (String.◌∷◌ c s) = if eqb (code c) b':' then some (key, skip_spaces s) else none

unfoldable pub match_line : String → Option (String × String)
unfolding span_words skip_spaces
match_line String.[] = none
match_line (String.◌∷◌ c s) =
    let (word, rest) = span_words s in
    if is_letter c then after_key (String.◌∷◌ c word) (skip_spaces rest) else none

abbrev pub last_is : ℕ → Char → String → Bool
last_is k c String.[] = eqb (code c) k
last_is k c (String.◌∷◌ d s) = last_is k d s

-- A text without its last character.
abbrev pub drop_last : String → String
drop_last String.[] = ""
drop_last (String.◌∷◌ c String.[]) = ""
drop_last (String.◌∷◌ c (String.◌∷◌ d s)) = String.◌∷◌ c (drop_last (String.◌∷◌ d s))

abbrev pub or_inner : Option String → String → String
or_inner none rest = drop_last rest
or_inner (some v) rest = v

module _ (json : Json) where
  -- The value behind the key, its first character and the others given.
  abbrev pub unquote_from : Char → String → String
  unquote_from c String.[] = String.◌∷◌ c ""
  unquote_from c (String.◌∷◌ d s) =
      let rest = String.◌∷◌ d s in
      let val = String.◌∷◌ c rest in
      if eqb (code c) b'"' && last_is b'"' d s
      then or_inner (json.unmarshal val) rest
      else if eqb (code c) b'\'' && last_is b'\'' d s
      then drop_last rest
      else val

  unfoldable pub unquote : String → String
  unquote String.[] = ""
  unquote (String.◌∷◌ c s) = unquote_from c s

  abbrev pub has : String → Option String → Bool
  has key none = false
  has key (some v) = true

  unfoldable pub put : Option (String × String) → Map String → Map String
  unfolding lookup unquote trim_space
  put none later = later
  put (some (key, raw)) later =
      if has key (lookup key later) then later else (key, unquote (trim_space raw)) ∷ later

  -- The key and the value of a line, if it has them.
  unfoldable pub key_value : String → Option (String × String)
  unfolding match_line trim_end cut_comment
  key_value line =
      let kept = trim_end (cut_comment line) in
      if kept == "" || lacks b':' kept then none else match_line kept

  unfoldable pub read_lines : List String → Map String
  unfolding put key_value
  read_lines [] = []
  read_lines (line ∷ lines) = put (key_value line) (read_lines lines)

  abbrev pub object_or : Option (Map String) → Map String
  object_or none = []
  object_or (some m) = m

  abbrev pub begins_object : String → Bool
  begins_object String.[] = false
  begins_object (String.◌∷◌ c s) = eqb (code c) b'{'

  unfoldable pub parse_flat_yaml_or_json : String → Map String
  unfolding trim_start split_lines read_lines
  parse_flat_yaml_or_json text =
      let trim = trim_start text in
      let cut = split_lines text in
      if begins_object trim
      then object_or (json.unmarshal_object trim)
      else read_lines (cut.0 ∷ cut.1)

  unfoldable pub snapshot_yaml : {F : Type 0} → List SnapshotField → Settings F → String
  unfolding get
  snapshot_yaml [] c = ""
  snapshot_yaml (f ∷ fs) c =
      let rest = snapshot_yaml fs c in
      let v = get f.kind c in
      if v == "" then rest else f.env_name <> (": " <> (json.marshal v <> ("\n" <> rest)))
