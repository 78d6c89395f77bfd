-- ===== src/Snapshot/Reread.antt =====
-- The text of SnapshotYAML, read line by line.
use Prim.Native.Char.{Char}
use yage.Prelude.{
  String, Bool, true, false, ◌&&◌, ◌||◌, none, some, List, [], ◌∷◌, ◌==◌, if◌then◌else◌, Map,
  lookup, ◌≡◌, refl, sym, ◌∙◌, ap, Bool-cases, inl, inr,
}
use yage.Settings.{Settings}
use yage.Settings.Trim.{trim_space, trim_space-quoted}
use yage.Settings.Join.{◌<>◌, lacks, <>_assoc}
use yage.Snapshot.{get, snapshot_pairs}
use yage.Snapshot.Field.{FieldKind, SnapshotField}
use yage.Snapshot.Merge.{no_name, names_once, pairs_none}
use yage.Snapshot.Yaml.{
  Json, IsJson, trim_start, trim_end, split_lines, cut_comment, match_line, unquote, put, has,
  key_value, read_lines, begins_object, object_or, parse_flat_yaml_or_json, snapshot_yaml,
}
use yage.Snapshot.Lines.{
  both_left, both_right, lacks-<>, split_lines-line, cut_comment-lacks, trim_end-quoted,
  lacks_colon, keeps_line, last_is-quoted, KeyParts, key_parts, match_line-key, in_quotes, is_key,
}

module _ (json : Json) where
  key_value-key :
      (c : Char) (s inner : String)
      → KeyParts c s
      → lacks b'#' (in_quotes inner) ≡ true
      → key_value json (String.◌∷◌ c (s <> (": " <> in_quotes inner)))
        ≡ some (String.◌∷◌ c s, in_quotes inner)
  unfolding key_value
  key_value-key c s inner k h =
      let name = String.◌∷◌ c s in
      let line = name <> (": " <> in_quotes inner) in
      let whole : line ≡ (name <> (": \"" <> inner)) <> "\"" =
        sym (<>_assoc name (": \"" <> inner) "\"") in
      let uncut =
        cut_comment-lacks line (lacks-<> b'#' name (": " <> in_quotes inner) k.no_comment h) in
      let kept : trim_end (cut_comment line) ≡ line =
        ap trim_end (uncut ∙ whole) ∙ trim_end-quoted (name <> (": \"" <> inner)) ∙ sym whole in
      let colon : (line == "" || lacks b':' line) ≡ false =
        keeps_line line (lacks_colon name (in_quotes inner)) in
      ap (λ t. if t == "" || lacks b':' t then none else match_line t) kept
      ∙ ap (λ b. if b then none else match_line line) colon
      ∙ match_line-key c s inner k

  unquote-quoted :
      (inner v : String)
      → json.unmarshal (in_quotes inner) ≡ some v
      → unquote json (in_quotes inner) ≡ v
  unfolding unquote
  unquote-quoted String.[] v h = rw h refl
  unquote-quoted (String.◌∷◌ d a) v h = rw (last_is-quoted d a, h) refl

  put-new :
      (key inner v : String) (later : Map String)
      → lookup key later ≡ none
      → json.unmarshal (in_quotes inner) ≡ some v
      → put json (some (key, in_quotes inner)) later ≡ (key, v) ∷ later
  unfolding put
  put-new key inner v later new h =
      ap
        (λ o.
          if has json key o
          then later
          else (key, unquote json (trim_space (in_quotes inner))) ∷ later)
        new
      ∙ ap (λ t. (key, unquote json t) ∷ later) (trim_space-quoted inner)
      ∙ ap (λ t. (key, t) ∷ later) (unquote-quoted inner v h)

abbrev pub all_keys : List SnapshotField → Bool
all_keys [] = true
all_keys (f ∷ fs) = let rest = all_keys fs in is_key f.env_name && rest

module _ {F : Type 0} (json : Json) (laws : IsJson json) (c : Settings F)
    (unmarked : (k : FieldKind) → lacks b'#' (get k c) ≡ true) where
  abbrev lines_of : String → List String
  lines_of text = let cut = split_lines text in cut.0 ∷ cut.1

  -- A line in front of others is read as its name and value.
  read_lines-line :
      (d : Char) (s v rest : String)
      → KeyParts d s
      → lacks b'#' v ≡ true
      → lookup (String.◌∷◌ d s) (read_lines json (lines_of rest)) ≡ none
      → read_lines json
          (lines_of (String.◌∷◌ d (s <> (": " <> (json.marshal v <> ("\n" <> rest))))))
        ≡ (String.◌∷◌ d s, v) ∷ read_lines json (lines_of rest)
  unfolding read_lines
  read_lines-line d s v rest k clean new =
      let name = String.◌∷◌ d s in
      let q = json.marshal v in
      let (inner, eq) = laws.quoted v in
      let line = name <> (": " <> q) in
      let ends : lacks b'\n' line ≡ true =
        lacks-<> b'\n' name (": " <> q) k.no_newline (laws.one_line v) in
      let joined : line <> ("\n" <> rest) ≡ name <> (": " <> (q <> ("\n" <> rest))) =
        <>_assoc name (": " <> q) ("\n" <> rest) in
      let cut = ap split_lines (sym joined) ∙ split_lines-line line rest ends in
      let marks : lacks b'#' ("\"" <> (inner <> "\"")) ≡ true =
        ap (lacks b'#') (sym eq) ∙ laws.no_number_sign v clean in
      let pair : key_value json line ≡ some (name, "\"" <> (inner <> "\"")) =
        ap (λ t. key_value json (name <> (": " <> t))) eq ∙ key_value-key json d s inner k marks in
      let back : json.unmarshal ("\"" <> (inner <> "\"")) ≡ some v =
        ap json.unmarshal (sym eq) ∙ laws.read_back v in
      ap (λ (l : String × List String). put json (key_value json l.0) (read_lines json l.1)) cut
      ∙ ap (λ o. put json o (read_lines json (lines_of rest))) pair
      ∙ put-new json name inner v (read_lines json (lines_of rest)) new back

  read_field :
      (name v rest : String)
      → is_key name ≡ true
      → lacks b'#' v ≡ true
      → lookup name (read_lines json (lines_of rest)) ≡ none
      → read_lines json (lines_of (name <> (": " <> (json.marshal v <> ("\n" <> rest)))))
        ≡ (name, v) ∷ read_lines json (lines_of rest)
  read_field String.[] v rest key clean new = absurd (cc key)
  read_field (String.◌∷◌ d s) v rest key clean new =
      read_lines-line d s v rest (key_parts d s key) clean new

  empty_text : read_lines json (lines_of "") ≡ []
  unfolding read_lines split_lines key_value trim_end cut_comment put
  empty_text = refl

  read_lines-snapshot_yaml :
      (fields : List SnapshotField)
      → all_keys fields ≡ true
      → names_once fields ≡ true
      → read_lines json (lines_of (snapshot_yaml json fields c)) ≡ snapshot_pairs fields c
  unfolding snapshot_yaml snapshot_pairs
  read_lines-snapshot_yaml [] keys once = empty_text
  read_lines-snapshot_yaml (f ∷ fs) keys once =
      let key = both_left (is_key f.env_name) (all_keys fs) keys in
      let later =
        read_lines-snapshot_yaml fs (both_right (is_key f.env_name) (all_keys fs) keys)
          (both_right (no_name f.env_name fs) (names_once fs) once) in
      let new =
        ap (lookup f.env_name) later
        ∙ pairs_none c f.env_name fs (both_left (no_name f.env_name fs) (names_once fs) once) in
      elim (Bool-cases (get f.kind c == "")) [
        | inl empty ↦ rw empty later
        | inr filled ↦ rw filled (
            read_field f.env_name (get f.kind c) (snapshot_yaml json fs c) key (unmarked f.kind) new
            ∙ ap (λ l. (f.env_name, get f.kind c) ∷ l) later)
      ]

  begins_key :
      (name rest : String)
      → is_key name ≡ true
      → begins_object json (trim_start (name <> rest)) ≡ false
  unfolding trim_start
  begins_key String.[] rest key = absurd (cc key)
  begins_key (String.◌∷◌ d s) rest key = let k = key_parts d s key in rw k.solid k.no_brace

  no_object :
      (fields : List SnapshotField)
      → all_keys fields ≡ true
      → begins_object json (trim_start (snapshot_yaml json fields c)) ≡ false
  unfolding snapshot_yaml trim_start
  no_object [] keys = refl
  no_object (f ∷ fs) keys = elim (Bool-cases (get f.kind c == "")) [
    | inl empty ↦ rw empty (no_object fs (both_right (is_key f.env_name) (all_keys fs) keys))
    | inr filled ↦
        rw filled (begins_key f.env_name _ (both_left (is_key f.env_name) (all_keys fs) keys))
  ]

  -- The text of a snapshot whose values have no number sign is read as its names and values.
  pub parse-snapshot_yaml :
      (fields : List SnapshotField)
      → all_keys fields ≡ true
      → names_once fields ≡ true
      → parse_flat_yaml_or_json json (snapshot_yaml json fields c) ≡ snapshot_pairs fields c
  unfolding parse_flat_yaml_or_json
  parse-snapshot_yaml fields keys once =
      let text = snapshot_yaml json fields c in
      ap
        (λ b.
          if b
          then object_or json (json.unmarshal_object (trim_start text))
          else read_lines json (lines_of text))
        (no_object fields keys)
      ∙ read_lines-snapshot_yaml fields keys once
