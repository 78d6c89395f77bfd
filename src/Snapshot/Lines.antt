-- ===== src/Snapshot/Lines.antt =====
-- Lines of a name and a text between double quotes, and their characters.
use Prim.Native.Char.{Char, code}
use yage.Prelude.{
  ℕ, String, Bool, true, false, not, ◌&&◌, ◌||◌, none, some, List, ◌∷◌, eqb, ◌==◌, if◌then◌else◌,
  ◌≡◌, refl, sym, ◌∙◌, ap, Bool-cases, inl, inr, eq_iff,
}
use yage.Settings.Join.{◌<>◌, lacks}
use yage.Snapshot.Yaml.{
  is_blank, is_letter, is_word, after_blank, trim_end, split_lines, cut_comment, skip_spaces,
  span_words, after_key, match_line, last_is,
}

pub both_left : (a b : Bool) → (a && b) ≡ true → a ≡ true
both_left true b h = refl
both_left false b h = h

pub both_right : (a b : Bool) → (a && b) ≡ true → b ≡ true
both_right true b h = h
both_right false b h = absurd (cc h)

is_not : (b : Bool) → not b ≡ true → b ≡ false
is_not true h = absurd (cc h)
is_not false h = refl

pub lacks-<> :
    (k : ℕ) (a b : String) → lacks k a ≡ true → lacks k b ≡ true → lacks k (a <> b) ≡ true
lacks-<> k String.[] b ha hb = hb
lacks-<> k (String.◌∷◌ c s) b ha hb =
    let now = both_left (not (eqb (code c) k)) (lacks k s) ha in
    let later = lacks-<> k s b (both_right (not (eqb (code c) k)) (lacks k s) ha) hb in rw now later

pub split_lines-line :
    (line rest : String)
    → lacks b'\n' line ≡ true
    → split_lines (line <> ("\n" <> rest)) ≡ (line, (split_lines rest).0 ∷ (split_lines rest).1)
unfolding split_lines
split_lines-line String.[] rest h = refl
split_lines-line (String.◌∷◌ c s) rest h =
    let here =
      is_not (eqb (code c) b'\n') (both_left (not (eqb (code c) b'\n')) (lacks b'\n' s) h) in
    let later = split_lines-line s rest (both_right (not (eqb (code c) b'\n')) (lacks b'\n' s) h) in
    rw here (ap (λ (cut : String × List String). (String.◌∷◌ c cut.0, cut.1)) later)

pub cut_comment-lacks : (s : String) → lacks b'#' s ≡ true → cut_comment s ≡ s
unfolding cut_comment
cut_comment-lacks String.[] h = refl
cut_comment-lacks (String.◌∷◌ c s) h =
    let here = is_not (eqb (code c) b'#') (both_left (not (eqb (code c) b'#')) (lacks b'#' s) h) in
    rw here (
      ap (String.◌∷◌ c)
        (cut_comment-lacks s (both_right (not (eqb (code c) b'#')) (lacks b'#' s) h)))

after_blank-quoted : (c : Char) (a : String) → after_blank c (a <> "\"") ≡ String.◌∷◌ c (a <> "\"")
after_blank-quoted c String.[] = refl
after_blank-quoted c (String.◌∷◌ d a) = refl

pub trim_end-quoted : (a : String) → trim_end (a <> "\"") ≡ a <> "\""
unfolding trim_end
trim_end-quoted String.[] = refl
trim_end-quoted (String.◌∷◌ c a) = ap (after_blank c) (trim_end-quoted a) ∙ after_blank-quoted c a

abbrev pub all_words : String → Bool
all_words String.[] = true
all_words (String.◌∷◌ c s) = let rest = all_words s in is_word c && rest

-- A name as the expression wants it, without the characters that end a line or start a comment.
abbrev pub is_start : Char → Bool
is_start c = is_letter c && (not (is_blank c) && not (eqb (code c) b'{'))

abbrev pub is_key : String → Bool
is_key String.[] = false
is_key (String.◌∷◌ c s) =
    let start = is_start c in
    start && (all_words s && (lacks b'\n' (String.◌∷◌ c s) && lacks b'#' (String.◌∷◌ c s)))

span_words-all :
    (s q : String) → all_words s ≡ true → span_words (s <> (": " <> q)) ≡ (s, ": " <> q)
unfolding span_words
span_words-all String.[] q h = refl
span_words-all (String.◌∷◌ c s) q h = rw (both_left (is_word c) (all_words s) h) (
    ap (λ (cut : String × String). (String.◌∷◌ c cut.0, cut.1))
      (span_words-all s q (both_right (is_word c) (all_words s) h)))

pub lacks_colon : (name q : String) → lacks b':' (name <> (": " <> q)) ≡ false
lacks_colon String.[] q = refl
lacks_colon (String.◌∷◌ c s) q = elim (Bool-cases (eqb (code c) b':')) [
  | inl e ↦ rw e refl
  | inr e ↦ rw e (lacks_colon s q)
]

pub keeps_line : (x : String) → lacks b':' x ≡ false → (x == "" || lacks b':' x) ≡ false
keeps_line x h = elim (Bool-cases (x == "")) [
  | inl e ↦
      let both : true ≡ false = sym (ap (lacks b':') ((eq_iff x "").0 e)) ∙ h in absurd (cc both)
  | inr e ↦ rw (e, h) refl
]

pub last_is-quoted : (c : Char) (a : String) → last_is b'"' c (a <> "\"") ≡ true
last_is-quoted c String.[] = refl
last_is-quoted c (String.◌∷◌ d a) = last_is-quoted d a

pub record KeyParts (c : Char) (s : String) : Type 0 where
  pub letter : is_letter c ≡ true
  pub solid : is_blank c ≡ false
  pub no_brace : eqb (code c) b'{' ≡ false
  pub words : all_words s ≡ true
  pub no_newline : lacks b'\n' (String.◌∷◌ c s) ≡ true
  pub no_comment : lacks b'#' (String.◌∷◌ c s) ≡ true

pub key_parts : (c : Char) (s : String) → is_key (String.◌∷◌ c s) ≡ true → KeyParts c s
key_parts c s h =
    let lines = lacks b'\n' (String.◌∷◌ c s) in
    let marks = lacks b'#' (String.◌∷◌ c s) in
    let start = both_left (is_start c) (all_words s && (lines && marks)) h in
    let rest = both_right (is_start c) (all_words s && (lines && marks)) h in
    let clean = both_right (all_words s) (lines && marks) rest in
    let opens = both_right (is_letter c) (not (is_blank c) && not (eqb (code c) b'{')) start in
    record {
      letter = both_left (is_letter c) (not (is_blank c) && not (eqb (code c) b'{')) start;
      solid = is_not (is_blank c) (both_left (not (is_blank c)) (not (eqb (code c) b'{')) opens);
      no_brace =
          is_not (eqb (code c) b'{')
            (both_right (not (is_blank c)) (not (eqb (code c) b'{')) opens);
      words = both_left (all_words s) (lines && marks) rest;
      no_newline = both_left lines marks clean;
      no_comment = both_right lines marks clean;
    }

abbrev pub in_quotes : String → String
in_quotes inner = "\"" <> (inner <> "\"")

pub match_line-key :
    (c : Char) (s inner : String)
    → KeyParts c s
    → match_line (String.◌∷◌ c (s <> (": " <> in_quotes inner)))
      ≡ some (String.◌∷◌ c s, in_quotes inner)
unfolding match_line skip_spaces
match_line-key c s inner k =
    ap
      (λ (cut : String × String).
        if is_letter c then after_key (String.◌∷◌ c cut.0) (skip_spaces cut.1) else none)
      (span_words-all s (in_quotes inner) k.words)
    ∙ ap (λ b. if b then some (String.◌∷◌ c s, in_quotes inner) else none) k.letter
