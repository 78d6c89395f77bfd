-- ===== src/Settings/Trim.antt =====
-- Go's strings.TrimSpace, and TrimRight by a slash.
use Prim.Native.Char.{Char, code}
use yage.Prelude.{
  String, Bool, true, false, not, ◌&&◌, ◌≡◌, refl, ◌∙◌, ap, arith, if◌then◌else◌, eqb,
}
use yage.Text.{is_space}
use yage.Settings.Join.{◌<>◌}

trim_left : String → String
trim_left String.[] = ""
trim_left (String.◌∷◌ c s) = if is_space (code c) then trim_left s else String.◌∷◌ c s

after_space : Char → String → String
after_space c String.[] = if is_space (code c) then "" else String.◌∷◌ c ""
after_space c (String.◌∷◌ d s) = String.◌∷◌ c (String.◌∷◌ d s)

trim_right : String → String
trim_right String.[] = ""
trim_right (String.◌∷◌ c s) = after_space c (trim_right s)

unfoldable pub trim_space : String → String
unfolding trim_left after_space trim_right is_space
trim_space s = trim_right (trim_left s)

after_slash : Char → String → String
after_slash c String.[] = if eqb (code c) b'/' then "" else String.◌∷◌ c ""
after_slash c (String.◌∷◌ d s) = String.◌∷◌ c (String.◌∷◌ d s)

-- strings.TrimRight(s, "/")
unfoldable pub trim_slashes : String → String
unfolding after_slash
trim_slashes String.[] = ""
trim_slashes (String.◌∷◌ c s) = after_slash c (trim_slashes s)

trims : trim_space " a b  " ≡ "a b"
unfolding trim_space
trims = refl

unfoldable pub is_solid : String → Bool
unfolding is_space
is_solid String.[] = true
is_solid (String.◌∷◌ c s) = not (is_space (code c)) && is_solid s

trim_right_solid : (s : String) → is_solid s ≡ true → trim_right s ≡ s
unfolding trim_right is_solid after_space
trim_right_solid String.[] h = refl
trim_right_solid (String.◌∷◌ c s) h =
    let here : is_space (code c) ≡ false = ground (arith, h) in
    let rest : is_solid s ≡ true = ground (arith, h) in
    ap (after_space c) (trim_right_solid s rest) ∙ kept c s here
  where
    kept : (d : Char) (t : String) → is_space (code d) ≡ false → after_space d t ≡ String.◌∷◌ d t
    kept d String.[] k = ap (λ b. if b then "" else String.◌∷◌ d "") k
    kept d (String.◌∷◌ e t) k = refl

-- Trimming leaves a text without spaces as it is.
pub trim_space_solid : (s : String) → is_solid s ≡ true → trim_space s ≡ s
unfolding trim_space trim_left is_solid
trim_space_solid String.[] h = refl
trim_space_solid (String.◌∷◌ c s) h =
    let here : is_space (code c) ≡ false = ground (arith, h) in
    ap (λ b. trim_right (if b then trim_left s else String.◌∷◌ c s)) here
    ∙ trim_right_solid (String.◌∷◌ c s) h

after_space-quoted : (c : Char) (a : String) → after_space c (a <> "\"") ≡ String.◌∷◌ c (a <> "\"")
unfolding after_space
after_space-quoted c String.[] = refl
after_space-quoted c (String.◌∷◌ d a) = refl

trim_right-quoted : (a : String) → trim_right (a <> "\"") ≡ a <> "\""
unfolding trim_right after_space is_space
trim_right-quoted String.[] = refl
trim_right-quoted (String.◌∷◌ c a) =
    ap (after_space c) (trim_right-quoted a) ∙ after_space-quoted c a

-- Trimming leaves a text between double quotes as it is.
pub trim_space-quoted : (a : String) → trim_space ("\"" <> (a <> "\"")) ≡ "\"" <> (a <> "\"")
unfolding trim_space trim_left is_space
trim_space-quoted a = trim_right-quoted ("\"" <> a)
