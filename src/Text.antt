-- ===== src/Text.antt =====
-- What the code uses of Go's strings and strconv packages, over the code points of a text.
use Prim.Native.Char.{code}
use yage.Prelude.{
  refl, sym, ap, ◌∙◌, All-append, false, All, ◌≡◌, ℕ, zero, suc, ◌+◌, ◌-◌, ◌*◌, ◌^◌, String, Bool,
  ◌&&◌, ◌||◌, Option, none, some, List, [], ◌∷◌, ℤ, pos, negsuc, leb, ltb, eqb, if◌then◌else◌,
}
use mathlib.Core.List.{reverse, reverse-cons, reverse-reverse}
use mathlib.Core.Path.{ap, sym, subst}

abbrev pub codes : String → List ℕ
codes String.[] = []
codes (String.◌∷◌ c s) = code c ∷ codes s

-- unicode.IsSpace
unfoldable pub is_space : ℕ → Bool
is_space c =
    (leb 9 c && leb c 13)
    || eqb c 32
    || eqb c 0x85
    || eqb c 0xa0
    || eqb c 0x1680
    || (leb 0x2000 c && leb c 0x200a)
    || eqb c 0x2028
    || eqb c 0x2029
    || eqb c 0x202f
    || eqb c 0x205f
    || eqb c 0x3000

trim_left : List ℕ → List ℕ
trim_left [] = []
trim_left (c ∷ cs) = if is_space c then trim_left cs else c ∷ cs

-- strings.TrimSpace
unfoldable pub trim_space : List ℕ → List ℕ
unfolding trim_left is_space
trim_space s = reverse (trim_left (reverse (trim_left s)))

IsSolid : List ℕ → Type 0
IsSolid = All (λ (c : ℕ). is_space c ≡ false)

trim_left_solid : (s : List ℕ) → IsSolid s → trim_left s ≡ s
unfolding trim_left IsSolid
trim_left_solid [] solid = refl
trim_left_solid (c ∷ cs) solid = rw solid.0 refl

reverse-IsSolid : (s : List ℕ) → IsSolid s → IsSolid (reverse s)
unfolding IsSolid
reverse-IsSolid [] solid = tt
reverse-IsSolid (c ∷ cs) solid = subst IsSolid (sym (reverse-cons c cs)) (
    All-append (λ (d : ℕ). is_space d ≡ false) (reverse cs) (c ∷ []) (reverse-IsSolid cs solid.1)
      (solid.0, tt))

-- Trimming leaves a text without spaces as it is.
pub trim_space_solid : (s : List ℕ) → All (λ (c : ℕ). is_space c ≡ false) s → trim_space s ≡ s
unfolding trim_space IsSolid
trim_space_solid s solid =
    ap (λ l. reverse (trim_left (reverse l))) (trim_left_solid s solid)
    ∙ ap reverse (trim_left_solid (reverse s) (reverse-IsSolid s solid))
    ∙ reverse-reverse s

unfoldable pub is_digit : ℕ → Bool
is_digit c = leb b'0' c && leb c b'9'

unfoldable pub digits_value : ℕ → List ℕ → Option ℕ
digits_value n [] = some n
digits_value n (c ∷ cs) = if is_digit c then digits_value (n * 10 + (c - b'0')) cs else none

-- The magnitude after the sign; at least one digit is wanted.
unfoldable pub magnitude : List ℕ → Option ℕ
magnitude [] = none
magnitude (c ∷ cs) = digits_value 0 (c ∷ cs)

unfoldable pub non_negative : Option ℕ → Option ℤ
non_negative none = none
non_negative (some n) = if ltb n (2 ^ 63) then some (pos n) else none

negated : Option ℕ → Option ℤ
negated none = none
negated (some zero) = some (pos 0)
negated (some (suc n)) = if ltb n (2 ^ 63) then some (negsuc n) else none

-- strconv.Atoi, `none` for an error
unfoldable pub atoi : List ℕ → Option ℤ
unfolding is_digit digits_value magnitude non_negative negated
atoi [] = none
atoi (c ∷ cs) =
    if eqb c b'-'
    then negated (magnitude cs)
    else non_negative (magnitude (if eqb c b'+' then cs else c ∷ cs))
