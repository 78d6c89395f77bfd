-- ===== src/Settings/Join.antt =====
-- Go's `+` on strings, and strings.Join: they compute on their first text.
use Prim.Native.Char.{code}
use yage.Prelude.{ℕ, Bool, true, not, ◌&&◌, eqb, String, List, [], ◌∷◌, ◌≡◌, refl, ap}

infixr 65 ◌<>◌
abbrev pub ◌<>◌ : String → String → String
String.[] <> t = t
String.◌∷◌ c s <> t = String.◌∷◌ c (s <> t)

abbrev pub join : List String → String → String
join [] separator = ""
join (s ∷ []) separator = s
join (s ∷ t ∷ rest) separator = s <> (separator <> join (t ∷ rest) separator)

pub <>_assoc : (a b c : String) → (a <> b) <> c ≡ a <> (b <> c)
<>_assoc String.[] b c = refl
<>_assoc (String.◌∷◌ d a) b c = ap (String.◌∷◌ d) (<>_assoc a b c)

pub <>-nil : (a : String) → a <> "" ≡ a
<>-nil String.[] = refl
<>-nil (String.◌∷◌ d a) = ap (String.◌∷◌ d) (<>-nil a)

-- A text that ends each of the texts but the last, as one that stands in front of all but the first.
abbrev pub prefixed : String → List String → String
prefixed separator [] = ""
prefixed separator (s ∷ rest) = separator <> (s <> prefixed separator rest)

pub join-prefixed :
    (s : String) (rest : List String) (separator : String)
    → join (s ∷ rest) separator ≡ s <> prefixed separator rest
join-prefixed s [] separator = <>-nil' s
  where
    <>-nil' : (a : String) → a ≡ a <> ""
    <>-nil' String.[] = refl
    <>-nil' (String.◌∷◌ d a) = ap (String.◌∷◌ d) (<>-nil' a)
join-prefixed s (t ∷ rest) separator =
    ap (λ l. s <> (separator <> l)) (join-prefixed t rest separator)

-- Whether no character of a text has the code.
abbrev pub lacks : ℕ → String → Bool
lacks k String.[] = true
lacks k (String.◌∷◌ c s) = let rest = lacks k s in not (eqb (code c) k) && rest
