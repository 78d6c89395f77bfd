-- ===== src/Snapshot/Apps.antt =====
-- internal/config/snapshot.go: the application groups as one text, "2 medium 1 heavy".
use Prim.Native.Char.{code}
use yage.Prelude.{
  suc, String, not, ◌&&◌, ◌||◌, Option, none, some, List, [], ◌∷◌, ℤ, pos, negsuc, leb_ℤ, eqb, ◌==◌,
  if◌then◌else◌,
}
use yage.Text.{codes, atoi, is_space}
use yage.Config.{AppGroup}
use yage.Settings.Join.{◌<>◌, join}
use yage.Settings.Itoa.{itoa}

-- strconv.Itoa
abbrev pub int_text : ℤ → String
int_text (pos n) = itoa n
int_text (negsuc n) = "-" <> itoa (suc n)

printed_groups : List AppGroup → List String
printed_groups [] = []
printed_groups (a ∷ rest) =
    let later = printed_groups rest in
    if leb_ℤ (pos 1) a.count && not (a.template == "")
    then (int_text a.count <> (" " <> a.template)) ∷ later
    else later

unfoldable pub print_apps : List AppGroup → String
unfolding printed_groups
print_apps apps = join (printed_groups apps) " "

-- The replacer: a comma, an x or a multiplication sign is a space.
separators_replaced : String → String
separators_replaced String.[] = ""
separators_replaced (String.◌∷◌ c s) =
    let rest = separators_replaced s in
    if eqb (code c) b',' || eqb (code c) b'x' || eqb (code c) 0xd7
    then String.◌∷◌ " " rest
    else String.◌∷◌ c rest

abbrev put_word : String × List String → List String
put_word (word, rest) = if word == "" then rest else word ∷ rest

-- The word that a text begins with, and the words that follow it.
cut : String → String × List String
cut String.[] = ("", [])
cut (String.◌∷◌ c s) =
    let (word, rest) = cut s in
    if is_space (code c) then ("", put_word (word, rest)) else (String.◌∷◌ c word, rest)

-- strings.Fields
unfoldable pub fields : String → List String
unfolding cut is_space
fields s = put_word (cut s)

abbrev group_of : Option ℤ → String → List AppGroup → List AppGroup
group_of none template later = later
group_of (some n) template later =
    if leb_ℤ (pos 1) n && (template == "light" || template == "medium" || template == "heavy")
    then record { count = n; template = template; custom_cores = pos 0; custom_mem_mib = pos 0 }
      ∷ later
    else later

read_groups : (String → String) → List String → List AppGroup
read_groups to_lower (a ∷ b ∷ rest) =
    let later = read_groups to_lower rest in group_of (atoi (codes a)) (to_lower b) later
read_groups to_lower _ = []

abbrev or_old : List AppGroup → List AppGroup → List AppGroup
or_old [] old = old
or_old (a ∷ apps) old = a ∷ apps

unfoldable pub read_apps : (String → String) → String → List AppGroup → List AppGroup
unfolding fields separators_replaced read_groups
read_apps to_lower v old =
    if v == "" then old else or_old (read_groups to_lower (fields (separators_replaced v))) old
