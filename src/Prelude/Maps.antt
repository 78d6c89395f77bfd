-- ===== src/Prelude/Maps.antt =====
-- Go maps with text keys, as association lists in which a key is written once.
use Prim.Native.String.{String}
use mathlib.Core.Path.{◌≡◌, refl}
use mathlib.Core.Bool.{Bool, false, ◌||◌}
use mathlib.Core.Option.{Option, none, some}
use mathlib.Core.List.{List, [], ◌∷◌}
use native.Mathlib.Omega.{arith}
use text.Mathlib.Text.{◌==◌}
use text.Mathlib.TextEquality.{eq_iff}
use yage.Prelude.Tests.{if◌then◌else◌}

abbrev pub Map {ℓ} : Type ℓ → Type ℓ
Map V = List (String × V)

module _ {ℓ} {Value : Type ℓ} where
  unfoldable pub lookup : String → Map Value → Option Value
  lookup key [] = none
  lookup key ((name, value) ∷ rest) = if name == key then some value else lookup key rest

  unfoldable pub insert : String → Value → Map Value → Map Value
  insert key new [] = (key, new) ∷ []
  insert key new ((name, value) ∷ rest) =
      let tail = insert key new rest in
      if name == key then (key, new) ∷ rest else (name, value) ∷ tail

  pub lookup-insert :
      (key other : String) (new : Value) (entries : Map Value)
      → lookup other (insert key new entries)
        ≡ (if key == other then some new else lookup other entries)
  unfolding lookup insert
  lookup-insert key other new [] = refl
  lookup-insert key other new ((name, value) ∷ rest) =
      let later = lookup-insert key other new rest in
      ground (later, arith, eq_iff name other, eq_iff name key, eq_iff key other)

-- Whether a text stands in a list.
unfoldable pub contains : List String → String → Bool
contains [] t = false
contains (x ∷ xs) t = x == t || contains xs t
