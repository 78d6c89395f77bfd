-- ===== src/Csi/Examples.antt =====
-- The theorems about the CSI registry at concrete inputs: a driver is its name with a number.
use yage.Prelude.{
  ℕ, String, Bool, true, false, ◌&&◌, eqb, some, [], ◌∷◌, Map, lookup, insert, contains, ◌==◌, ◌≡◌,
  refl, arith, eq_iff,
}
use yage.Config.{Config}
use yage.Config.Sample.{sample}
use yage.Float.Thousandths.{Amount}
use yage.Csi.{get, got, returned, register, selector, chosen_names}
use yage.Csi.Registry.{register-get}
use yage.Csi.Selection.{selector-values_at, first_occurrences, values_at}

abbrev TestDriver : Type 0
TestDriver = String × ℕ

abbrev name_of : TestDriver → String
name_of d = d.0

abbrev same : TestDriver → TestDriver → Bool
same a b = a.0 == b.0 && eqb a.1 b.1

same_eq : (a b : TestDriver) → same a b ≡ true → a ≡ b
same_eq (a, m) (b, n) h = ground (arith, eq_iff a b)

same_refl : (a : TestDriver) → same a a ≡ true
same_refl (a, m) = ground (arith, eq_iff a a)

abbrev two_drivers : Map TestDriver
two_drivers = ("hcloud-csi", ("hcloud-csi", 1)) ∷ ("aws-ebs", ("aws-ebs", 2)) ∷ []

abbrev three_drivers : Map TestDriver
three_drivers =
    ("hcloud-csi", ("hcloud-csi", 1))
    ∷ ("aws-ebs", ("aws-ebs", 2))
    ∷ ("openebs", ("openebs", 3))
    ∷ []

registers_third : register name_of same two_drivers (some ("openebs", 3)) ≡ returned three_drivers
unfolding register lookup insert
registers_third = refl

register-get_example :
    (get three_drivers "openebs" ≡ got ("openebs", 3))
    × ((n : String) → ("openebs" == n) ≡ false → lookup n three_drivers ≡ lookup n two_drivers)
    × (register name_of same three_drivers (some ("openebs", 3)) ≡ returned three_drivers)
register-get_example =
    register-get name_of same same_eq same_refl two_drivers three_drivers ("openebs", 3)
      registers_third

abbrev chooser : Config Amount
chooser = record sample { csi_drivers = "openebs" ∷ "longhorn" ∷ "aws-ebs" ∷ "openebs" ∷ [] }

selector-values_at_example :
    selector three_drivers chooser
    ≡ values_at three_drivers (first_occurrences (chosen_names chooser))
selector-values_at_example = selector-values_at three_drivers chooser

chooser_drivers : selector three_drivers chooser ≡ ("openebs", 3) ∷ ("aws-ebs", 2) ∷ []
unfolding selector contains lookup
chooser_drivers = refl
