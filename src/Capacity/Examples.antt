-- ===== src/Capacity/Examples.antt =====
-- The theorems about the capacity plan at concrete inputs.
use yage.Prelude.{arith, ◌≡◌, refl, pos, negsuc}
use yage.Config.Sample.{sample}
use yage.Capacity.{plan_for_k3s, atoi_or}
use yage.Capacity.Totals.{plan_for_k3s_footprint}

runs_of_atoi_or :
    (atoi_or " 42 " (pos 7) ≡ pos 42)
    × (atoi_or "-3" (pos 7) ≡ negsuc 2)
    × (atoi_or "4x" (pos 7) ≡ pos 7)
    × (atoi_or "9223372036854775808" (pos 7) ≡ pos 7)
unfolding atoi_or
runs_of_atoi_or = (refl, refl, refl, refl)

plan_for_k3s_footprint_example :
    ((plan_for_k3s sample).cpu_cores ≡ pos 12)
    × ((plan_for_k3s sample).memory_mib ≡ pos 6144)
    × ((plan_for_k3s sample).storage_gb ≡ pos 110)
unfolding atoi_or
plan_for_k3s_footprint_example =
    plan_for_k3s_footprint sample 3 2 1 0 refl refl refl refl (omega arith) (omega arith)
      (omega arith) (omega arith)
