-- ===== src/Capacity/Check/Examples.antt =====
-- The theorems about the capacity checks at concrete inputs.
use yage.Prelude.{arith, ◌≡◌, refl, ◌≤◌, ◌↔◌, ◌⊎◌, false, none, some, [], ◌∷◌, pos}
use yage.Float.{IsLe}
use yage.Float.Thousandths.{thousandths, thousandths-IsIeee}
use yage.Capacity.{add64, Plan, HostCapacity, ExistingUsage}
use yage.Prelude.{add64}
use yage.Capacity.Check.{
  budget, fraction, used, larger, tolerance_of, tolerance_of, larger, fraction, used, budget, check,
  check_combined, fits, abort, mem_frac, cpu_frac, disk_frac, hard_ceiling, threshold_of,
}
use yage.Capacity.Check.Overcommit.{
  rank, check_combined_mono, check_combined-fits_iff, check_combined-abort_iff, HasMachines,
}

abbrev host : HostCapacity
host = record {
  nodes = "pve" ∷ [];
  cpu_cores = pos 16;
  memory_mib = pos 32768;
  storage_gb = pos 500;
  storage_by = [];
}

abbrev small_plan : Plan
small_plan = record { cpu_cores = pos 4; memory_mib = pos 8192; storage_gb = pos 80; items = [] }

abbrev large_plan : Plan
large_plan = record { cpu_cores = pos 10; memory_mib = pos 16384; storage_gb = pos 300; items = [] }

large_passes : check thousandths large_plan host (some 0) ≡ none
unfolding check budget threshold_of
large_passes = refl

abbrev machines : HasMachines host
machines = record { cores = refl; memory = refl }

check_combined-fits_iff_example :
    ((check_combined thousandths small_plan host none (some 0) (some 0)).0 ≡ fits) ↔ (
      IsLe thousandths
        (cpu_frac thousandths small_plan host none)
        (threshold_of thousandths (some 0))
      × IsLe thousandths
          (mem_frac thousandths small_plan host none)
          (threshold_of thousandths (some 0))
      × IsLe thousandths
          (disk_frac thousandths small_plan host none)
          (threshold_of thousandths (some 0)))
check_combined-fits_iff_example =
    check_combined-fits_iff thousandths thousandths-IsIeee host machines (some 0) (some 0)
      small_plan none

abbrev full_disk : ExistingUsage
full_disk = record {
  vm_count = pos 1;
  cpu_cores = pos 60;
  memory_mib = pos 1024;
  storage_gb = pos 600;
  by_pool = [];
}

check_combined-abort_iff_example :
    ((check_combined thousandths small_plan host (some full_disk) (some 0) (some 0)).0 ≡ abort) ↔ (
      (thousandths.le
          (mem_frac thousandths small_plan host (some full_disk))
          (hard_ceiling thousandths (some 0))
        ≡ false)
      ⊎ (thousandths.le
            (disk_frac thousandths small_plan host (some full_disk))
            (hard_ceiling thousandths (some 0))
          ≡ false))
check_combined-abort_iff_example =
    check_combined-abort_iff thousandths thousandths-IsIeee host machines (some 0) (some 0)
      small_plan (some full_disk) refl refl

check_combined_mono_example :
    rank (check_combined thousandths small_plan host none (some 0) (some 0)).0
    ≤ rank (check_combined thousandths small_plan host (some full_disk) (some 0) (some 0)).0
unfolding used
check_combined_mono_example =
    check_combined_mono thousandths thousandths-IsIeee host machines (some 0) (some 0) small_plan
      none (some full_disk) (0, 60, 4, refl, refl, refl, omega arith, omega arith)
      (0, 1024, 8192, refl, refl, refl, omega arith, omega arith)
      (0, 600, 80, refl, refl, refl, omega arith, omega arith) refl refl

-- Disk alone makes the verdict abort.
runs_of_check_combined :
    ((check_combined thousandths small_plan host none (some 0) (some 0)).0 ≡ fits)
    × ((check_combined thousandths small_plan host (some full_disk) (some 0) (some 0)).0 ≡ abort)
unfolding check_combined cpu_frac mem_frac disk_frac fraction used larger threshold_of hard_ceiling
    tolerance_of add64
runs_of_check_combined = (refl, refl)
