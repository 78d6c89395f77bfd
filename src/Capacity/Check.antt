-- ===== src/Capacity/Check.antt =====
-- internal/cluster/capacity/capacity.go: Check, WouldFitAsK3s and CheckCombined. The texts made by
-- fmt.Sprintf are values that hold their arguments.
pub mod Budget
pub mod Overcommit
mod Examples
use yage.Prelude.{
  ℕ, String, Bool, true, false, Option, none, some, List, [], ◌∷◌, ◌++◌, ℤ, pos, leb_ℤ, ltb_ℤ,
  add64, if◌then◌else◌, ◌||◌, ◌&&◌,
}
use yage.Config.{Config}
use yage.Float.{Float}
use yage.Capacity.{Plan, HostCapacity, ExistingUsage, plan_for_k3s}

-- One line of the error of Check: requested, capacity and budget.
pub data Overflow : Type 0 where
  cpu : ℤ → ℤ → ℤ → Overflow
  memory : ℤ → ℤ → ℤ → Overflow
  storage : ℤ → ℤ → ℤ → Overflow

pub data Verdict : Type 0 where
  fits tight abort : Verdict

-- Verdict.String
pub show : Verdict → String
show fits = "fits"
show tight = "tight"
show abort = "abort"

abbrev list_if {ℓ} : {A : Type ℓ} → Bool → A → List A
list_if true a = a ∷ []
list_if false a = []

abbrev error_of {ℓ} : {A : Type ℓ} → List A → Option (List A)
error_of [] = none
error_of (m ∷ ms) = some (m ∷ ms)

module _ (f : Float) where
  open f use {F, lit, of_int, add, mul, div, le, lt, trunc}

  -- The threshold in force: DefaultThreshold is 2/3.
  pub threshold_of : F → F
  threshold_of t = if le t (lit 0 1) || lt (lit 1 1) t then lit 2 3 else t

  pub budget : ℤ → F → ℤ
  budget n t = trunc (mul (of_int n) (threshold_of t))

  -- `none` is nil.
  pub check : Plan → HostCapacity → F → Option (List Overflow)
  check plan host t =
      let max_cpu = budget host.cpu_cores t in
      let max_mem = budget host.memory_mib t in
      let max_disk = budget host.storage_gb t in
      error_of (
        list_if (ltb_ℤ max_cpu plan.cpu_cores) (cpu plan.cpu_cores host.cpu_cores max_cpu)
        ++ (list_if (ltb_ℤ max_mem plan.memory_mib) (memory plan.memory_mib host.memory_mib max_mem)
            ++ list_if (ltb_ℤ (pos 0) host.storage_gb && ltb_ℤ max_disk plan.storage_gb)
                (storage plan.storage_gb host.storage_gb max_disk)))

  pub would_fit_as_k3s : Config F → HostCapacity → F → Bool × Plan
  would_fit_as_k3s cfg host t =
      let p = plan_for_k3s cfg in elim (check p host t) [ none ↦ (true, p) | some _ ↦ (false, p) ]

  -- The percentage in force: DefaultOvercommitTolerancePct is 15.
  pub tolerance_of : F → F
  tolerance_of p = if le p (lit 0 1) then lit 15 1 else p

  pub hard_ceiling : F → F
  hard_ceiling p = add (lit 1 1) (div (tolerance_of p) (lit 100 1))

  pub larger : F → F → F
  larger a b = if lt a b then b else a

  pub used : (ExistingUsage → ℤ) → Option ExistingUsage → ℤ
  used field none = pos 0
  used field (some e) = field e

  pub fraction : ℤ → ℤ → ℤ → F
  fraction used planned capacity = div (of_int (add64 used planned)) (of_int capacity)

  pub cpu_frac : Plan → HostCapacity → Option ExistingUsage → F
  cpu_frac p host e = fraction (used (λ x. x.cpu_cores) e) p.cpu_cores host.cpu_cores

  pub mem_frac : Plan → HostCapacity → Option ExistingUsage → F
  mem_frac p host e = fraction (used (λ x. x.memory_mib) e) p.memory_mib host.memory_mib

  pub disk_frac : Plan → HostCapacity → Option ExistingUsage → F
  disk_frac p host e =
      if ltb_ℤ (pos 0) host.storage_gb
      then fraction (used (λ x. x.storage_gb) e) p.storage_gb host.storage_gb
      else lit 0 1

  -- The arguments of the message, behind the verdict that it is given for.
  pub record Message : Type 0 where
    pub plan : Plan
    pub host : HostCapacity
    pub existing : Option ExistingUsage
    pub threshold : F
    pub tolerance : F
    pub shortfall : Option (F × F)

  pub check_combined : Plan → HostCapacity → Option ExistingUsage → F → F → Verdict × Message
  check_combined p host e t tol =
      let cf = cpu_frac p host e in
      let mf = mem_frac p host e in
      let df = disk_frac p host e in
      let max_frac = larger (larger cf mf) df in
      let mem_disk = larger mf df in
      let message : Option (F × F) → Message = λ s. record {
        plan = p;
        host = host;
        existing = e;
        threshold = threshold_of t;
        tolerance = tolerance_of tol;
        shortfall = s;
      } in
      if le max_frac (threshold_of t)
      then (fits, message none)
      else if le mem_disk (hard_ceiling tol)
      then (tight, message none)
      else (abort, message (some (mem_disk, hard_ceiling tol)))
