-- ===== src/Capacity/Check/Overcommit.antt =====
-- The verdicts of CheckCombined, over any floats with the laws of IEEE 754.
use yage.Prelude.{
  add64-pos, ℕ, ◌+◌, ◌^◌, ◌≤◌, ◌<◌, ◌≡◌, ◌↔◌, ◌⊎◌, inl, inr, true, false, Option, arith, ℤ, pos,
  leb_ℤ, ltb_ℤ, add64, Bool-cases,
}
use yage.Float.{Float, IsIeee, IsLe}
use yage.Capacity.{Plan, HostCapacity, ExistingUsage}
use yage.Capacity.Check.{
  used, tolerance_of, fraction, Verdict, fits, tight, abort, check_combined, cpu_frac, mem_frac,
  disk_frac, larger, threshold_of, hard_ceiling,
}

-- The host has cores and memory, so that no fraction is NaN.
pub record HasMachines (host : HostCapacity) : Type 0 where
  pub cores : ltb_ℤ (pos 0) host.cpu_cores ≡ true
  pub memory : ltb_ℤ (pos 0) host.memory_mib ≡ true

-- `x` is at most `y`, and adding the planned `z` to either does not wrap around.
abbrev pub IsBelow : ℤ → ℤ → ℤ → Type 0
IsBelow x y z =
    (a : ℕ) × (b : ℕ) × (c : ℕ) × (x ≡ pos a)
    × (y ≡ pos b)
    × (z ≡ pos c)
    × (a ≤ b)
    × (b + c < 2 ^ 63)

IsBelow-le : (x y z : ℤ) → IsBelow x y z → leb_ℤ (add64 x z) (add64 y z) ≡ true
IsBelow-le x y z (a, b, c, ex, ey, ez, le, room) =
    let low = add64-pos a c (omega arith) in
    let high = add64-pos b c room in rw (ex, ey, ez, low, high) (ground arith)

-- The severity of a verdict.
abbrev pub rank : Verdict → ℕ
rank fits = 0
rank tight = 1
rank abort = 2

rank_mono : (v w : Verdict) → (w ≡ fits → v ≡ fits) → (v ≡ abort → w ≡ abort) → rank v ≤ rank w
rank_mono v w h k = ground arith

module _ (f : Float) (laws : IsIeee f) where
  -- The larger of two numbers is below a bound exactly when both are.
  larger-le :
      (a b c : f.F)
      → IsLe f a a
      → IsLe f b b
      → (IsLe f (larger f a b) c ↔ (IsLe f a c × IsLe f b c))
  unfolding larger
  larger-le a b c ha hb =
      ground (
        arith,
        laws.lt-eq-not-le a b ha hb,
        laws.lt_le a b,
        laws.le_trans a b c,
        laws.le_trans b a c,
      )

  larger_num : (a b : f.F) → IsLe f a a → IsLe f b b → IsLe f (larger f a b) (larger f a b)
  unfolding larger
  larger_num a b ha hb = ground arith

  threshold-le-one : (t : f.F) → IsLe f t t → IsLe f (threshold_of f t) (f.lit 1 1)
  unfolding threshold_of
  threshold-le-one t ht =
      let one = laws.le_refl_right _ _ (laws.lit_pos 1 0) in
      ground (arith, laws.lit_le_one 2 2 (omega arith), laws.lt-eq-not-le (f.lit 1 1) t one ht)

  one-le-ceiling : (p : f.F) → IsLe f p p → IsLe f (f.lit 1 1) (hard_ceiling f p)
  unfolding hard_ceiling tolerance_of
  one-le-ceiling p hp =
      let zero_num = laws.le_refl_left _ _ (laws.lit_pos 1 0) in
      let tol_pos : IsLe f (f.lit 0 1) (tolerance_of f p) = ground (
        arith,
        laws.lit_pos 15 0,
        laws.lt-eq-not-le (f.lit 0 1) p zero_num hp,
        laws.lt_le (f.lit 0 1) p,
      ) in
      laws.le-add _ _ (laws.lit_pos 1 0) (laws.div_pos _ 99 0 tol_pos)

  fraction_mono :
      (a b c d : ℤ)
      → leb_ℤ (add64 a c) (add64 b c) ≡ true
      → ltb_ℤ (pos 0) d ≡ true
      → IsLe f (fraction f a c d) (fraction f b c d)
  unfolding fraction
  fraction_mono a b c d h hd = laws.div_mono _ _ d hd (laws.of_int_mono _ _ h)

  fraction_num : (a c d : ℤ) → ltb_ℤ (pos 0) d ≡ true → IsLe f (fraction f a c d) (fraction f a c d)
  fraction_num a c d hd = fraction_mono a a c d (ground arith) hd

  disk_num :
      (p : Plan) (host : HostCapacity) (e : Option ExistingUsage)
      → IsLe f (disk_frac f p host e) (disk_frac f p host e)
  unfolding disk_frac
  disk_num p host e = elim (Bool-cases (ltb_ℤ (pos 0) host.storage_gb)) [
    | inl h ↦ rw h (fraction_num (used f (λ x. x.storage_gb) e) p.storage_gb host.storage_gb h)
    | inr h ↦ rw h (laws.le_refl_left _ _ (laws.lit_pos 1 0))
  ]

  cpu_num :
      (p : Plan) (host : HostCapacity) (e : Option ExistingUsage)
      → HasMachines host
      → IsLe f (cpu_frac f p host e) (cpu_frac f p host e)
  unfolding cpu_frac
  cpu_num p host e h = fraction_num _ p.cpu_cores host.cpu_cores h.cores

  mem_num :
      (p : Plan) (host : HostCapacity) (e : Option ExistingUsage)
      → HasMachines host
      → IsLe f (mem_frac f p host e) (mem_frac f p host e)
  unfolding mem_frac
  mem_num p host e h = fraction_num _ p.memory_mib host.memory_mib h.memory

  disk_mono :
      (p : Plan) (host : HostCapacity) (e e' : Option ExistingUsage)
      → leb_ℤ
          (add64 (used f (λ x. x.storage_gb) e) p.storage_gb)
          (add64 (used f (λ x. x.storage_gb) e') p.storage_gb)
        ≡ true
      → IsLe f (disk_frac f p host e) (disk_frac f p host e')
  unfolding disk_frac
  disk_mono p host e e' le = elim (Bool-cases (ltb_ℤ (pos 0) host.storage_gb)) [
    | inl h ↦ rw h (fraction_mono _ _ p.storage_gb host.storage_gb le h)
    | inr h ↦ rw h (laws.le_refl_left _ _ (laws.lit_pos 1 0))
  ]

  module _ (host : HostCapacity) (machines : HasMachines host) (t tol : f.F) (p : Plan) where
    -- On a host with cores and memory, the verdict is `fits` exactly when CPU, memory and disk are
    -- each within the soft budget.
    pub check_combined-fits_iff :
        (e : Option ExistingUsage)
        → ((check_combined f p host e t tol).0 ≡ fits) ↔ (
            IsLe f (cpu_frac f p host e) (threshold_of f t)
            × IsLe f (mem_frac f p host e) (threshold_of f t)
            × IsLe f (disk_frac f p host e) (threshold_of f t))
    unfolding check_combined
    check_combined-fits_iff e =
        let cn = cpu_num p host e machines in
        let mn = mem_num p host e machines in
        let dn = disk_num p host e in
        let limit = threshold_of f t in
        let inner = larger-le (cpu_frac f p host e) (mem_frac f p host e) limit cn mn in
        let outer =
          larger-le (larger f (cpu_frac f p host e) (mem_frac f p host e)) (disk_frac f p host e)
            limit (larger_num _ _ cn mn) dn in
        ground (arith, inner, outer)

    -- On a host with cores and memory, and for a threshold and a tolerance that are not NaN, the
    -- verdict is `abort` exactly when memory or disk is above the ceiling, whatever the CPU is.
    pub check_combined-abort_iff :
        (e : Option ExistingUsage)
        → IsLe f t t
        → IsLe f tol tol
        → ((check_combined f p host e t tol).0 ≡ abort) ↔ (
            (f.le (mem_frac f p host e) (hard_ceiling f tol) ≡ false)
            ⊎ (f.le (disk_frac f p host e) (hard_ceiling f tol) ≡ false))
    unfolding check_combined
    check_combined-abort_iff e tn toln =
        let mn = mem_num p host e machines in
        let dn = disk_num p host e in
        let limit = threshold_of f t in
        let ceiling = hard_ceiling f tol in
        let within = larger-le (mem_frac f p host e) (disk_frac f p host e) ceiling mn dn in
        let soft-le-hard = laws.le_trans _ _ _ (threshold-le-one t tn) (one-le-ceiling tol toln) in
        let soft = check_combined-fits_iff e in
        ground (
          arith,
          within,
          soft,
          laws.le_trans (mem_frac f p host e) limit ceiling,
          laws.le_trans (disk_frac f p host e) limit ceiling,
          soft-le-hard,
        )

    -- On a host with cores and memory, and for a threshold and a tolerance that are not NaN, more
    -- usage on the host never improves the verdict, when no sum of usage and plan wraps around.
    pub check_combined_mono :
        (e e' : Option ExistingUsage)
        → IsBelow (used f (λ x. x.cpu_cores) e) (used f (λ x. x.cpu_cores) e') p.cpu_cores
        → IsBelow (used f (λ x. x.memory_mib) e) (used f (λ x. x.memory_mib) e') p.memory_mib
        → IsBelow (used f (λ x. x.storage_gb) e) (used f (λ x. x.storage_gb) e') p.storage_gb
        → IsLe f t t
        → IsLe f tol tol
        → rank (check_combined f p host e t tol).0 ≤ rank (check_combined f p host e' t tol).0
    check_combined_mono e e' hc hm hs tn toln =
        let cl : IsLe f (cpu_frac f p host e) (cpu_frac f p host e') =
          unfold cpu_frac in
          fraction_mono _ _ p.cpu_cores host.cpu_cores (IsBelow-le _ _ _ hc) machines.cores in
        let ml : IsLe f (mem_frac f p host e) (mem_frac f p host e') =
          unfold mem_frac in
          fraction_mono _ _ p.memory_mib host.memory_mib (IsBelow-le _ _ _ hm) machines.memory in
        let dl : IsLe f (disk_frac f p host e) (disk_frac f p host e') =
          disk_mono p host e e' (IsBelow-le _ _ _ hs) in
        let limit = threshold_of f t in
        let ceiling = hard_ceiling f tol in
        let fits_here = check_combined-fits_iff e in
        let fits_there = check_combined-fits_iff e' in
        let aborts_here = check_combined-abort_iff e tn toln in
        let aborts_there = check_combined-abort_iff e' tn toln in
        rank_mono _ _
          (λ g.
            let (c, m, d) = fits_there.0 g in
            fits_here.1
              (laws.le_trans _ _ _ cl c, laws.le_trans _ _ _ ml m, laws.le_trans _ _ _ dl d))
          (λ g. aborts_there.1 (
            ground (
              arith,
              aborts_here.0 g,
              laws.le_trans (mem_frac f p host e) (mem_frac f p host e') ceiling,
              laws.le_trans (disk_frac f p host e) (disk_frac f p host e') ceiling,
            )))
