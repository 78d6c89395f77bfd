-- ===== src/Feasibility/Sizing.antt =====
-- The projection of the workload and the number of nodes.
use yage.Prelude.{
  ℕ, suc, ◌+◌, ◌*◌, ◌/◌, ◌^◌, max, ◌≤◌, ◌<◌, ◌≡◌, ◌↔◌, refl, true, false, none, List, [], ◌∷◌,
  arith, pos, leb_ℤ, add64, div64, All,
}
use native.Mathlib.Nat.{lt-div-mul-add, div-lt_iff_lt-mul, le_trans}
use yage.Config.{Config, AppGroup}
use yage.Float.{Float, IsIeee, IsLe}
use yage.Feasibility.{Shape, has_apps, project_shape, ceil_div, workers_for}
use yage.Feasibility.Verdict.{FeasibilityVerdict, comfortable, tight, infeasible, verdict_for}

has_apps-false :
    (gs : List AppGroup)
    → (has_apps gs ≡ false) ↔ All (λ (g : AppGroup). leb_ℤ g.count (pos 0) ≡ true) gs
unfolding has_apps
has_apps-false [] = (λ _. tt, λ _. refl)
has_apps-false (g ∷ gs) = ground (arith, has_apps-false gs)

-- The gate is not applicable exactly when no group of apps has a count above 0 and the database has
-- no gigabytes.
pub project_shape-none_iff :
    (f : Float) (cfg : Config f.F)
    → (project_shape f cfg ≡ none) ↔ (
        All (λ (g : AppGroup). leb_ℤ g.count (pos 0) ≡ true) cfg.workload.apps
        × (leb_ℤ cfg.workload.database_gb (pos 0) ≡ true))
unfolding project_shape
project_shape-none_iff f cfg = ground (arith, has_apps-false cfg.workload.apps)

ceil_div-pos :
    (a b : ℕ) → a + suc b < 2 ^ 63 → ceil_div (pos a) (pos (suc b)) ≡ pos ((a + b) / suc b)
unfolding ceil_div add64 div64
ceil_div-pos a b h = ground arith

ceil_enough : (a b : ℕ) → a ≤ (a + b) / suc b * suc b
ceil_enough a b = omega (arith, lt-div-mul-add {a = a + b} {b = suc b} (omega arith))

ceil_least : (a b v : ℕ) → a ≤ v * suc b → (a + b) / suc b ≤ v
ceil_least a b v h =
    omega
      (arith, (div-lt_iff_lt-mul {k = suc b} {x = a + b} {y = v + 1} (omega arith)).1 (omega arith))

mul_right_mono : (a b c : ℕ) → a ≤ b → a * c ≤ b * c
mul_right_mono a b c h = grind arith

-- For a shape and nodes of positive size whose sums do not wrap around, the worker count is the
-- least number, at least one, of nodes that hold the cores and the memory that the shape needs.
pub workers_for-fewest :
    (sh : Shape) (c m k l : ℕ)
    → sh.required_cores ≡ pos c
    → sh.required_mem ≡ pos m
    → c + suc k < 2 ^ 63
    → m + suc l < 2 ^ 63
    → (w : ℕ) × (workers_for sh (pos (suc k)) (pos (suc l)) ≡ pos w)
      × (1 ≤ w)
      × (c ≤ w * suc k)
      × (m ≤ w * suc l)
      × ((v : ℕ) → 1 ≤ v → c ≤ v * suc k → m ≤ v * suc l → w ≤ v)
unfolding workers_for
workers_for-fewest sh c m k l ec em hc hm =
    let wc = (c + k) / suc k in
    let wm = (m + l) / suc l in
    let w = max 1 (max wc wm) in
    let cores = ceil_div-pos c k hc in
    let mem = ceil_div-pos m l hm in
    (
      w,
      rw (ec, em, cores, mem) (ground arith),
      omega arith,
      le_trans (ceil_enough c k) (mul_right_mono wc w (suc k) (omega arith)),
      le_trans (ceil_enough m l) (mul_right_mono wm w (suc l) (omega arith)),
      λ v one hv kv. omega (arith, ceil_least c k v hv, ceil_least m l v kv),
    )

-- The severity of a verdict.
abbrev pub rank : FeasibilityVerdict → ℕ
rank comfortable = 0
rank tight = 1
rank infeasible = 2

-- A lower cost never has a worse verdict, at the same budget.
pub verdict_for_mono :
    (f : Float) (laws : IsIeee f) (a b post_headroom budget : f.F)
    → IsLe f a b
    → rank (verdict_for f a post_headroom budget) ≤ rank (verdict_for f b post_headroom budget)
unfolding verdict_for
verdict_for_mono f laws a b p budget h = ground (
  arith,
  laws.le_trans a b (f.mul p (f.lit 60 100)) h,
  laws.le_trans a b (f.mul p (f.lit 90 100)) h,
  laws.le_trans (f.mul p (f.lit 60 100)) (f.mul p (f.lit 90 100)) b,
)
