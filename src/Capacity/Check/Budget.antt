-- ===== src/Capacity/Check/Budget.antt =====
-- The budget of Check and of WouldFitAsK3s.
use yage.Prelude.{◌≡◌, ◌↔◌, true, none, arith, pos, leb_ℤ, ltb_ℤ}
use yage.Config.{Config}
use yage.Float.{Float}
use yage.Capacity.{Plan, HostCapacity, plan_for_k3s}
use yage.Capacity.Check.{check, budget, would_fit_as_k3s}

-- The plan is within the budget of the host in each dimension; a host that reports no storage is
-- not held to one.
pub record IsWithin (f : Float) (plan : Plan) (host : HostCapacity) (t : f.F) : Type 0 where
  pub cpu_within : leb_ℤ plan.cpu_cores (budget f host.cpu_cores t) ≡ true
  pub memory_within : leb_ℤ plan.memory_mib (budget f host.memory_mib t) ≡ true
  pub storage_within :
      ltb_ℤ (pos 0) host.storage_gb ≡ true
      → leb_ℤ plan.storage_gb (budget f host.storage_gb t) ≡ true

module _ (f : Float) (host : HostCapacity) (t : f.F) where
  -- Check passes a plan exactly when its CPU and its memory are within the budget, and its storage
  -- too if the host reports a storage above 0.
  pub check_iff : (plan : Plan) → (check f plan host t ≡ none) ↔ IsWithin f plan host t
  unfolding check
  check_iff plan = ground arith

  -- A plan that asks for no more CPU, memory and storage than one that passes Check passes too.
  pub check_mono :
      (p q : Plan)
      → check f p host t ≡ none
      → leb_ℤ q.cpu_cores p.cpu_cores ≡ true
      → leb_ℤ q.memory_mib p.memory_mib ≡ true
      → leb_ℤ q.storage_gb p.storage_gb ≡ true
      → check f q host t ≡ none
  check_mono p q h c m s = let w = (check_iff p).0 h in (check_iff q).1 (ground (arith, w))

  -- K3s is suggested exactly when the k3s plan is within the budget in CPU, memory and, if the
  -- host reports one, storage. The k3s plan is returned in either case.
  pub would_fit_as_k3s_iff :
      (cfg : Config f.F)
      → ((would_fit_as_k3s f cfg host t).0 ≡ true ↔ IsWithin f (plan_for_k3s cfg) host t)
        × ((would_fit_as_k3s f cfg host t).1 ≡ plan_for_k3s cfg)
  unfolding would_fit_as_k3s
  would_fit_as_k3s_iff cfg = ground (arith, check_iff (plan_for_k3s cfg))
