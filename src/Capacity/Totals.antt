-- ===== src/Capacity/Totals.antt =====
-- The totals of a plan, for PlanFor and PlanForK3s.
use yage.Prelude.{
  ◌∙◌, ℕ, ◌+◌, ◌*◌, ◌^◌, ◌≤◌, ◌≡◌, refl, ap, Bool, true, List, [], ◌∷◌, ◌++◌, map, foldl, arith, ℤ,
  pos, leb_ℤ, ltb_ℤ, add64, mul64, All, All-append, if◌then◌else◌, Bool-cases, inl, inr, add64-pos,
  mul64-pos,
}
use yage.Config.{Config}
use yage.Capacity.{
  String, Plan, PlanItem, total, add_item, empty_plan, plan_for, plan_for_k3s, sized_item, k3s_item,
  atoi_or, k3s_cp_cores, k3s_cp_mem_mib, k3s_cp_disk_gb, k3s_worker_mem, k3s_worker_disk,
}
use mathlib.Core.List.{foldl-append, map-append}
use native.Mathlib.Nat.{add-zero, mul-le-mul}
use native.Mathlib.Nat.{mul-zero}

abbrev pub sum64 : List ℤ → ℤ
sum64 = foldl add64 (pos 0)

-- The totals are the sums over the items, and each item has replicas.
pub record IsSummed (p : Plan) : Type 0 where
  pub cpu_sum : p.cpu_cores ≡ sum64 (map (λ (i : PlanItem). (total i).0) p.items)
  pub memory_sum : p.memory_mib ≡ sum64 (map (λ (i : PlanItem). (total i).1) p.items)
  pub storage_sum : p.storage_gb ≡ sum64 (map (λ (i : PlanItem). (total i).2) p.items)
  pub replicas_pos : All (λ (i : PlanItem). ltb_ℤ (pos 0) i.replicas ≡ true) p.items

sum64-append :
    (g : PlanItem → ℤ) (items : List PlanItem) (i : PlanItem)
    → sum64 (map g (items ++ i ∷ [])) ≡ add64 (sum64 (map g items)) (g i)
sum64-append g items i = rw (map-append, foldl-append)

pub add_item-IsSummed : (p : Plan) (i : PlanItem) → IsSummed p → IsSummed (add_item p i)
unfolding add_item
add_item-IsSummed p i s = elim (Bool-cases (leb_ℤ i.replicas (pos 0))) [
  | inl e ↦ rw e s
  | inr e ↦ rw e (record {
    cpu_sum = rw (sum64-append (λ (x : PlanItem). (total x).0) p.items i, s.cpu_sum);
    memory_sum = rw (sum64-append (λ (x : PlanItem). (total x).1) p.items i, s.memory_sum);
    storage_sum = rw (sum64-append (λ (x : PlanItem). (total x).2) p.items i, s.storage_sum);
    replicas_pos = All-append _ p.items (i ∷ []) s.replicas_pos (ground arith, tt);
  })
]

empty_plan-IsSummed : IsSummed empty_plan
empty_plan-IsSummed = record {
  cpu_sum = refl;
  memory_sum = refl;
  storage_sum = refl;
  replicas_pos = tt;
}

module _ {F : Type 0} (cfg : Config F) where
  -- In both plans every total is the sum over the items, in wrapping arithmetic, and no item is
  -- without replicas.
  pub plans-IsSummed : IsSummed (plan_for cfg) × IsSummed (plan_for_k3s cfg)
  unfolding plan_for plan_for_k3s
  plans-IsSummed = elim (Bool-cases cfg.pivot_enabled) [
    | inl e ↦ rw e (
      search (add_item-IsSummed, empty_plan-IsSummed),
      search (add_item-IsSummed, empty_plan-IsSummed),
    )
    | inr e ↦ rw e (
      search (add_item-IsSummed, empty_plan-IsSummed),
      search (add_item-IsSummed, empty_plan-IsSummed),
    )
  ]

abbrev pub replica_counts : Plan → List ℤ
replica_counts p = map (λ (i : PlanItem). i.replicas) p.items

add_item-replica_counts :
    (p q : Plan) (i j : PlanItem)
    → replica_counts p ≡ replica_counts q
    → i.replicas ≡ j.replicas
    → replica_counts (add_item p i) ≡ replica_counts (add_item q j)
unfolding add_item
add_item-replica_counts p q i j h e = elim (Bool-cases (leb_ℤ j.replicas (pos 0))) [
  | inl b ↦ rw (e, b) h
  | inr b ↦ rw (e, b) (rw (map-append, map-append, h))
]

module _ {F : Type 0} (cfg : Config F) where
  -- Both plans have the same machines, with the same counts: only the sizing differs.
  pub plans_same_replicas : replica_counts (plan_for cfg) ≡ replica_counts (plan_for_k3s cfg)
  unfolding plan_for plan_for_k3s sized_item k3s_item
  plans_same_replicas = elim (Bool-cases cfg.pivot_enabled) [
    | inl e ↦ rw e (search add_item-replica_counts depth 8)
    | inr e ↦ rw e (search add_item-replica_counts depth 8)
  ]

-- The totals are these naturals.
record HasTotals (p : Plan) (c m d : ℕ) : Type 0 where
  cpu_eq : p.cpu_cores ≡ pos c
  memory_eq : p.memory_mib ≡ pos m
  storage_eq : p.storage_gb ≡ pos d

add64-mul64 :
    (a b n : ℕ)
    → a ≤ 2 ^ 62
    → b ≤ 2 ^ 20
    → n ≤ 2 ^ 40
    → add64 (pos a) (mul64 (pos b) (pos n)) ≡ pos (a + b * n)
add64-mul64 a b n ha hb hn =
    let fits : b * n ≤ 2 ^ 20 * 2 ^ 40 = mul-le-mul hb hn in
    let product = mul64-pos b n (omega arith) (omega arith) (omega arith) in
    rw product (add64-pos a (b * n) (omega arith))

k3s_item-HasTotals :
    (p : Plan) (name : String) (n c m d cpu mem disk : ℕ)
    → HasTotals p c m d
    → cpu ≤ 2 ^ 20
    → mem ≤ 2 ^ 20
    → disk ≤ 2 ^ 20
    → n ≤ 2 ^ 40
    → c ≤ 2 ^ 62
    → m ≤ 2 ^ 62
    → d ≤ 2 ^ 62
    → HasTotals
        (add_item p (k3s_item name (pos n) (pos cpu) (pos mem) (pos disk)))
        (c + cpu * n)
        (m + mem * n)
        (d + disk * n)
unfolding add_item k3s_item total
k3s_item-HasTotals p name n c m d cpu mem disk h hc hm hd hn kc km kd =
    elim (Bool-cases (leb_ℤ (pos n) (pos 0))) [
      | inl e ↦
          let none_of_it : n ≡ 0 = ground arith in rw (e, none_of_it) (simp (mul-zero, add-zero) h)
      | inr e ↦ rw e (record {
        cpu_eq = rw h.cpu_eq (add64-mul64 c cpu n kc hc hn);
        memory_eq = rw h.memory_eq (add64-mul64 m mem n km hm hn);
        storage_eq = rw h.storage_eq (add64-mul64 d disk n kd hd hn);
      })
    ]

-- A control-plane item and a worker item, added in turn.
k3s_pair-HasTotals :
    (p : Plan) (control worker : String) (a b c m d : ℕ)
    → HasTotals p c m d
    → a ≤ 2 ^ 30
    → b ≤ 2 ^ 30
    → c ≤ 2 ^ 50
    → m ≤ 2 ^ 50
    → d ≤ 2 ^ 50
    → HasTotals
        (add_item
          (add_item p (k3s_item control (pos a) k3s_cp_cores k3s_cp_mem_mib k3s_cp_disk_gb))
          (k3s_item worker (pos b) k3s_cp_cores k3s_worker_mem k3s_worker_disk))
        (c + 2 * a + 2 * b)
        (m + 1024 * a + 1024 * b)
        (d + 20 * a + 15 * b)
k3s_pair-HasTotals p control worker a b c m d h ha hb hc hm hd =
    let first =
      k3s_item-HasTotals p control a c m d 2 1024 20 h (omega arith) (omega arith) (omega arith)
        (omega arith) (omega arith) (omega arith) (omega arith) in
    k3s_item-HasTotals
      (add_item p (k3s_item control (pos a) k3s_cp_cores k3s_cp_mem_mib k3s_cp_disk_gb)) worker b
      (c + 2 * a) (m + 1024 * a) (d + 20 * a) 2 1024 15 first (omega arith) (omega arith)
      (omega arith) (omega arith) (omega arith) (omega arith) (omega arith)

-- The replicas of the management cluster, which is planned only if pivoting is on.
abbrev pub if_pivot : Bool → ℕ → ℕ
if_pivot b n = if b then n else 0

module _ {F : Type 0} (cfg : Config F) (cp wk mcp mwk : ℕ) where
  -- For machine counts up to 2 ^ 30 the k3s plan is 2 cores and 1024 MiB for each machine, 20 GB
  -- for each control plane and 15 GB for each worker, with no wrap-around.
  pub plan_for_k3s_footprint :
      atoi_or cfg.control_plane_machine_count (pos 1) ≡ pos cp
      → atoi_or cfg.worker_machine_count (pos 0) ≡ pos wk
      → atoi_or cfg.mgmt_control_plane_machine_count (pos 1) ≡ pos mcp
      → atoi_or cfg.mgmt_worker_machine_count (pos 0) ≡ pos mwk
      → cp ≤ 2 ^ 30
      → wk ≤ 2 ^ 30
      → mcp ≤ 2 ^ 30
      → mwk ≤ 2 ^ 30
      → let planes = cp + if_pivot cfg.pivot_enabled mcp in
        let workers = wk + if_pivot cfg.pivot_enabled mwk in
        let p = plan_for_k3s cfg in
        (p.cpu_cores ≡ pos (2 * (planes + workers)))
        × (p.memory_mib ≡ pos (1024 * (planes + workers)))
        × (p.storage_gb ≡ pos (20 * planes + 15 * workers))
  unfolding plan_for_k3s
  plan_for_k3s_footprint e1 e2 e3 e4 h1 h2 h3 h4 =
      let start : HasTotals empty_plan 0 0 0 = record {
        cpu_eq = refl;
        memory_eq = refl;
        storage_eq = refl;
      } in
      let workload =
        k3s_pair-HasTotals empty_plan "workload control-plane (k3s)" "workload worker (k3s)" cp wk 0
          0 0 start h1 h2 (omega arith) (omega arith) (omega arith) in
      elim (Bool-cases cfg.pivot_enabled) [
        | inl e ↦
            let both =
              k3s_pair-HasTotals _ "mgmt control-plane (k3s)" "mgmt worker (k3s)" mcp mwk
                (0 + 2 * cp + 2 * wk) (0 + 1024 * cp + 1024 * wk) (0 + 20 * cp + 15 * wk) workload
                h3 h4 (omega arith) (omega arith) (omega arith) in
            rw (e, e1, e2, e3, e4)
              (
                both.cpu_eq ∙ ap pos (omega arith),
                both.memory_eq ∙ ap pos (omega arith),
                both.storage_eq ∙ ap pos (omega arith),
              )
        | inr e ↦
            rw (e, e1, e2)
              (
                workload.cpu_eq ∙ ap pos (omega arith),
                workload.memory_eq ∙ ap pos (omega arith),
                workload.storage_eq ∙ ap pos (omega arith),
              )
      ]
