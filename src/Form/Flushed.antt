-- ===== src/Form/Flushed.antt =====
-- What flushToCfg writes into the configuration, against what buildSnapshotCfg gives.
use yage.Prelude.{
  String, Bool, true, false, ◌==◌, if◌then◌else◌, ◌≡◌, refl, sym, ◌∙◌, ap, Bool-cases, inl, inr,
}
use yage.Float.{Float}
use yage.Settings.{Settings, Strconv, set_text}
use yage.Dash.Fields.Inputs.{ti_proxmox_admin_token}
use yage.Form.{
  Form, Host, trimmed, Size, queue_cpu_milli, queue_mem_mib, queue_vol_gb, obj_store_cpu_milli,
  obj_store_mem_mib, obj_store_vol_gb, cache_cpu_milli, cache_mem_mib,
}
use yage.Form.Shape.{override_field}
use yage.Form.Build.{build_snapshot_cfg}
use yage.Form.Frame.{Same, same, then_same}
use yage.Form.Derived.{CoversTables, CoversRest, build_snapshot_cfg-Same}
use yage.Form.Flush.{is_copied, copy_fields, save_token, flush_to_cfg}

copied-CoversTables : CoversTables is_copied
unfolding is_copied
copied-CoversTables = record {
  names = refl;
  connection = refl;
  mirrors = refl;
  platform = refl;
  argocd = refl;
  settings = refl;
}

copied-CoversRest : CoversRest is_copied
unfolding is_copied
copied-CoversRest = record {
  provider = refl;
  defaulted = refl;
  planes = refl;
  budget = refl;
  overcommit = refl;
  staff = refl;
  database = refl;
  egress = refl;
  resilience = refl;
  environment = refl;
  queue = refl;
  obj_store = refl;
  cache = refl;
  sizes = override_copied;
}
  where
    override_copied : (size : Size) → is_copied (override_field size) ≡ true
    override_copied queue_cpu_milli = refl
    override_copied queue_mem_mib = refl
    override_copied queue_vol_gb = refl
    override_copied obj_store_cpu_milli = refl
    override_copied obj_store_mem_mib = refl
    override_copied obj_store_vol_gb = refl
    override_copied cache_cpu_milli = refl
    override_copied cache_mem_mib = refl

copy_fields-copied :
    {F : Type 0}
    → (snap cfg : Settings F) (g : String) → is_copied g ≡ true
    → Same g snap (copy_fields snap cfg)
unfolding copy_fields
copy_fields-copied snap cfg g h = (
  ap (λ b. if b then snap.texts g else cfg.texts g) h,
  ap (λ b. if b then snap.flags g else cfg.flags g) h,
  ap (λ b. if b then snap.ints g else cfg.ints g) h,
  ap (λ b. if b then snap.floats g else cfg.floats g) h,
)

copy_fields-left :
    {F : Type 0}
    → (snap cfg : Settings F) (g : String) → is_copied g ≡ false
    → Same g cfg (copy_fields snap cfg)
unfolding copy_fields
copy_fields-left snap cfg g h = (
  ap (λ b. if b then snap.texts g else cfg.texts g) h,
  ap (λ b. if b then snap.flags g else cfg.flags g) h,
  ap (λ b. if b then snap.ints g else cfg.ints g) h,
  ap (λ b. if b then snap.floats g else cfg.floats g) h,
)

save_token-Same :
    {F : Type 0}
    → (form : Form) (s : Settings F) (g : String) → ("Providers.Proxmox.AdminToken" == g) ≡ false
    → Same g s (save_token form s)
unfolding save_token
save_token-Same form s g other =
    let v = trimmed form ti_proxmox_admin_token in
    elim (Bool-cases (v == "")) [
      | inl e ↦ rw e (same g s)
      | inr e ↦ rw e (ap (λ c. if c then v else s.texts g) other, refl, refl, refl)
    ]

module _ (f : Float) (go : Strconv f.F) (host : Host f.F) (form : Form) (cfg : Settings f.F) where
  -- flushToCfg leaves in every field what buildSnapshotCfg has in it, and so in the groups of
  -- applications, but for the list of skipped providers and the admin token.
  pub flush_to_cfg-build :
      (g : String)
      → ("SkipProviders" == g) ≡ false
      → ("Providers.Proxmox.AdminToken" == g) ≡ false
      → Same g (build_snapshot_cfg f go host form cfg) (flush_to_cfg f go host form cfg)
        × ((flush_to_cfg f go host form cfg).apps ≡ (build_snapshot_cfg f go host form cfg).apps)
  unfolding flush_to_cfg save_token copy_fields
  flush_to_cfg-build g skip token =
      let snap = build_snapshot_cfg f go host form cfg in
      let copied = copy_fields snap cfg in
      let last = save_token-Same form copied g token in
      (
        elim (Bool-cases (is_copied g)) [
          | inl e ↦
              then_same g snap copied (save_token form copied) (copy_fields-copied snap cfg g e)
                last
          | inr e ↦
              let kept =
                build_snapshot_cfg-Same is_copied g e copied-CoversRest f go host form
                  copied-CoversTables cfg skip in
              let left = copy_fields-left snap cfg g e in
              then_same g snap copied (save_token form copied)
                (left.0 ∙ sym kept.0, left.1 ∙ sym kept.1, left.2 ∙ sym kept.2, left.3 ∙ sym kept.3)
                last
        ],
        apps_kept (trimmed form ti_proxmox_admin_token == ""),
      )
    where
      apps_kept :
          (b : Bool)
          → (if b
              then copy_fields (build_snapshot_cfg f go host form cfg) cfg
              else set_text
                  (copy_fields (build_snapshot_cfg f go host form cfg) cfg)
                  "Providers.Proxmox.AdminToken"
                  (trimmed form ti_proxmox_admin_token)).apps
            ≡ (build_snapshot_cfg f go host form cfg).apps
      apps_kept true = refl
      apps_kept false = refl
