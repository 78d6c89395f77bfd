-- ===== src/Form/Flush.antt =====
-- internal/ui/xapiri/dashboard_snapshot.go: flushToCfg, on the fields of the configuration.
use yage.Prelude.{String, Bool, ◌||◌, ◌==◌, if◌then◌else◌, contains}
use text.Mathlib.Text.{starts_with}
use yage.Float.{Float}
use yage.Settings.{Settings, Strconv, set_text}
use yage.Dash.Fields.Inputs.{ti_proxmox_admin_token}
use yage.Form.{Form, Host, trimmed}
use yage.Form.Saves.{copied_fields}
use yage.Form.Build.{build_snapshot_cfg}

-- A field that is copied by its name or inside the struct ArgoCD or Workload.
unfoldable pub is_copied : String → Bool
unfolding contains
is_copied g = contains copied_fields g || starts_with g "ArgoCD." || starts_with g "Workload."

unfoldable pub copy_fields : {F : Type 0} → (snap cfg : Settings F) → Settings F
unfolding is_copied
copy_fields snap cfg = record {
  texts = λ g. if is_copied g then snap.texts g else cfg.texts g;
  flags = λ g. if is_copied g then snap.flags g else cfg.flags g;
  ints = λ g. if is_copied g then snap.ints g else cfg.ints g;
  floats = λ g. if is_copied g then snap.floats g else cfg.floats g;
  drivers = cfg.drivers;
  apps = snap.apps;
}

unfoldable pub save_token : {F : Type 0} → Form → Settings F → Settings F
save_token form s =
    let v = trimmed form ti_proxmox_admin_token in
    if v == "" then s else set_text s "Providers.Proxmox.AdminToken" v

unfoldable pub flush_to_cfg :
    (f : Float) → Strconv f.F → Host f.F → Form → Settings f.F → Settings f.F
unfolding copy_fields save_token build_snapshot_cfg
flush_to_cfg f go host form cfg =
    save_token form (copy_fields (build_snapshot_cfg f go host form cfg) cfg)
