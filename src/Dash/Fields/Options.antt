-- ===== src/Dash/Fields/Options.antt =====
-- internal/ui/xapiri/dashboard_fields.go: the positions of selects and of toggles.
use yage.Prelude.{ℕ}

abbrev pub si_mode : ℕ
si_mode = 0

abbrev pub si_env : ℕ
si_env = 1

abbrev pub si_resil : ℕ
si_resil = 2

abbrev pub si_bootstrap : ℕ
si_bootstrap = 3

abbrev pub si_provider : ℕ
si_provider = 4

abbrev pub si_registry_flav : ℕ
si_registry_flav = 5

abbrev pub si_count : ℕ
si_count = 6

abbrev pub toi_queue : ℕ
toi_queue = 0

abbrev pub toi_obj_store : ℕ
toi_obj_store = 1

abbrev pub toi_cache : ℕ
toi_cache = 2

abbrev pub toi_overcommit : ℕ
toi_overcommit = 3

abbrev pub toi_airgapped : ℕ
toi_airgapped = 4

abbrev pub toi_kyverno : ℕ
toi_kyverno = 5

abbrev pub toi_cert_mgr : ℕ
toi_cert_mgr = 6

abbrev pub toi_cnpg : ℕ
toi_cnpg = 7

abbrev pub toi_crossplane : ℕ
toi_crossplane = 8

abbrev pub toi_ext_secrets : ℕ
toi_ext_secrets = 9

abbrev pub toi_otel : ℕ
toi_otel = 10

abbrev pub toi_grafana : ℕ
toi_grafana = 11

abbrev pub toi_victoria : ℕ
toi_victoria = 12

abbrev pub toi_metrics : ℕ
toi_metrics = 13

abbrev pub toi_spire : ℕ
toi_spire = 14

abbrev pub toi_tco : ℕ
toi_tco = 15

abbrev pub toi_count : ℕ
toi_count = 16
