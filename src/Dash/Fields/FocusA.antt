-- ===== src/Dash/Fields/FocusA.antt =====
-- internal/ui/xapiri/dashboard_fields.go: the fields in tab order, up to the Proxmox counts.
use yage.Prelude.{ℕ}

abbrev pub foc_mode : ℕ
foc_mode = 0

abbrev pub foc_provider : ℕ
foc_provider = 1

abbrev pub foc_kind_name : ℕ
foc_kind_name = 2

abbrev pub foc_k8s_ver : ℕ
foc_k8s_ver = 3

abbrev pub foc_workload_name : ℕ
foc_workload_name = 4

abbrev pub foc_env : ℕ
foc_env = 5

abbrev pub foc_resil : ℕ
foc_resil = 6

abbrev pub foc_apps : ℕ
foc_apps = 7

abbrev pub foc_dbgb : ℕ
foc_dbgb = 8

abbrev pub foc_egress_gb : ℕ
foc_egress_gb = 9

abbrev pub foc_has_queue : ℕ
foc_has_queue = 10

abbrev pub foc_queue_cpu : ℕ
foc_queue_cpu = 11

abbrev pub foc_queue_mem : ℕ
foc_queue_mem = 12

abbrev pub foc_queue_vol : ℕ
foc_queue_vol = 13

abbrev pub foc_has_obj_store : ℕ
foc_has_obj_store = 14

abbrev pub foc_obj_cpu : ℕ
foc_obj_cpu = 15

abbrev pub foc_obj_mem : ℕ
foc_obj_mem = 16

abbrev pub foc_obj_vol : ℕ
foc_obj_vol = 17

abbrev pub foc_has_cache : ℕ
foc_has_cache = 18

abbrev pub foc_cache_cpu : ℕ
foc_cache_cpu = 19

abbrev pub foc_cache_mem : ℕ
foc_cache_mem = 20

abbrev pub foc_bootstrap : ℕ
foc_bootstrap = 21

abbrev pub foc_overcommit : ℕ
foc_overcommit = 22

abbrev pub foc_proxmox_url : ℕ
foc_proxmox_url = 23

abbrev pub foc_proxmox_admin_username : ℕ
foc_proxmox_admin_username = 24

abbrev pub foc_proxmox_admin_insecure : ℕ
foc_proxmox_admin_insecure = 25

abbrev pub foc_proxmox_admin_token : ℕ
foc_proxmox_admin_token = 26

abbrev pub foc_proxmox_default_tmpl : ℕ
foc_proxmox_default_tmpl = 27

abbrev pub foc_proxmox_wlcp_tmpl : ℕ
foc_proxmox_wlcp_tmpl = 28

abbrev pub foc_proxmox_wlcp_cores : ℕ
foc_proxmox_wlcp_cores = 29

abbrev pub foc_proxmox_wlcp_mem_mib : ℕ
foc_proxmox_wlcp_mem_mib = 30

abbrev pub foc_proxmox_wlcp_disk_gb : ℕ
foc_proxmox_wlcp_disk_gb = 31

abbrev pub foc_proxmox_wl_worker_tmpl : ℕ
foc_proxmox_wl_worker_tmpl = 32

abbrev pub foc_proxmox_wl_worker_cores : ℕ
foc_proxmox_wl_worker_cores = 33

abbrev pub foc_proxmox_wl_worker_mem_mib : ℕ
foc_proxmox_wl_worker_mem_mib = 34

abbrev pub foc_proxmox_wl_worker_disk_gb : ℕ
foc_proxmox_wl_worker_disk_gb = 35

abbrev pub foc_proxmox_mgmt_cp_tmpl : ℕ
foc_proxmox_mgmt_cp_tmpl = 36

abbrev pub foc_proxmox_mgmt_cp_cores : ℕ
foc_proxmox_mgmt_cp_cores = 37

abbrev pub foc_proxmox_mgmt_cp_mem_mib : ℕ
foc_proxmox_mgmt_cp_mem_mib = 38

abbrev pub foc_proxmox_mgmt_cp_disk_gb : ℕ
foc_proxmox_mgmt_cp_disk_gb = 39

abbrev pub foc_proxmox_mgmt_worker_tmpl : ℕ
foc_proxmox_mgmt_worker_tmpl = 40

abbrev pub foc_proxmox_mgmt_worker_cores : ℕ
foc_proxmox_mgmt_worker_cores = 41

abbrev pub foc_proxmox_mgmt_worker_mem_mib : ℕ
foc_proxmox_mgmt_worker_mem_mib = 42

abbrev pub foc_proxmox_mgmt_worker_disk_gb : ℕ
foc_proxmox_mgmt_worker_disk_gb = 43

abbrev pub foc_proxmox_pool : ℕ
foc_proxmox_pool = 44

abbrev pub foc_proxmox_mgmt_pool : ℕ
foc_proxmox_mgmt_pool = 45

abbrev pub foc_proxmox_cp_count : ℕ
foc_proxmox_cp_count = 46

abbrev pub foc_proxmox_worker_count : ℕ
foc_proxmox_worker_count = 47

abbrev pub foc_proxmox_mgmt_cp_count : ℕ
foc_proxmox_mgmt_cp_count = 48

abbrev pub foc_proxmox_mgmt_worker_count : ℕ
foc_proxmox_mgmt_worker_count = 49
