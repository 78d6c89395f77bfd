-- ===== src/Dash/Fields/Inputs.antt =====
-- internal/ui/xapiri/dashboard_fields.go: the positions of text inputs.
use yage.Prelude.{ℕ}

abbrev pub ti_kind_name : ℕ
ti_kind_name = 0

abbrev pub ti_k8s_ver : ℕ
ti_k8s_ver = 1

abbrev pub ti_workload_name : ℕ
ti_workload_name = 2

abbrev pub ti_apps : ℕ
ti_apps = 3

abbrev pub ti_dbgb : ℕ
ti_dbgb = 4

abbrev pub ti_egress_gb : ℕ
ti_egress_gb = 5

abbrev pub ti_queue_cpu : ℕ
ti_queue_cpu = 6

abbrev pub ti_queue_mem : ℕ
ti_queue_mem = 7

abbrev pub ti_queue_vol : ℕ
ti_queue_vol = 8

abbrev pub ti_obj_cpu : ℕ
ti_obj_cpu = 9

abbrev pub ti_obj_mem : ℕ
ti_obj_mem = 10

abbrev pub ti_obj_vol : ℕ
ti_obj_vol = 11

abbrev pub ti_cache_cpu : ℕ
ti_cache_cpu = 12

abbrev pub ti_cache_mem : ℕ
ti_cache_mem = 13

abbrev pub ti_cp_endpoint_ip : ℕ
ti_cp_endpoint_ip = 14

abbrev pub ti_node_ip_ranges : ℕ
ti_node_ip_ranges = 15

abbrev pub ti_gateway : ℕ
ti_gateway = 16

abbrev pub ti_ip_prefix : ℕ
ti_ip_prefix = 17

abbrev pub ti_dns_servers : ℕ
ti_dns_servers = 18

abbrev pub ti_mgmt_cp_endpoint_ip : ℕ
ti_mgmt_cp_endpoint_ip = 19

abbrev pub ti_mgmt_node_ip_ranges : ℕ
ti_mgmt_node_ip_ranges = 20

abbrev pub ti_proxmox_default_tmpl : ℕ
ti_proxmox_default_tmpl = 21

abbrev pub ti_proxmox_wlcp_tmpl : ℕ
ti_proxmox_wlcp_tmpl = 22

abbrev pub ti_proxmox_wlcp_cores : ℕ
ti_proxmox_wlcp_cores = 23

abbrev pub ti_proxmox_wlcp_mem_mib : ℕ
ti_proxmox_wlcp_mem_mib = 24

abbrev pub ti_proxmox_wlcp_disk_gb : ℕ
ti_proxmox_wlcp_disk_gb = 25

abbrev pub ti_proxmox_wl_worker_tmpl : ℕ
ti_proxmox_wl_worker_tmpl = 26

abbrev pub ti_proxmox_wl_worker_cores : ℕ
ti_proxmox_wl_worker_cores = 27

abbrev pub ti_proxmox_wl_worker_mem_mib : ℕ
ti_proxmox_wl_worker_mem_mib = 28

abbrev pub ti_proxmox_wl_worker_disk_gb : ℕ
ti_proxmox_wl_worker_disk_gb = 29

abbrev pub ti_proxmox_mgmt_cp_tmpl : ℕ
ti_proxmox_mgmt_cp_tmpl = 30

abbrev pub ti_proxmox_mgmt_cp_cores : ℕ
ti_proxmox_mgmt_cp_cores = 31

abbrev pub ti_proxmox_mgmt_cp_mem_mib : ℕ
ti_proxmox_mgmt_cp_mem_mib = 32

abbrev pub ti_proxmox_mgmt_cp_disk_gb : ℕ
ti_proxmox_mgmt_cp_disk_gb = 33

abbrev pub ti_proxmox_mgmt_worker_tmpl : ℕ
ti_proxmox_mgmt_worker_tmpl = 34

abbrev pub ti_proxmox_mgmt_worker_cores : ℕ
ti_proxmox_mgmt_worker_cores = 35

abbrev pub ti_proxmox_mgmt_worker_mem_mib : ℕ
ti_proxmox_mgmt_worker_mem_mib = 36

abbrev pub ti_proxmox_mgmt_worker_disk_gb : ℕ
ti_proxmox_mgmt_worker_disk_gb = 37

abbrev pub ti_proxmox_pool : ℕ
ti_proxmox_pool = 38

abbrev pub ti_proxmox_mgmt_pool : ℕ
ti_proxmox_mgmt_pool = 39

abbrev pub ti_proxmox_cp_count : ℕ
ti_proxmox_cp_count = 40

abbrev pub ti_proxmox_worker_count : ℕ
ti_proxmox_worker_count = 41

abbrev pub ti_proxmox_mgmt_cp_count : ℕ
ti_proxmox_mgmt_cp_count = 42

abbrev pub ti_proxmox_mgmt_worker_count : ℕ
ti_proxmox_mgmt_worker_count = 43

abbrev pub ti_proxmox_url : ℕ
ti_proxmox_url = 44

abbrev pub ti_proxmox_admin_username : ℕ
ti_proxmox_admin_username = 45

abbrev pub ti_proxmox_admin_insecure : ℕ
ti_proxmox_admin_insecure = 46

abbrev pub ti_proxmox_admin_token : ℕ
ti_proxmox_admin_token = 47

abbrev pub ti_argo_url : ℕ
ti_argo_url = 48

abbrev pub ti_argo_path : ℕ
ti_argo_path = 49

abbrev pub ti_argo_ref : ℕ
ti_argo_ref = 50

abbrev pub ti_img_mirror : ℕ
ti_img_mirror = 51

abbrev pub ti_ca_bundle : ℕ
ti_ca_bundle = 52

abbrev pub ti_helm_mirror : ℕ
ti_helm_mirror = 53

abbrev pub ti_hw_cost : ℕ
ti_hw_cost = 54

abbrev pub ti_hw_watts : ℕ
ti_hw_watts = 55

abbrev pub ti_hwkwh : ℕ
ti_hwkwh = 56

abbrev pub ti_hw_support : ℕ
ti_hw_support = 57

abbrev pub ti_dc_loc : ℕ
ti_dc_loc = 58

abbrev pub ti_budget : ℕ
ti_budget = 59

abbrev pub ti_headroom : ℕ
ti_headroom = 60

abbrev pub ti_registry_node : ℕ
ti_registry_node = 61

abbrev pub ti_registry_vm_flav : ℕ
ti_registry_vm_flav = 62

abbrev pub ti_registry_network : ℕ
ti_registry_network = 63

abbrev pub ti_registry_storage : ℕ
ti_registry_storage = 64

abbrev pub ti_issuing_ca_cert : ℕ
ti_issuing_ca_cert = 65

abbrev pub ti_issuing_ca_key : ℕ
ti_issuing_ca_key = 66

abbrev pub ti_count : ℕ
ti_count = 67
