-- ===== src/Dash/Fields/FocusB.antt =====
-- internal/ui/xapiri/dashboard_fields.go: the fields in tab order, from the networks on.
use yage.Prelude.{ℕ}

abbrev pub foc_cp_endpoint_ip : ℕ
foc_cp_endpoint_ip = 50

abbrev pub foc_node_ip_ranges : ℕ
foc_node_ip_ranges = 51

abbrev pub foc_gateway : ℕ
foc_gateway = 52

abbrev pub foc_ip_prefix : ℕ
foc_ip_prefix = 53

abbrev pub foc_dns_servers : ℕ
foc_dns_servers = 54

abbrev pub foc_mgmt_cp_endpoint_ip : ℕ
foc_mgmt_cp_endpoint_ip = 55

abbrev pub foc_mgmt_node_ip_ranges : ℕ
foc_mgmt_node_ip_ranges = 56

abbrev pub foc_argo_url : ℕ
foc_argo_url = 57

abbrev pub foc_argo_path : ℕ
foc_argo_path = 58

abbrev pub foc_argo_ref : ℕ
foc_argo_ref = 59

abbrev pub foc_airgapped : ℕ
foc_airgapped = 60

abbrev pub foc_img_mirror : ℕ
foc_img_mirror = 61

abbrev pub foc_ca_bundle : ℕ
foc_ca_bundle = 62

abbrev pub foc_helm_mirror : ℕ
foc_helm_mirror = 63

abbrev pub foc_kyverno : ℕ
foc_kyverno = 64

abbrev pub foc_cert_mgr : ℕ
foc_cert_mgr = 65

abbrev pub foc_cnpg : ℕ
foc_cnpg = 66

abbrev pub foc_crossplane : ℕ
foc_crossplane = 67

abbrev pub foc_ext_secrets : ℕ
foc_ext_secrets = 68

abbrev pub foc_otel : ℕ
foc_otel = 69

abbrev pub foc_grafana : ℕ
foc_grafana = 70

abbrev pub foc_victoria : ℕ
foc_victoria = 71

abbrev pub foc_metrics : ℕ
foc_metrics = 72

abbrev pub foc_spire : ℕ
foc_spire = 73

abbrev pub foc_dc_loc : ℕ
foc_dc_loc = 74

abbrev pub foc_budget : ℕ
foc_budget = 75

abbrev pub foc_headroom : ℕ
foc_headroom = 76

abbrev pub foc_tco : ℕ
foc_tco = 77

abbrev pub foc_hw_cost : ℕ
foc_hw_cost = 78

abbrev pub foc_hw_watts : ℕ
foc_hw_watts = 79

abbrev pub foc_hwkwh : ℕ
foc_hwkwh = 80

abbrev pub foc_hw_support : ℕ
foc_hw_support = 81

abbrev pub foc_registry_node : ℕ
foc_registry_node = 82

abbrev pub foc_registry_vm_flav : ℕ
foc_registry_vm_flav = 83

abbrev pub foc_registry_network : ℕ
foc_registry_network = 84

abbrev pub foc_registry_storage : ℕ
foc_registry_storage = 85

abbrev pub foc_registry_flavor : ℕ
foc_registry_flavor = 86

abbrev pub foc_issuing_ca_cert : ℕ
foc_issuing_ca_cert = 87

abbrev pub foc_issuing_ca_key : ℕ
foc_issuing_ca_key = 88

abbrev pub foc_count : ℕ
foc_count = 89
