-- ===== src/Cli/Flags/Host.antt =====
-- internal/ui/cli/parse.go: the cases of Parse's switch from --xapiri to --bootstrap-mode.
use yage.Prelude.{List, [], ◌∷◌, true}
use yage.Cli.Steps.{
  Case, flag, turn, take, take_int, take_float, lower, trim, trim_mirror, any_int,
  float_not_negative, float_positive,
}

abbrev pub host_flags : List Case
host_flags =
    flag "--xapiri" (turn "Xapiri" true)
    ∷ flag "--geoip" (turn "GeoIPEnabled" true)
    ∷ flag "--airgapped" (turn "Airgapped" true)
    ∷ flag "--image-registry-mirror" (take "ImageRegistryMirror" trim_mirror)
    ∷ flag "--internal-ca-bundle" (take "InternalCABundle" trim)
    ∷ flag "--helm-repo-mirror" (take "HelmRepoMirror" trim_mirror)
    ∷ flag "--node-image" (take "NodeImage" trim)
    ∷ flag "--trace-endpoint" (take "TraceEndpoint" trim)
    ∷ flag "--allow-resource-overcommit" (turn "Capacity.AllowOvercommit" true)
    ∷ flag "--overcommit-tolerance-pct"
        (take_float "Capacity.OvercommitTolerancePct" float_not_negative)
    ∷ flag "--hardware-cost-usd" (take_float "HardwareCostUSD" float_not_negative)
    ∷ flag "--hardware-useful-life-years" (take_float "HardwareUsefulLifeYears" float_positive)
    ∷ flag "--hardware-watts" (take_float "HardwareWatts" float_not_negative)
    ∷ flag "--hardware-kwh-rate-usd" (take_float "HardwareKWHRateUSD" float_not_negative)
    ∷ flag "--hardware-support-usd-month" (take_float "HardwareSupportUSDMonth" float_not_negative)
    ∷ flag "--system-apps-cpu-millicores" (take_int "Capacity.SystemAppsCPUMillicores" any_int)
    ∷ flag "--system-apps-memory-mib" (take_int "Capacity.SystemAppsMemoryMiB" any_int)
    ∷ flag "--bootstrap-mode" (take "BootstrapMode" lower)
    ∷ []
