-- ===== src/Cli/Flags/Cost.antt =====
-- internal/ui/cli/parse.go: the cases of Parse's switch from --cost-compare-config to --print-command.
use yage.Prelude.{List, [], ◌∷◌, true, false}
use yage.Cli.Steps.{
  Case, flag, turn, put, take, take_int, take_float, maybe_print_mode, trim_lower, trim_upper,
  int_not_negative, any_float,
}

abbrev pub cost_flags : List Case
cost_flags =
    flag "--cost-compare-config" (turn "CostCompareEnabled" true)
    ∷ flag "--no-managed-postgres" (turn "UseManagedPostgres" false)
    ∷ flag "--postgres-cpu-millicores" (take_int "PostgresCPUMillicoresOverride" int_not_negative)
    ∷ flag "--postgres-memory-mib" (take_int "PostgresMemoryMiBOverride" int_not_negative)
    ∷ flag "--postgres-volume-gb" (take_int "PostgresVolumeGBOverride" int_not_negative)
    ∷ flag "--mq-cpu-millicores" (take_int "MQCPUMillicoresOverride" int_not_negative)
    ∷ flag "--mq-memory-mib" (take_int "MQMemoryMiBOverride" int_not_negative)
    ∷ flag "--mq-volume-gb" (take_int "MQVolumeGBOverride" int_not_negative)
    ∷ flag "--objstore-cpu-millicores" (take_int "ObjStoreCPUMillicoresOverride" int_not_negative)
    ∷ flag "--objstore-memory-mib" (take_int "ObjStoreMemoryMiBOverride" int_not_negative)
    ∷ flag "--objstore-volume-gb" (take_int "ObjStoreVolumeGBOverride" int_not_negative)
    ∷ flag "--cache-cpu-millicores" (take_int "CacheCPUMillicoresOverride" int_not_negative)
    ∷ flag "--cache-memory-mib" (take_int "CacheMemoryMiBOverride" int_not_negative)
    ∷ flag "--budget-usd-month" (take_float "BudgetUSDMonth" any_float)
    ∷ flag "--data-center-location" (take "Cost.Currency.DataCenterLocation" trim_upper)
    ∷ flag "--print-pricing-setup" (take "PrintPricingSetup" trim_lower)
    ∷ record {
      spellings = "--print-command" ∷ [];
      steps = (put "PrintCommand" "env") ∷ maybe_print_mode ∷ [];
    }
    ∷ []
