-- ===== src/Cli/Flags.antt =====
-- internal/ui/cli/parse.go: the cases of Parse's switch in order.
mod Core
mod Addons
mod Cluster
mod Cost
mod Host
mod Cloud
mod Private
mod Management
use yage.Prelude.{List, ◌++◌}
use yage.Cli.Steps.{Case}
use yage.Cli.Flags.Core.{core_flags}
use yage.Cli.Flags.Addons.{addon_flags}
use yage.Cli.Flags.Cluster.{cluster_flags}
use yage.Cli.Flags.Cost.{cost_flags}
use yage.Cli.Flags.Host.{host_flags}
use yage.Cli.Flags.Cloud.{cloud_flags}
use yage.Cli.Flags.Private.{private_flags}
use yage.Cli.Flags.Management.{management_flags}

abbrev pub cases : List Case
cases =
    core_flags
    ++ (addon_flags
        ++ (cluster_flags
            ++ (cost_flags
                ++ (host_flags ++ (cloud_flags ++ (private_flags ++ (management_flags)))))))
