-- ===== src/Load/Table.antt =====
-- internal/config/config.go: the statements of Load in order.
mod Versions
mod Host
mod Providers
mod Kind
mod Addons
mod Proxmox
mod Network
mod Cluster
use yage.Prelude.{List, ◌++◌}
use yage.Load.Syntax.{Statement}
use yage.Load.Table.Versions.{version_settings}
use yage.Load.Table.Host.{host_settings}
use yage.Load.Table.Providers.{provider_settings}
use yage.Load.Table.Kind.{kind_settings}
use yage.Load.Table.Addons.{addon_settings}
use yage.Load.Table.Proxmox.{proxmox_settings}
use yage.Load.Table.Network.{network_settings}
use yage.Load.Table.Cluster.{cluster_settings}

abbrev pub statements : List Statement
statements =
    version_settings
    ++ (host_settings
        ++ (provider_settings
            ++ (kind_settings
                ++ (addon_settings
                    ++ (proxmox_settings ++ (network_settings ++ (cluster_settings)))))))
