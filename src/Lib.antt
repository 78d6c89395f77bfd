-- ===== src/Lib.antt =====
-- yage bootstraps Kubernetes clusters through Cluster API on many infrastructure providers. Before
-- it creates anything it asks whether the workload fits: on the hosts at hand (the capacity check)
-- and in the budget (the feasibility gate). Its dashboard shows the log of what it does.
--
-- The parts of the program and the files that model them, with paths from the repository's root:
--   * internal/ui/xapiri/logring.go: LogRing.antt has the ring buffer and its methods Write,
--     appendLine, Lines, Subscribe, Unsubscribe and notify. LogRing/Segments.antt is about the
--     split of a write at newlines, LogRing/History.antt about the ring and what was appended,
--     LogRing/Refines.antt about sequences of writes, LogRing/Signals.antt about subscribers.
--   * internal/cluster/capacity/capacity.go: Capacity.antt has PlanFor, PlanForK3s, IsSmallEnv and
--     atoiOr; Capacity/Check.antt has Check, WouldFitAsK3s and CheckCombined.
--   * internal/feasibility: Feasibility.antt has templates.go and projectShape, Feasibility/Verdict
--     the verdicts, quotas and blocking reasons, Feasibility/Price what a cluster costs at a
--     provider, Feasibility/Cloud the cloud fork Check, Feasibility/OnPrem the on-prem fork
--     CheckOnPrem, which calls the capacity check.
--   * internal/orchestrator/pivot_sequence.go: Pivot.antt has runPostPivotSequence over its injected
--     dependencies, Pivot/Calls.antt a recorder around them and the plan that their calls follow.
--   * internal/csi: Csi.antt has driver.go, defaults.go and csi.go; Csi/Registry.antt is about the
--     registry, Csi/Selection.antt about Selector.
--   * internal/provider: Provider.antt has the registry of provider.go and airgap.go.
--   * internal/pricing: Pricing.antt has Fetch and FetchMany with the cache, Pricing/Fetchers.antt
--     the live and the static fetcher and the context.
--   * internal/ui/xapiri/dashboard_fields.go: Dash/Fields has the positions and the table of fields.
--   * internal/ui/xapiri/dashboard_focus.go: Dash.antt has isHidden, visibleFocusList, moveFocus and
--     jumpFocus, Dash/Providers.antt rebuildProviderList, Dash/Rows.antt focusAtConfigRow beside
--     renderCfgEditScreen of tab_provision.go.
--   * internal/ui/cli/parse.go: Cli/Steps.antt has what a case of the switch does, Cli/Flags the table
--     of the cases, Cli/Parse.antt the loop of Parse. Cli/Parse/Loop, Errors and Frame are about it.
--   * internal/ui/cli/render.go: Cli/Render.antt has RenderCommand with shellQuote, over the table of
--     emitters in Cli/Render/Sections. Cli/Shell.antt is the shell that reads the command; Cli/Words
--     and Cli/RoundTrip are about the command read by the shell and by Parse.
--   * internal/config/snapshot.go: Snapshot.antt has Get, Set, SnapshotYAML and ApplySnapshotKV over
--     the schema in Snapshot/Schema; Snapshot/Overlay, Merge and Flags are about them.
--   * internal/cluster/kindsync/config.go: Snapshot/Yaml.antt has SnapshotYAML and
--     parseFlatYAMLOrJSON, which reads its text; Snapshot/Lines, Reread and Restore are about them.
--   * internal/config/config.go: Load.antt runs the statements of Load, which Load/Table lists; Load/Back compares
--     the variables with the names of the snapshot.
--   * internal/config/yaml.go: ConfigFile.antt has ConfigFilePath and ApplyYAMLFile.
--   * internal/ui/xapiri/dashboard.go, dashboard_snapshot.go, shared.go, state.go: Form/Open.antt has
--     newDashModel, Form/Build.antt buildSnapshotCfg over the tables in Form/Saves, Form/Shape the
--     workload, Form/Credentials the skipped providers, Form/Flush.antt flushToCfg. Form/Frame,
--     Form/Derived and Form/Seeded carry the theorems of the other files of Form.
--   * internal/ui/promptx/promptx.go: Prompt.antt has NormalizeNumericMenuChoice, whose digits Text.antt
--     helps to read.
--   * internal/config/config.go: Config.antt has the fields that these parts read.
--
-- Go's int and int64 are two's complement integers of 64 bits: Prelude/Int.antt has ℤ over the
-- native naturals, with additions, products and quotients that wrap around. float64 is the
-- interface Float of Float.antt, whose laws are those of IEEE 754 arithmetic: theorems hold for
-- every float with them, and Float/Thousandths.antt is one that runs. A text is a String, a line
-- of the log a list of bytes. Maps are association lists (Prelude/Maps.antt). Texts that
-- fmt.Sprintf makes are values that hold the arguments. Loops are recursion on the list that they
-- range over or on the count of rounds that their index makes, so they end and need no fuel; the
-- loop of Parse has the number of arguments as fuel, since each round takes one. The code that goes
-- over all of Config by a table sees it as a store of fields by their Go paths (Settings.antt).
--
-- encoding/json on strings is the interface Json of Snapshot/Yaml.antt, and the text inputs of the
-- library bubbles are a function in Host (Form.antt): the theorems name what they rely on of both.
--
-- Not modelled: calls of vendor APIs (the live prices are a parameter, an error is `none`), of
-- clusters, files and external programs, template rendering, printing, and the terminal views.
pub mod Prelude
pub mod Text
pub mod Cli
pub mod Config
pub mod Float
pub mod Capacity
pub mod Feasibility
pub mod LogRing
pub mod Pivot
pub mod Provider
pub mod Prompt
pub mod Dash
pub mod Pricing
pub mod Settings
pub mod Snapshot
pub mod Load
pub mod ConfigFile
pub mod Form
pub mod Csi
