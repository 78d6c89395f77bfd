-- ===== src/Cli/RoundTrip.antt =====
-- internal/ui/cli: the printed command, read by the shell and parsed, gives the printed fields back.
pub mod Fields
pub mod Restored
pub mod Shows
pub mod Entries
pub mod Command
pub mod Unknown
