-- ===== src/Cli.antt =====
-- internal/ui/cli: the flags of the command line, and the command that is printed for a
-- configuration.
pub mod Steps
pub mod Flags
pub mod Parse
pub mod Entry
pub mod Render
pub mod Shell
pub mod Words
pub mod Replay
pub mod Assign
pub mod RoundTrip
mod Examples
