-- ===== src/Dash/Fields.antt =====
-- internal/ui/xapiri/dashboard_fields.go: the positions and the table of the fields.
pub mod Inputs
pub mod Options
pub mod FocusA
pub mod FocusB
pub mod Table
