-- ===== src/Export.antt =====
-- The export of handles: src/gp_export.c.
pub mod Padding
pub mod Names
pub mod Handle
pub mod Stateless
pub mod Depad
pub mod Sealed
pub mod Linux
pub mod Groups
pub mod Options
pub mod Lucid
pub mod Context
pub mod Kernel
