-- ===== src/Workers.antt =====
-- The dispatcher and its worker threads: src/gp_workers.c.
pub mod Family
pub mod State
pub mod Step
pub mod Invariant
pub mod Safety
pub mod Conservation
pub mod Shutdown
pub mod Handle
