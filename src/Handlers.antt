-- ===== src/Handlers.antt =====
-- Handlers of the procedures: src/gp_rpc_acquire_cred.c.
pub mod Mechs
pub mod Acquire
pub mod Discards
pub mod Impersonation
