-- ===== src/Sync.antt =====
-- A credential that a call has changed goes back to the client: the end of src/gp_creds.c, and
-- src/client/gpm_init_sec_context.c.
pub mod Tickets
pub mod Payload
pub mod Counted
pub mod Returned
