-- ===== src/Server.antt =====
-- The server's side of a call: src/gp_rpc_process.c.
pub mod Table
pub mod Rows
pub mod Call
pub mod Reply
pub mod Process
pub mod Sent
pub mod Steps
pub mod Replied
pub mod Defined
pub mod Refusals
pub mod Rules
