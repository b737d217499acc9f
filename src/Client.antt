-- ===== src/Client.antt =====
-- The client's side: src/client/.
pub mod Call
pub mod Send
pub mod Recv
pub mod Loop
pub mod Sends
pub mod Receives
pub mod Xid
pub mod Retries
