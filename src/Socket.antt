-- ===== src/Socket.antt =====
-- The server's sockets: src/gp_socket.c.
pub mod Frame
pub mod Read
pub mod Reader
pub mod Bounds
pub mod Write
pub mod Writer
