-- ===== src/Conv.antt =====
-- Conversions for a reply: src/gp_conv.c.
pub mod Status
pub mod Messages
pub mod Copies
pub mod Sets
