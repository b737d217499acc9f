-- ===== src/Gss.antt =====
-- What the daemon does with the GSSAPI: src/gp_creds.c and src/gp_conv.c.
pub mod Status
pub mod Api
pub mod Names
pub mod Inversion
