-- ===== src/Wire/Inverse.antt =====
-- The filters of rpcgen/gss_proxy_xdr.c read back what they wrote.
pub mod Basics
pub mod Args
pub mod Results
