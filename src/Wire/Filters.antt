-- ===== src/Wire/Filters.antt =====
-- The filters of rpcgen/gss_proxy_xdr.c, by what they read and write.
pub mod Basics
pub mod Args
pub mod Results
