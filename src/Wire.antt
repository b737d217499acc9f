-- ===== src/Wire.antt =====
-- The arguments and results of the procedures: rpcgen/gss_proxy.h and rpcgen/gss_proxy_xdr.c.
pub mod Filter
pub mod Types
pub mod Args
pub mod Results
pub mod Filters
pub mod Inverse
pub mod Zeros
pub mod Union
pub mod Procs
