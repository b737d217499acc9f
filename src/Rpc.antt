-- ===== src/Rpc.antt =====
-- The ONC RPC layer: the message of rpcgen/gp_rpc.h and its filters of rpcgen/gp_rpc_xdr.c.
pub mod Message
pub mod Encode
pub mod Decode
pub mod Procs
pub mod Emit
pub mod Room
pub mod Roundtrip
