-- ===== src/Tests/Wires.antt =====
-- The filters of the procedures over the XDR of RFC 4506: rpcgen/gss_proxy_xdr.c.
use gssproxy.Prelude.{ℕ, suc, ◌≡◌, refl, [], ◌∷◌, some, Ret, success, arith}
use gssproxy.Rpc.Procs.{Proc, IsProcs}
use gssproxy.Wire.Types.{GssxHandle, member, Payload}
use gssproxy.Wire.Filter.{◌⊙◌, struct, switch, xdr_bytes}
use gssproxy.Wire.Filters.Basics.{
  xdr_octet_string, xdr_gssx_handle_type, xdr_payload, xdr_gssx_handle,
}
use gssproxy.Wire.Union.{Union, ArgOf, ResOf, cleared_res, wire_procs}
use gssproxy.Wire.Procs.{wire_procs-IsProcs}
use gssproxy.Tests.Filters.{rfc4506_lib, rfc4506_lib-IsXdrLib}
use gssproxy.Tests.Rfc.{rfc4506}

-- Handlers that leave the result as memset left it, and count the calls.
idle : Proc → ℕ → Union ArgOf → ℕ × Ret × Union ResOf
idle p ctx arg = (suc ctx, success, cleared_res p)

wire_procs-IsProcs_example : IsProcs (wire_procs rfc4506_lib idle)
wire_procs-IsProcs_example = wire_procs-IsProcs rfc4506_lib-IsXdrLib idle

-- A handle of a type that the protocol has no name for: the union holds `extensions`.
abbrev other_handle : GssxHandle
unfolding Payload member
other_handle = record { handle_type = (2, omega arith); gssx_handle_u = 7 ∷ 8 ∷ [] }

-- It is written as its type and its octets.
other_handle_written :
    (xdr_gssx_handle rfc4506_lib).encode 100 other_handle []
    ≡ some (0 ∷ 0 ∷ 0 ∷ 2 ∷ 0 ∷ 0 ∷ 0 ∷ 2 ∷ 7 ∷ 8 ∷ 0 ∷ 0 ∷ [])
unfolding xdr_gssx_handle xdr_gssx_handle_type xdr_payload member Payload xdr_octet_string xdr_bytes
    struct ◌⊙◌ switch rfc4506_lib rfc4506
other_handle_written = refl
