-- ===== src/Rpc/Decode.antt =====
-- The filters of rpcgen/gp_rpc_xdr.c under XDR_DECODE: a value and what is left of the stream.
use gssproxy.Prelude.{ℕ, List, Option, some, none, ◌>>=◌, ◌==◌, if◌then◌else◌}
use gssproxy.Xdr.{Xdr}
use gssproxy.Rpc.Message.{
  gp_rpc_call, gp_rpc_reply, gp_rpc_msg_accepted, gp_rpc_msg_denied, gp_rpc_success,
  gp_rpc_prog_mismatch, gp_rpc_rpc_mismatch, gp_rpc_auth_error, OpaqueAuth, MismatchInfo,
  ReplyUnion, results, mismatch_info, no_data, AcceptedReply, RejectedReply, rpc_mismatch,
  auth_error, ReplyHeader, accepted, rejected, CallHeader, MsgUnion, chdr, rhdr, RpcMsg,
}

-- A filter that decodes.
abbrev pub Get : Type 0 → Type 0
Get A = List ℕ → Option (A × List ℕ)

module _ (x : Xdr) where
  unfoldable pub decode_opaque_auth : Get OpaqueAuth
  decode_opaque_auth inp = do
    (flavor, inp) ← x.get_enum inp
    (body, inp) ← x.get_bytes 400 inp
    some (record { flavor = flavor; body = body }, inp)

  unfoldable pub decode_mismatch_info : Get MismatchInfo
  decode_mismatch_info inp = do
    (low, inp) ← x.get_u_int inp
    (high, inp) ← x.get_u_int inp
    some (record { low = low; high = high }, inp)

  unfoldable pub decode_reply_union : Get ReplyUnion
  decode_reply_union inp = do
    (status, inp) ← x.get_enum inp
    if status == gp_rpc_success
        then (do (_, inp) ← x.get_opaque 0 inp; some (results, inp))
        else if status == gp_rpc_prog_mismatch
        then (do (m, inp) ← decode_mismatch_info inp; some (mismatch_info m, inp))
        else some (no_data status, inp)

  unfoldable pub decode_accepted_reply : Get AcceptedReply
  decode_accepted_reply inp = do
    (verf, inp) ← decode_opaque_auth inp
    (reply_data, inp) ← decode_reply_union inp
    some (record { verf = verf; reply_data = reply_data }, inp)

  unfoldable pub decode_rejected_reply : Get RejectedReply
  decode_rejected_reply inp = do
    (status, inp) ← x.get_enum inp
    if status == gp_rpc_rpc_mismatch
        then (do (m, inp) ← decode_mismatch_info inp; some (rpc_mismatch m, inp))
        else if status == gp_rpc_auth_error
        then (do (s, inp) ← x.get_enum inp; some (auth_error s, inp))
        else none

  unfoldable pub decode_reply_header : Get ReplyHeader
  decode_reply_header inp = do
    (status, inp) ← x.get_enum inp
    if status == gp_rpc_msg_accepted
        then (do (a, inp) ← decode_accepted_reply inp; some (accepted a, inp))
        else if status == gp_rpc_msg_denied
        then (do (r, inp) ← decode_rejected_reply inp; some (rejected r, inp))
        else none

  unfoldable pub decode_call_header : Get CallHeader
  decode_call_header inp = do
    (rpcvers, inp) ← x.get_u_int inp
    (prog, inp) ← x.get_u_int inp
    (vers, inp) ← x.get_u_int inp
    (proc, inp) ← x.get_u_int inp
    (cred, inp) ← decode_opaque_auth inp
    (verf, inp) ← decode_opaque_auth inp
    some (
      record { rpcvers = rpcvers; prog = prog; vers = vers; proc = proc; cred = cred; verf = verf },
      inp,
    )

  unfoldable pub decode_msg_union : Get MsgUnion
  decode_msg_union inp = do
    (type, inp) ← x.get_enum inp
    if type == gp_rpc_call
        then (do (c, inp) ← decode_call_header inp; some (chdr c, inp))
        else if type == gp_rpc_reply
        then (do (r, inp) ← decode_reply_header inp; some (rhdr r, inp))
        else none

  unfoldable pub decode_rpc_msg : Get RpcMsg
  decode_rpc_msg inp = do
    (xid, inp) ← x.get_u_int inp
    (header, inp) ← decode_msg_union inp
    some (record { xid = xid; header = header }, inp)
