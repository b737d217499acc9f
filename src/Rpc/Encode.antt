-- ===== src/Rpc/Encode.antt =====
-- The filters of rpcgen/gp_rpc_xdr.c under XDR_ENCODE, on a memory stream of capacity `cap`. Each
-- takes what was written so far and fails where the C filter returns FALSE.
use gssproxy.Prelude.{ℕ, List, [], Option, none, ◌>>=◌}
use gssproxy.Xdr.{Xdr}
use gssproxy.Rpc.Message.{
  gp_rpc_call, gp_rpc_reply, gp_rpc_msg_accepted, gp_rpc_msg_denied, gp_rpc_success,
  gp_rpc_prog_mismatch, gp_rpc_rpc_mismatch, gp_rpc_auth_error, OpaqueAuth, MismatchInfo,
  ReplyUnion, results, mismatch_info, no_data, AcceptedReply, RejectedReply, rpc_mismatch,
  auth_error, bad_reject, ReplyHeader, accepted, rejected, bad_reply, CallHeader, MsgUnion, chdr,
  rhdr, bad_msg, RpcMsg,
}

module _ (x : Xdr) (cap : ℕ) where
  abbrev pub put_u_int : List ℕ → ℕ → Option (List ℕ)
  put_u_int out n = x.put cap out (x.u_int n)

  abbrev pub put_enum : List ℕ → ℕ → Option (List ℕ)
  put_enum out n = x.put cap out (x.enum n)

  unfoldable pub encode_opaque_auth : OpaqueAuth → List ℕ → Option (List ℕ)
  encode_opaque_auth a out = do
    out ← put_enum out a.flavor
    chunk ← x.bytes 400 a.body
    x.put cap out chunk

  unfoldable pub encode_mismatch_info : MismatchInfo → List ℕ → Option (List ℕ)
  encode_mismatch_info m out = do out ← put_u_int out m.low; put_u_int out m.high

  unfoldable pub encode_reply_union : ReplyUnion → List ℕ → Option (List ℕ)
  encode_reply_union results out = do out ← put_enum out gp_rpc_success; x.put cap out (x.opaque [])
  encode_reply_union (mismatch_info m) out = do
    out ← put_enum out gp_rpc_prog_mismatch
    encode_mismatch_info m out
  encode_reply_union (no_data s) out = put_enum out s

  unfoldable pub encode_accepted_reply : AcceptedReply → List ℕ → Option (List ℕ)
  encode_accepted_reply a out = do
    out ← encode_opaque_auth a.verf out
    encode_reply_union a.reply_data out

  unfoldable pub encode_rejected_reply : RejectedReply → List ℕ → Option (List ℕ)
  encode_rejected_reply (rpc_mismatch m) out = do
    out ← put_enum out gp_rpc_rpc_mismatch
    encode_mismatch_info m out
  encode_rejected_reply (auth_error s) out = do out ← put_enum out gp_rpc_auth_error; put_enum out s
  encode_rejected_reply (bad_reject s) out = none

  unfoldable pub encode_reply_header : ReplyHeader → List ℕ → Option (List ℕ)
  encode_reply_header (accepted a) out = do
    out ← put_enum out gp_rpc_msg_accepted
    encode_accepted_reply a out
  encode_reply_header (rejected r) out = do
    out ← put_enum out gp_rpc_msg_denied
    encode_rejected_reply r out
  encode_reply_header (bad_reply s) out = none

  unfoldable pub encode_call_header : CallHeader → List ℕ → Option (List ℕ)
  encode_call_header c out = do
    out ← put_u_int out c.rpcvers
    out ← put_u_int out c.prog
    out ← put_u_int out c.vers
    out ← put_u_int out c.proc
    out ← encode_opaque_auth c.cred out
    encode_opaque_auth c.verf out

  unfoldable pub encode_msg_union : MsgUnion → List ℕ → Option (List ℕ)
  encode_msg_union (chdr c) out = do out ← put_enum out gp_rpc_call; encode_call_header c out
  encode_msg_union (rhdr r) out = do out ← put_enum out gp_rpc_reply; encode_reply_header r out
  encode_msg_union (bad_msg t) out = none

  unfoldable pub encode_rpc_msg : RpcMsg → List ℕ → Option (List ℕ)
  encode_rpc_msg m out = do out ← put_u_int out m.xid; encode_msg_union m.header out
