-- ===== src/Server/Reply.antt =====
-- src/gp_rpc_process.c: gp_rpc_encode_reply_header and gp_rpc_encode_reply.
use gssproxy.Prelude.{
  ℕ, List, [], Option, some, none, Ret, success, failure, eacces, einval, efault, Result, ok, err,
  ◌==◌, if◌then◌else◌,
}
use gssproxy.Xdr.{Xdr}
use gssproxy.Rpc.Message.{
  gp_rpc_success, gp_rpc_prog_mismatch, gp_rpc_system_err, gp_rpc_rpc_mismatch, gp_rpc_auth_error,
  gp_rpc_auth_failed, accept, ReplyUnion, results, mismatch_info, no_data, RejectedReply,
  rpc_mismatch, auth_error, bad_reject, ReplyHeader, accepted, rejected, rhdr, RpcMsg,
}
use gssproxy.Rpc.Encode.{encode_rpc_msg}
use gssproxy.Rpc.Procs.{gssproxy_vers, max_rpc_size, Procs}
use gssproxy.Server.Table.{FnSet, fn_set}

-- The union that goes with a status: a version range for a mismatch, and nothing else.
unfoldable pub reply_union : ℕ → ReplyUnion
reply_union acc =
    if acc == gp_rpc_prog_mismatch
    then mismatch_info (record { low = gssproxy_vers; high = gssproxy_vers })
    else if acc == gp_rpc_success
    then results
    else no_data acc

unfoldable pub rejected_reply : ℕ → RejectedReply
rejected_reply rej =
    if rej == gp_rpc_rpc_mismatch
    then rpc_mismatch (record { low = 2; high = 2 })
    else if rej == gp_rpc_auth_error
    then auth_error gp_rpc_auth_failed
    else bad_reject rej

-- The switch on `err`; `none` is its first case, which sends no reply.
unfoldable pub reply_header : Ret → ℕ → ℕ → Option ReplyHeader
unfolding reply_union rejected_reply
reply_header success acc rej = some (accepted (accept results))
reply_header (failure efault) acc rej = none
reply_header (failure eacces) acc rej = some (rejected (rejected_reply rej))
reply_header (failure einval) acc rej = some (accepted (accept (reply_union acc)))
reply_header (failure e) acc rej = some (accepted (accept (no_data gp_rpc_system_err)))

abbrev pub reply_msg : ℕ → ReplyHeader → RpcMsg
reply_msg xid h = record { xid = xid; header = rhdr h }

-- The stream starts again at position 0.
unfoldable pub put_reply_header : Xdr → ℕ → Option ReplyHeader → Result (List ℕ)
put_reply_header x xid none = err efault
put_reply_header x xid (some h) = elim (encode_rpc_msg x max_rpc_size (reply_msg xid h) []) [
  | none ↦ err efault
  | some out ↦ ok out
]

unfoldable pub encode_reply_header : Xdr → ℕ → Ret → ℕ → ℕ → Result (List ℕ)
unfolding put_reply_header reply_header
encode_reply_header x xid e acc rej = put_reply_header x xid (reply_header e acc rej)

-- A result that does not fit is replaced by the error.
unfoldable pub or_system_err : Xdr → ℕ → Option (List ℕ) → Result (List ℕ)
unfolding encode_reply_header
or_system_err x xid none =
    encode_reply_header x xid (failure einval) gp_rpc_system_err gp_rpc_rpc_mismatch
or_system_err x xid (some out) = ok out

module _ {Ctx Arg Res : Type 0} (ps : Procs Ctx Arg Res) (x : Xdr) where
  unfoldable pub put_result :
      Option (FnSet Ctx Arg Res) → ℕ → Res → List ℕ → Option (Result (List ℕ))
  unfolding or_system_err
  put_result none xid res out = none
  put_result (some f) xid res out = some (or_system_err x xid (f.res_fn max_rpc_size res out))

  unfoldable pub put_reply : Result (List ℕ) → Ret → ℕ → ℕ → Res → Option (Result (List ℕ))
  unfolding put_result fn_set
  put_reply (err e) ret xid proc res = some (err e)
  put_reply (ok out) success xid proc res = put_result (fn_set ps proc) xid res out
  put_reply (ok out) (failure e) xid proc res = some (ok out)

  -- `none` is an index out of the table.
  unfoldable pub encode_reply : ℕ → ℕ → Res → Ret → ℕ → ℕ → Option (Result (List ℕ))
  unfolding put_reply encode_reply_header
  encode_reply xid proc res ret acc rej =
      put_reply (encode_reply_header x xid ret acc rej) ret xid proc res
