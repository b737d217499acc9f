-- ===== src/Server/Call.antt =====
-- src/gp_rpc_process.c: gp_rpc_decode_call_header and gp_rpc_decode_call.
use gssproxy.Prelude.{
  ℕ, List, Option, some, none, Ret, success, failure, eacces, einval, efault, ◌==◌, ltb, ◌||◌, not,
  if◌then◌else◌,
}
use gssproxy.Xdr.{Xdr}
use gssproxy.Rpc.Message.{
  gp_rpc_success, gp_rpc_prog_unavail, gp_rpc_prog_mismatch, gp_rpc_proc_unavail,
  gp_rpc_garbage_args, gp_rpc_rpc_mismatch, gp_rpc_auth_error, gp_rpc_auth_none, CallHeader,
  MsgUnion, chdr, rhdr, bad_msg,
}
use gssproxy.Rpc.Decode.{decode_rpc_msg}
use gssproxy.Rpc.Procs.{gssx_proc_min, gssx_proc_max, gssproxy_prog, gssproxy_vers, Procs}
use gssproxy.Server.Table.{FnSet, fn_set}

-- The variables that gp_rpc_process_call passes by reference.
pub record CallState : Type 0 where
  pub xid : ℕ
  pub proc : ℕ
  pub acc : ℕ
  pub rej : ℕ

-- The checks of a call header, in their order.
unfoldable pub check_call_header : CallHeader → CallState → Ret × CallState
check_call_header c st =
    if not (c.rpcvers == 2)
    then (failure eacces, record st { rej = gp_rpc_rpc_mismatch })
    else if not (c.prog == gssproxy_prog)
    then (failure einval, record st { acc = gp_rpc_prog_unavail })
    else if not (c.vers == gssproxy_vers)
    then (failure einval, record st { acc = gp_rpc_prog_mismatch })
    else if ltb c.proc gssx_proc_min || ltb gssx_proc_max c.proc
    then (failure einval, record st { acc = gp_rpc_proc_unavail })
    else if not (c.cred.flavor == gp_rpc_auth_none)
    then (failure eacces, record st { rej = gp_rpc_auth_error })
    else (success, record st { proc = c.proc; acc = gp_rpc_success })

unfoldable pub check_msg : MsgUnion → CallState → Ret × CallState
unfolding check_call_header
check_msg (chdr c) st = check_call_header c st
check_msg (rhdr r) st = (failure einval, record st { acc = gp_rpc_garbage_args })
check_msg (bad_msg t) st = (failure einval, record st { acc = gp_rpc_garbage_args })

-- With what is left of the stream, for the arguments.
unfoldable pub decode_call_header : Xdr → List ℕ → CallState → (Ret × CallState) × List ℕ
decode_call_header x inp st = elim (decode_rpc_msg x inp) [
  | none ↦ ((failure efault, st), inp)
  | some (msg, rest) ↦ (check_msg msg.header (record st { xid = msg.xid }), rest)
]

module _ {Ctx Arg Res : Type 0} (ps : Procs Ctx Arg Res) where
  unfoldable pub decode_arg :
      Option (FnSet Ctx Arg Res) → CallState → List ℕ → Option (Ret × CallState × Arg)
  decode_arg none st inp = none
  decode_arg (some f) st inp = elim (f.arg_fn inp) [
    | none ↦ some (failure einval, record st { acc = gp_rpc_garbage_args }, ps.zero_arg)
    | some (arg, _) ↦ some (success, st, arg)
  ]

  -- `none` is an index out of the table.
  unfoldable pub decode_call_body : (Ret × CallState) × List ℕ → Option (Ret × CallState × Arg)
  unfolding decode_arg fn_set
  decode_call_body ((success, st), inp) = decode_arg (fn_set ps st.proc) st inp
  decode_call_body ((failure e, st), inp) = some (failure e, st, ps.zero_arg)

  unfoldable pub decode_call : Xdr → List ℕ → CallState → Option (Ret × CallState × Arg)
  unfolding decode_call_body decode_call_header
  decode_call x inp st = decode_call_body (decode_call_header x inp st)
