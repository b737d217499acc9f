-- ===== src/Server/Steps.antt =====
-- gp_rpc_process_call of src/gp_rpc_process.c, path by path: lemmas for what it answers.
use gssproxy.Prelude.{
  ℕ, ◌≤◌, ◌≡◌, refl, sym, ap, List, some, none, Ret, success, failure, Errno, efault, einval,
  Result, ok, err, Bool, arith,
}
use gssproxy.Xdr.{Xdr}
use gssproxy.Rpc.Message.{gp_rpc_garbage_args, RpcMsg, MsgUnion, chdr, rhdr, bad_msg}
use gssproxy.Rpc.Decode.{decode_rpc_msg}
use gssproxy.Rpc.Procs.{Proc, number, max_rpc_size, Procs}
use gssproxy.Server.Rows.{handler, fn_set-number}
use gssproxy.Server.Call.{CallState, check_msg, decode_call_header, decode_arg}
use gssproxy.Server.Reply.{encode_reply_header, or_system_err, put_result, put_reply, encode_reply}
use gssproxy.Server.Process.{
  initial, finish, return_buffer, call_exec, execute, after_exec, reply_call, process_call,
}

-- The state with which the header's checks begin.
abbrev pub received : RpcMsg → CallState
received m = record initial { xid = m.xid }

-- The checks change neither the xid, nor the procedure of a call that they refuse.
pub check_msg_keeps :
    (u : MsgUnion) (st : CallState) {ret : Ret} {st' : CallState}
    → check_msg u st ≡ (ret, st')
    → (st'.xid ≡ st.xid) × (st.acc ≤ 5 → st'.acc ≤ 5) × (st.rej ≤ 1 → st'.rej ≤ 1)
unfolding check_msg
check_msg_keeps (chdr c) st h = ground arith
check_msg_keeps (rhdr r) st h = ground arith
check_msg_keeps (bad_msg t) st h = ground arith

put_reply_failure :
    {Ctx Arg Res : Type 0} (ps : Procs Ctx Arg Res) (x : Xdr) (r : Result (List ℕ)) (e : Errno)
    (xid proc : ℕ) (res : Res)
    → put_reply ps x r (failure e) xid proc res ≡ some r
unfolding put_reply
put_reply_failure ps x (ok out) e xid proc res = refl
put_reply_failure ps x (err e') e xid proc res = refl

module _ {Ctx Arg Res : Type 0} (ps : Procs Ctx Arg Res) where
  execute-number :
      (p : Proc) (ctx : Ctx) (arg : Arg)
      → execute ps (number p) ctx arg ≡ some (handler ps p ctx arg)
  unfolding execute
  execute-number p ctx arg = rw (fn_set-number ps p, call_exec)

module _ {Ctx Arg Res : Type 0} (ps : Procs Ctx Arg Res) (x : Xdr) (malloc : ℕ → Bool) where
  -- A call that failed is answered with a header alone.
  pub reply_call_failure :
      (ctx : Ctx) (e : Errno) (st : CallState) (res : Res) (xid : ℕ)
      → st.xid ≡ xid
      → reply_call ps x malloc (some (ctx, failure e, st, res))
        ≡ some (ctx, return_buffer malloc (encode_reply_header x xid (failure e) st.acc st.rej))
  unfolding reply_call encode_reply
  reply_call_failure ctx e st res xid same = rw (sym same) (
      ap (finish malloc ctx) (
        put_reply_failure ps x (encode_reply_header x st.xid (failure e) st.acc st.rej) e st.xid
          st.proc res))

  -- No message: the call ends with EFAULT and no reply.
  pub process_call_garbled :
      (ctx : Ctx) (inbuf : List ℕ)
      → decode_rpc_msg x inbuf ≡ none
      → process_call ps x malloc ctx inbuf ≡ some (ctx, err efault)
  unfolding process_call decode_call_header
  process_call_garbled ctx inbuf e = rw (e, decode_call_header)

  -- A header that the checks refuse: the reply has that error, and no handler runs.
  pub process_call_refused :
      (ctx : Ctx) (inbuf : List ℕ) (m : RpcMsg) (rest : List ℕ) (e : Errno) (st : CallState)
      → decode_rpc_msg x inbuf ≡ some (m, rest)
      → check_msg m.header (received m) ≡ (failure e, st)
      → process_call ps x malloc ctx inbuf
        ≡ some (ctx, return_buffer malloc (encode_reply_header x m.xid (failure e) st.acc st.rej))
  unfolding process_call
  process_call_refused ctx inbuf m rest e st decoded checked =
      rw (decoded, decode_call_header, checked)
        (reply_call_failure ctx e st ps.zero_res m.xid
          (check_msg_keeps m.header (received m) checked).0)

  -- Arguments that the filter of the procedure does not read.
  pub process_call_undecoded :
      (ctx : Ctx) (inbuf : List ℕ) (m : RpcMsg) (rest : List ℕ) (p : Proc) (st : CallState)
      → decode_rpc_msg x inbuf ≡ some (m, rest)
      → check_msg m.header (received m) ≡ (success, st)
      → st.proc ≡ number p
      → ps.decode_arg p rest ≡ none
      → process_call ps x malloc ctx inbuf
        ≡ some (
          ctx,
          return_buffer malloc
              (encode_reply_header x m.xid (failure einval) gp_rpc_garbage_args st.rej),
        )
  unfolding process_call decode_arg
  process_call_undecoded ctx inbuf m rest p st decoded checked named bad =
      rw (decoded, decode_call_header, checked, named, fn_set-number ps p, bad, decode_arg)
        (reply_call_failure ctx einval (record st { proc = number p; acc = gp_rpc_garbage_args })
          ps.zero_res m.xid (check_msg_keeps m.header (received m) checked).0)

  -- Arguments that are read: the handler of the procedure runs on them, and its result is sent.
  pub process_call_handled :
      (ctx : Ctx) (inbuf : List ℕ) (m : RpcMsg) (rest left : List ℕ) (p : Proc) (st : CallState)
      (arg : Arg)
      → decode_rpc_msg x inbuf ≡ some (m, rest)
      → check_msg m.header (received m) ≡ (success, st)
      → st.proc ≡ number p
      → ps.decode_arg p rest ≡ some (arg, left)
      → process_call ps x malloc ctx inbuf
        ≡ reply_call ps x malloc
            (after_exec ps (record st { proc = number p }) (some (handler ps p ctx arg)))
  unfolding process_call decode_arg
  process_call_handled ctx inbuf m rest left p st arg decoded checked named good = rw (
    decoded,
    decode_call_header,
    checked,
    named,
    fn_set-number ps p,
    good,
    decode_arg,
    execute-number ps p ctx arg,
  )

  encode_reply-number :
      (ctx : Ctx) (st : CallState) (res : Res) (p : Proc) (head : List ℕ)
      → st.proc ≡ number p
      → encode_reply_header x st.xid success st.acc st.rej ≡ ok head
      → encode_reply ps x st.xid st.proc res success st.acc st.rej
        ≡ some (or_system_err x st.xid (ps.encode_res p max_rpc_size res head))
  unfolding encode_reply
  encode_reply-number ctx st res p head named sent =
      rw (named, sent, put_reply, fn_set-number ps p, put_result)

  -- The row of the procedure encodes the result; where that fails, SYSTEM_ERR is sent alone.
  pub reply_call_success :
      (ctx : Ctx) (st : CallState) (res : Res) (p : Proc) (head : List ℕ)
      → st.proc ≡ number p
      → encode_reply_header x st.xid success st.acc st.rej ≡ ok head
      → reply_call ps x malloc (some (ctx, success, st, res))
        ≡ some (
          ctx,
          return_buffer malloc (or_system_err x st.xid (ps.encode_res p max_rpc_size res head)),
        )
  unfolding reply_call
  reply_call_success ctx st res p head named sent =
      ap (finish malloc ctx) (encode_reply-number ctx st res p head named sent)
