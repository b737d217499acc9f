-- ===== src/Server/Process.antt =====
-- src/gp_rpc_process.c: gp_rpc_execute, gp_rpc_return_buffer and gp_rpc_process_call.
use gssproxy.Prelude.{
  ℕ, List, Option, some, none, Ret, success, failure, einval, enomem, Result, ok, err, Bool, length,
  if◌then◌else◌,
}
use gssproxy.Xdr.{Xdr}
use gssproxy.Rpc.Message.{gp_rpc_success, gp_rpc_system_err, gp_rpc_rpc_mismatch}
use gssproxy.Rpc.Procs.{Procs}
use gssproxy.Server.Table.{FnSet, fn_set}
use gssproxy.Server.Call.{CallState, decode_call}
use gssproxy.Server.Reply.{encode_reply}

abbrev pub initial : CallState
initial = record { xid = 0; proc = 0; acc = gp_rpc_success; rej = gp_rpc_rpc_mismatch }

-- `malloc n` tells whether an allocation of n bytes succeeds.
unfoldable pub return_buffer : (ℕ → Bool) → Result (List ℕ) → Result (List ℕ)
return_buffer malloc (err e) = err e
return_buffer malloc (ok out) = if malloc (length out) then ok out else err enomem

-- The last part of gp_rpc_process_call, which hands the context back.
unfoldable pub finish :
    {Ctx : Type 0} → (ℕ → Bool) → Ctx → Option (Result (List ℕ)) → Option (Ctx × Result (List ℕ))
unfolding return_buffer
finish malloc ctx none = none
finish malloc ctx (some r) = some (ctx, return_buffer malloc r)

module _ {Ctx Arg Res : Type 0} (ps : Procs Ctx Arg Res) where
  unfoldable pub call_exec : Option (FnSet Ctx Arg Res) → Ctx → Arg → Option (Ctx × Ret × Res)
  call_exec none ctx arg = none
  call_exec (some f) ctx arg = elim f.exec_fn [ none ↦ none | some run ↦ some (run ctx arg) ]

  -- `none` is an index out of the table, or the call of a handler NULL.
  unfoldable pub execute : ℕ → Ctx → Arg → Option (Ctx × Ret × Res)
  unfolding call_exec fn_set
  execute proc ctx arg = call_exec (fn_set ps proc) ctx arg

  -- What the encoder is given after the call: a handler's error is EINVAL with SYSTEM_ERR.
  abbrev pub Executed : Type 0
  Executed = Ctx × Ret × CallState × Res

  unfoldable pub after_exec : CallState → Option (Ctx × Ret × Res) → Option Executed
  after_exec st none = none
  after_exec st (some (ctx, success, res)) = some (ctx, success, st, res)
  after_exec st (some (ctx, failure e, res)) =
      some (ctx, failure einval, record st { acc = gp_rpc_system_err }, res)

  unfoldable pub run_call : Ctx → Option (Ret × CallState × Arg) → Option Executed
  unfolding after_exec execute
  run_call ctx none = none
  run_call ctx (some (success, st, arg)) = after_exec st (execute st.proc ctx arg)
  run_call ctx (some (failure e, st, arg)) = some (ctx, failure e, st, ps.zero_res)

  unfoldable pub reply_call : Xdr → (ℕ → Bool) → Option Executed → Option (Ctx × Result (List ℕ))
  unfolding encode_reply finish
  reply_call x malloc none = none
  reply_call x malloc (some (ctx, ret, st, res)) =
      finish malloc ctx (encode_reply ps x st.xid st.proc res ret st.acc st.rej)

  -- `none` is undefined behaviour; `err` is a call that ends with no reply.
  unfoldable pub process_call : Xdr → (ℕ → Bool) → Ctx → List ℕ → Option (Ctx × Result (List ℕ))
  unfolding run_call reply_call decode_call
  process_call x malloc ctx inbuf =
      reply_call x malloc (run_call ctx (decode_call ps x inbuf initial))
