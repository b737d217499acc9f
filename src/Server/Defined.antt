-- ===== src/Server/Defined.antt =====
-- gp_rpc_process_call of src/gp_rpc_process.c on any input: no index leaves the table, no handler is
-- NULL, and whatever message can be read is answered.
use gssproxy.Prelude.{ℕ, ◌≡◌, ◌≢◌, refl, inl, inr, List, some, none, Bool, arith, Option-cases}
use gssproxy.Xdr.{Xdr, IsXdr}
use gssproxy.Rpc.Message.{RpcMsg}
use gssproxy.Rpc.Decode.{decode_rpc_msg}
use gssproxy.Rpc.Procs.{Procs, IsProcs}
use gssproxy.Server.Call.{check_msg}
use gssproxy.Server.Process.{process_call}
use gssproxy.Server.Replied.{Replied, decode_rpc_msg-xid_word, checked-Replied}
use gssproxy.Server.Steps.{received, check_msg_keeps, process_call_garbled}

module _ {Ctx Arg Res : Type 0} (ps : Procs Ctx Arg Res) {x : Xdr} (lib : IsXdr x)
    (malloc : ℕ → Bool) where
  -- Any input whose message header can be read is answered, whatever the header and the arguments
  -- say and whatever the handler returns: the call ends with a buffer of at most MAX_RPC_SIZE bytes
  -- (or with ENOMEM, if malloc fails), and the buffer begins with a reply header for the same xid.
  pub process_call_replies :
      (procs : IsProcs ps) (ctx : Ctx) (inbuf : List ℕ) (m : RpcMsg) (rest : List ℕ)
      → decode_rpc_msg x inbuf ≡ some (m, rest)
      → Replied x malloc m (process_call ps x malloc ctx inbuf)
  process_call_replies procs ctx inbuf m rest decoded =
      let (same, small_acc, small_rej) =
        check_msg_keeps m.header (received m) {ret = (check_msg m.header (received m)).0} refl in
      checked-Replied ps lib malloc procs ctx inbuf m rest (check_msg m.header (received m)) decoded
        refl
        (record {
          word = decode_rpc_msg-xid_word lib inbuf m rest decoded;
          same = same;
          small_acc = small_acc (omega arith);
          small_rej = small_rej (omega arith);
        })

  -- On any input whatever, the call is defined: no index is out of gp_xdr_set, and no handler that is
  -- called is NULL.
  pub process_call_defined :
      IsProcs ps → (ctx : Ctx) (inbuf : List ℕ) → process_call ps x malloc ctx inbuf ≢ none
  process_call_defined procs ctx inbuf h = elim (Option-cases (decode_rpc_msg x inbuf)) [
    | inl e ↦ let d = process_call_garbled ps x malloc ctx inbuf e in cc
    | inr ((m, rest), e) ↦
        let r = process_call_replies procs ctx inbuf m rest e in let d = r.replies in cc
  ]
