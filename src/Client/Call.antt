-- ===== src/Client/Call.antt =====
-- src/client/gpm_common.c: gpm_xdr_set and gpm_make_call, over an interface to the connection, whose
-- functions are those of the same file.
use gssproxy.Prelude.{
  ℕ, List, [], ◌∷◌, Option, some, none, ◌>>=◌, Ret, success, failure, einval, enomem, Result, ok,
  err, Bool, false, ◌==◌, ◌&&◌, if◌then◌else◌, get_elem?,
}
use gssproxy.Xdr.{Xdr}
use gssproxy.Rpc.Message.{
  gp_rpc_success, gp_rpc_prog_mismatch, auth_none, ReplyUnion, results, mismatch_info, no_data,
  MsgUnion, chdr, rhdr, bad_msg, accepted, rejected, bad_reply, RpcMsg,
}
use gssproxy.Rpc.Encode.{encode_rpc_msg}
use gssproxy.Rpc.Decode.{Get, decode_rpc_msg}
use gssproxy.Rpc.Procs.{
  Proc, indicate_mechs, get_call_context, import_and_canon_name, export_cred, import_cred,
  acquire_cred, store_cred, init_sec_context, accept_sec_context, release_handle, get_mic,
  verify_mic, wrap, unwrap, wrap_size_limit, Put, Procs, gssproxy_prog, gssproxy_vers, max_rpc_size,
}

-- struct gpm_rpc_fn_set
pub record FnSet (Arg Res : Type 0) : Type 0 where
  pub arg_fn : Put Arg
  pub res_fn : Get Res

-- gpm_grab_sock, gpm_release_sock, gpm_next_xid and gpm_send_recv_loop, on a state `W` of the
-- connection. A grab that fails has released the lock.
pub record Transport (W : Type 0) : Type 0 where
  pub grab : W → W × Ret
  pub release : W → W
  pub next_xid : W → ℕ × W
  pub send_recv : W → List ℕ → W × Result (List ℕ)

-- The header of a call.
unfoldable pub call_msg : ℕ → ℕ → RpcMsg
call_msg xid proc = record {
  xid = xid;
  header = chdr (record {
    rpcvers = 2;
    prog = gssproxy_prog;
    vers = gssproxy_vers;
    proc = proc;
    cred = auth_none;
    verf = auth_none;
  });
}

-- The status of an accepted reply.
unfoldable pub union_status : ReplyUnion → ℕ
union_status results = gp_rpc_success
union_status (mismatch_info m) = gp_rpc_prog_mismatch
union_status (no_data s) = s

unfoldable pub is_success : MsgUnion → Bool
unfolding union_status
is_success (rhdr (accepted a)) = union_status a.reply_data == gp_rpc_success
is_success (rhdr (rejected r)) = false
is_success (rhdr (bad_reply s)) = false
is_success (chdr c) = false
is_success (bad_msg t) = false

module _ {Ctx Arg Res : Type 0} (ps : Procs Ctx Arg Res) where
  row : Proc → FnSet Arg Res
  row p = record { arg_fn = ps.encode_arg p; res_fn = ps.decode_res p }

  unfoldable pub gpm_xdr_set : List (FnSet Arg Res)
  unfolding row
  gpm_xdr_set =
      record { arg_fn = λ cap arg out. some out; res_fn = λ inp. some (ps.zero_res, inp) }
      ∷ row indicate_mechs
      ∷ row get_call_context
      ∷ row import_and_canon_name
      ∷ row export_cred
      ∷ row import_cred
      ∷ row acquire_cred
      ∷ row store_cred
      ∷ row init_sec_context
      ∷ row accept_sec_context
      ∷ row release_handle
      ∷ row get_mic
      ∷ row verify_mic
      ∷ row wrap
      ∷ row unwrap
      ∷ row wrap_size_limit
      ∷ []

  unfoldable pub fn_set : ℕ → Option (FnSet Arg Res)
  unfolding gpm_xdr_set
  fn_set i = get_elem? gpm_xdr_set i

module _ {Arg Res : Type 0} (x : Xdr) where
  -- The header and the arguments, in a buffer of MAX_RPC_SIZE.
  unfoldable pub encode_request : FnSet Arg Res → ℕ → ℕ → Arg → Option (List ℕ)
  unfolding call_msg
  encode_request f xid proc arg = do
    out ← encode_rpc_msg x max_rpc_size (call_msg xid proc) []
    f.arg_fn max_rpc_size arg out

  unfoldable pub decode_answer : FnSet Arg Res → Bool → List ℕ → Result Res
  decode_answer f false inp = err einval
  decode_answer f Bool.true inp = elim (f.res_fn inp) [ none ↦ err einval | some (res, _) ↦ ok res ]

  -- The reply must be to this call, and report success.
  unfoldable pub decode_reply : FnSet Arg Res → ℕ → List ℕ → Result Res
  unfolding decode_answer is_success
  decode_reply f xid inp = elim (decode_rpc_msg x inp) [
    | none ↦ err einval
    | some (msg, rest) ↦ decode_answer f (msg.xid == xid && is_success msg.header) rest
  ]

  module _ {W : Type 0} (t : Transport W) where
    -- After gpm_send_recv_loop: the lock is released on each path.
    unfoldable pub finish_call : FnSet Arg Res → ℕ → W × Result (List ℕ) → W × Result Res
    unfolding decode_reply
    finish_call f xid (w, err e) = (t.release w, err e)
    finish_call f xid (w, ok recv_buffer) = (t.release w, decode_reply f xid recv_buffer)

    unfoldable pub send_request : FnSet Arg Res → ℕ → W → Option (List ℕ) → W × Result Res
    unfolding finish_call
    send_request f xid w none = (t.release w, err einval)
    send_request f xid w (some send_buffer) = finish_call f xid (t.send_recv w send_buffer)

    unfoldable pub numbered_call : FnSet Arg Res → ℕ → Arg → ℕ × W → W × Result Res
    unfolding send_request encode_request
    numbered_call f proc arg (xid, w) = send_request f xid w (encode_request f xid proc arg)

    -- Under the lock.
    unfoldable pub locked_call : FnSet Arg Res → ℕ → Arg → W × Ret → W × Result Res
    unfolding numbered_call
    locked_call f proc arg (w, failure e) = (w, err e)
    locked_call f proc arg (w, success) = numbered_call f proc arg (t.next_xid w)

    unfoldable pub make_call_with : (ℕ → Bool) → FnSet Arg Res → W → ℕ → Arg → W × Result Res
    unfolding locked_call
    make_call_with malloc f w proc arg =
        if malloc max_rpc_size then locked_call f proc arg (t.grab w) else (w, err enomem)

-- `none` is an index out of gpm_xdr_set; the C code indexes it after the header is encoded.
unfoldable pub make_call :
    {Ctx Arg Res W : Type 0}
    → Procs Ctx Arg Res
    → Xdr
    → Transport W
    → (ℕ → Bool)
    → W
    → ℕ
    → Arg
    → Option (W × Result Res)
unfolding make_call_with fn_set
make_call ps x t malloc w proc arg = do
  f ← fn_set ps proc
  some (make_call_with x t malloc f w proc arg)
