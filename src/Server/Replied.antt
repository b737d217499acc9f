-- ===== src/Server/Replied.antt =====
-- How a message that can be read is answered by gp_rpc_process_call of src/gp_rpc_process.c: lemmas
-- for each outcome of the checks and of the handler.
use gssproxy.Prelude.{
  ℕ, ◌≤◌, ◌<◌, ◌^◌, ◌≡◌, ◌≢◌, refl, sym, ap, ◌∙◌, ◌⊎◌, inl, inr, List, [], append-nil, Option, some,
  none, Ret, success, failure, Errno, einval, efault, Result, ok, Bool, length, arith, Option-cases,
}
use gssproxy.Xdr.{Xdr, IsXdr}
use gssproxy.Rpc.Message.{
  gp_rpc_garbage_args, gp_rpc_system_err, gp_rpc_rpc_mismatch, ReplyHeader, RpcMsg, MsgUnion, chdr,
  rhdr, bad_msg,
}
use gssproxy.Rpc.Decode.{decode_rpc_msg}
use gssproxy.Rpc.Procs.{Proc, number, max_rpc_size, Procs, IsProcs}
use gssproxy.Server.Rows.{number_onto, handler}
use gssproxy.Server.Call.{CallState, check_msg}
use gssproxy.Server.Reply.{reply_msg, encode_reply_header, or_system_err}
use gssproxy.Server.Process.{return_buffer, after_exec, reply_call, process_call}
use gssproxy.Server.Sent.{Sent, encode_reply_header-Sent}
use gssproxy.Server.Steps.{
  received, reply_call_failure, process_call_refused, process_call_undecoded, process_call_handled,
  reply_call_success,
}

-- A header that passes the checks names a procedure of the table.
pub check_msg_range :
    (u : MsgUnion) (st : CallState) {st' : CallState}
    → check_msg u st ≡ (success, st')
    → (1 ≤ st'.proc) × (st'.proc ≤ 15)
unfolding check_msg
check_msg_range (chdr c) st h = ground arith
check_msg_range (rhdr r) st h = ground arith
check_msg_range (bad_msg t) st h = ground arith

pub check_msg-ne-efault :
    (u : MsgUnion) (st : CallState) {ret : Ret} {st' : CallState}
    → check_msg u st ≡ (ret, st')
    → ret ≢ failure efault
unfolding check_msg
check_msg-ne-efault (chdr c) st h = ground arith
check_msg-ne-efault (rhdr r) st h = ground arith
check_msg-ne-efault (bad_msg t) st h = ground arith

Ret-cases :
    {A : Type 0} (r : Ret × A)
    → ((a : A) × (r ≡ (success, a))) ⊎ ((e : Errno) × (a : A) × (r ≡ (failure e, a)))
Ret-cases (success, a) = inl (a, refl)
Ret-cases (failure e, a) = inr (e, a, refl)

pub decode_rpc_msg-xid_word :
    {x : Xdr}
    → IsXdr x
    → (inp : List ℕ) (m : RpcMsg) (rest : List ℕ) → decode_rpc_msg x inp ≡ some (m, rest)
    → m.xid < 2 ^ 32
unfolding decode_rpc_msg
decode_rpc_msg-xid_word {x} lib inp m rest h = elim (Option-cases (x.get_u_int inp)) [
  | inl e ↦ let h' = rw (e, decode_rpc_msg) at h in cc
  | inr ((n, left), e) ↦
      let h' = rw (e, decode_rpc_msg) at h in let small = lib.get_u_int-lt inp e in ground arith
]

-- The call is answered by `bytes`, which begin with a reply header for the xid of the message.
pub record Replied {Ctx : Type 0} (x : Xdr) (malloc : ℕ → Bool) (m : RpcMsg)
    (result : Option (Ctx × Result (List ℕ))) : Type 0 where
  pub after : Ctx
  pub bytes : List ℕ
  pub header : ReplyHeader
  pub left : List ℕ
  pub replies : result ≡ some (after, return_buffer malloc (ok bytes))
  pub short : length bytes ≤ max_rpc_size
  pub reads : decode_rpc_msg x bytes ≡ some (reply_msg m.xid header, left)

-- The state of the checks, fit for a reply.
pub record IsReady (m : RpcMsg) (st : CallState) : Type 0 where
  pub word : m.xid < 2 ^ 32
  pub same : st.xid ≡ m.xid
  pub small_acc : st.acc ≤ 5
  pub small_rej : st.rej ≤ 1

module _ {Ctx : Type 0} (x : Xdr) (malloc : ℕ → Bool) (ctx : Ctx) (m : RpcMsg) where
  abbrev answered : Result (List ℕ) → Option (Ctx × Result (List ℕ))
  answered r = some (ctx, return_buffer malloc r)

  Sent-Replied :
      {result : Option (Ctx × Result (List ℕ))} (ret : Ret) (acc rej : ℕ)
      → Sent x m.xid ret acc rej
      → result ≡ answered (encode_reply_header x m.xid ret acc rej)
      → Replied x malloc m result
  Sent-Replied ret acc rej s e = record {
    after = ctx;
    bytes = s.bytes;
    header = s.header;
    left = [];
    replies = e ∙ ap answered s.sent;
    short = omega (arith, s.short);
    reads = rw append-nil at (s.reads []);
  }

module _ {Ctx Arg Res : Type 0} (ps : Procs Ctx Arg Res) {x : Xdr} (lib : IsXdr x)
    (malloc : ℕ → Bool) where
  result-Replied :
      (procs : IsProcs ps) (ctx : Ctx) (m : RpcMsg) (p : Proc) (st : CallState) (res : Res)
      (head : Sent x m.xid success st.acc st.rej) (out : Option (List ℕ))
      → ps.encode_res p max_rpc_size res head.bytes ≡ out
      → m.xid < 2 ^ 32
      → {result : Option (Ctx × Result (List ℕ))}
      → result ≡ answered x malloc ctx m (or_system_err x m.xid out)
      → Replied x malloc m result
  unfolding or_system_err
  result-Replied procs ctx m p st res head none e word sends =
      Sent-Replied x malloc ctx m (failure einval) gp_rpc_system_err gp_rpc_rpc_mismatch
        (encode_reply_header-Sent lib m.xid (failure einval) gp_rpc_system_err gp_rpc_rpc_mismatch
          word (omega arith) (omega arith) (λ h. cc))
        sends
  result-Replied procs ctx m p st res head (some out) e word sends =
      let (chunk, added, _) = procs.res_inverse p max_rpc_size res head.bytes out e in
      record {
        after = ctx;
        bytes = out;
        header = head.header;
        left = chunk;
        replies = sends;
        short = procs.res_fits p max_rpc_size res head.bytes e;
        reads = ap (decode_rpc_msg x) added ∙ head.reads chunk;
      }

  after_exec-Replied :
      (procs : IsProcs ps) (m : RpcMsg) (p : Proc) (st : CallState) (r : Ctx × Ret × Res)
      → IsReady m st
      → st.proc ≡ number p
      → Replied x malloc m (reply_call ps x malloc (after_exec ps st (some r)))
  unfolding after_exec
  after_exec-Replied procs m p st (ctx, success, res) ready named =
      let head =
        encode_reply_header-Sent lib m.xid success st.acc st.rej ready.word ready.small_acc
          ready.small_rej (λ h. cc) in
      result-Replied procs ctx m p st res head (ps.encode_res p max_rpc_size res head.bytes) refl
        ready.word
        (reply_call_success ps x malloc ctx st res p head.bytes named (rw ready.same head.sent)
          ∙ ap
              (λ i.
                answered x malloc ctx m
                  (or_system_err x i (ps.encode_res p max_rpc_size res head.bytes)))
              ready.same)
  after_exec-Replied procs m p st (ctx, failure e, res) ready named =
      Sent-Replied x malloc ctx m (failure einval) gp_rpc_system_err st.rej
        (encode_reply_header-Sent lib m.xid (failure einval) gp_rpc_system_err st.rej ready.word
          (omega arith) ready.small_rej (λ h. cc))
        (reply_call_failure ps x malloc ctx einval (record st { acc = gp_rpc_system_err }) res m.xid
          ready.same)

  handled-Replied :
      (procs : IsProcs ps) (ctx : Ctx) (inbuf : List ℕ) (m : RpcMsg) (rest : List ℕ) (p : Proc)
      (st : CallState) (arg : Option (Arg × List ℕ))
      → decode_rpc_msg x inbuf ≡ some (m, rest)
      → check_msg m.header (received m) ≡ (success, st)
      → st.proc ≡ number p
      → IsReady m st
      → ps.decode_arg p rest ≡ arg
      → Replied x malloc m (process_call ps x malloc ctx inbuf)
  handled-Replied procs ctx inbuf m rest p st none decoded checked named ready bad =
      Sent-Replied x malloc ctx m (failure einval) gp_rpc_garbage_args st.rej
        (encode_reply_header-Sent lib m.xid (failure einval) gp_rpc_garbage_args st.rej ready.word
          (omega arith) ready.small_rej (λ h. cc))
        (process_call_undecoded ps x malloc ctx inbuf m rest p st decoded checked named bad)
  handled-Replied procs ctx inbuf m rest p st (some (arg, left)) decoded checked named ready good =
      rw
        (process_call_handled ps x malloc ctx inbuf m rest left p st arg decoded checked named good)
        (after_exec-Replied procs m p (record st { proc = number p }) (handler ps p ctx arg)
          (omega arith) refl)

  pub checked-Replied :
      (procs : IsProcs ps) (ctx : Ctx) (inbuf : List ℕ) (m : RpcMsg) (rest : List ℕ)
      (r : Ret × CallState)
      → decode_rpc_msg x inbuf ≡ some (m, rest)
      → check_msg m.header (received m) ≡ r
      → IsReady m r.1
      → Replied x malloc m (process_call ps x malloc ctx inbuf)
  checked-Replied procs ctx inbuf m rest (success, st) decoded checked ready =
      let (lo, hi) = check_msg_range m.header (received m) checked in
      let (p, named) = number_onto st.proc lo hi in
      handled-Replied procs ctx inbuf m rest p st (ps.decode_arg p rest) decoded checked (sym named)
        ready refl
  checked-Replied procs ctx inbuf m rest (failure e, st) decoded checked ready =
      Sent-Replied x malloc ctx m (failure e) st.acc st.rej
        (encode_reply_header-Sent lib m.xid (failure e) st.acc st.rej ready.word ready.small_acc
          ready.small_rej (check_msg-ne-efault m.header (received m) checked))
        (process_call_refused ps x malloc ctx inbuf m rest e st decoded checked)
