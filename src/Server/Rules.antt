-- ===== src/Server/Rules.antt =====
-- The checks of src/gp_rpc_process.c, and the rules by which it refuses a message.
use gssproxy.Prelude.{
  ◌≡◌, ◌⊎◌, inl, inr, sym, ap, subst, ◌∙◌, Option, some, Ret, success, failure, Errno, arith,
}
use gssproxy.Rpc.Message.{MsgUnion, CallHeader, ReplyHeader, chdr}
use gssproxy.Rpc.Procs.{Proc, number}
use gssproxy.Server.Call.{CallState, check_msg}
use gssproxy.Server.Reply.{reply_header}
use gssproxy.Server.Process.{initial}
use gssproxy.Server.Refusals.{IsCallOf, Refused, Refused-Checked, check_msg-IsCallOf, Refused-total}

-- The reply header that is made of the result of the checks.
chosen_header : Ret × CallState → Option ReplyHeader
chosen_header (ret, st) = reply_header ret st.acc st.rej

some_injective : {h h' : ReplyHeader} → some h ≡ some h' → h ≡ h'
some_injective e = cc

Refused-unique : (u : MsgUnion) (h h' : ReplyHeader) → Refused u h → Refused u h' → h' ≡ h
unfolding chosen_header
Refused-unique u h h' r r' =
    let k = Refused-Checked initial r in
    let k' = Refused-Checked initial r' in
    some_injective (sym k'.chosen ∙ ap chosen_header (sym k'.checked ∙ k.checked) ∙ k.chosen)

Refused-IsCallOf :
    (p : Proc) (c : CallHeader) (h : ReplyHeader) → Refused (chdr c) h → ¬ IsCallOf p c
Refused-IsCallOf p c h r call =
    let k = Refused-Checked initial r in
    let e = sym k.checked ∙ check_msg-IsCallOf p c initial call in ground arith

-- The header is refused: the checks fail, with the statuses from which the reply header `h` is made,
-- and the rules give no other.
pub record IsRefusal (u : MsgUnion) (st : CallState) : Type 0 where
  pub header : ReplyHeader
  pub rule : Refused u header
  pub errno : Errno
  pub state : CallState
  pub checked : check_msg u st ≡ (failure errno, state)
  pub chosen : reply_header (failure errno) state.acc state.rej ≡ some header
  pub alone : (h : ReplyHeader) → Refused u h → h ≡ header

-- The header is a call of a procedure of the table: the checks succeed, with its number, and no rule
-- refuses it.
pub record IsServed (u : MsgUnion) (st : CallState) : Type 0 where
  pub proc : Proc
  pub call : CallHeader
  pub header : u ≡ chdr call
  pub rule : IsCallOf proc call
  pub checked : check_msg u st ≡ (success, record st { proc = number proc; acc = 0 })
  pub unrefused : (h : ReplyHeader) → ¬ Refused u h

-- The checks of gp_rpc_decode_call_header follow the rules: a header that a rule refuses fails them, with
-- the statuses from which gp_rpc_encode_reply_header makes the reply header of that rule, which is the
-- only one; any other header is a call of a procedure of the table, and passes, with the number of the
-- procedure.
pub check_msg-decides : (u : MsgUnion) (st : CallState) → IsRefusal u st ⊎ IsServed u st
check_msg-decides u st = elim (Refused-total u) [
  | inl (h, r) ↦
      let k = Refused-Checked st r in
      inl record {
        header = h;
        rule = r;
        errno = k.errno;
        state = k.state;
        checked = k.checked;
        chosen = k.chosen;
        alone = λ h' r'. Refused-unique u h h' r r';
      }
  | inr (p, c, e, call) ↦ inr record {
    proc = p;
    call = c;
    header = e;
    rule = call;
    checked =
        ap (λ m. check_msg m st) e
        ∙ check_msg-IsCallOf p c st call
        ∙ ap (λ n. (success, record st { proc = n; acc = 0 })) call.named;
    unrefused = λ h r. Refused-IsCallOf p c h (subst (λ m. Refused m h) e r) call;
  }
]
