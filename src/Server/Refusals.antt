-- ===== src/Server/Refusals.antt =====
-- What gp_rpc_process_call of src/gp_rpc_process.c answers to a header that it does not serve, against
-- the rules of ONC RPC (RFC 5531) written as a relation.
use gssproxy.Prelude.{
  ℕ, ◌≤◌, ◌<◌, ◌≡◌, ◌≢◌, refl, ap, ◌∙◌, ◌⊎◌, inl, inr, List, [], append-nil, some, success, failure,
  Errno, eacces, einval, ok, Bool, false, arith, Bool-cases, leb, ◌&&◌, sym,
}
use native.Mathlib.Decide.{ℕ_discrete}
use gssproxy.Xdr.{Xdr, IsXdr}
use gssproxy.Rpc.Message.{
  gp_rpc_prog_unavail, gp_rpc_proc_unavail, gp_rpc_garbage_args, gp_rpc_auth_none,
  gp_rpc_auth_failed, CallHeader, MsgUnion, chdr, rhdr, bad_msg, ReplyHeader, accepted, rejected,
  mismatch_info, no_data, rpc_mismatch, auth_error, accept, RpcMsg,
}
use gssproxy.Rpc.Decode.{decode_rpc_msg}
use gssproxy.Rpc.Procs.{Proc, number, Procs, gssproxy_prog, gssproxy_vers}
use gssproxy.Server.Rows.{number_onto, number_range}
use gssproxy.Server.Call.{CallState, check_msg}
use gssproxy.Server.Reply.{reply_header, reply_msg}
use gssproxy.Server.Process.{return_buffer, process_call}
use gssproxy.Server.Sent.{Sent, encode_reply_header-Sent}
use gssproxy.Server.Replied.{decode_rpc_msg-xid_word, check_msg-ne-efault}
use gssproxy.Server.Steps.{received, check_msg_keeps, process_call_refused}

-- A call that the server takes, of procedure `p`.
pub record IsCallOf (p : Proc) (c : CallHeader) : Type 0 where
  pub rpc : c.rpcvers ≡ 2
  pub program : c.prog ≡ gssproxy_prog
  pub version : c.vers ≡ gssproxy_vers
  pub named : c.proc ≡ number p
  pub no_auth : c.cred.flavor ≡ gp_rpc_auth_none

-- The reply that a header calls for, if it is not served. The checks have an order.
pub data Refused : MsgUnion → ReplyHeader → Type 0 where
  reply : (r : ReplyHeader) → Refused (rhdr r) (accepted (accept (no_data gp_rpc_garbage_args)))
  unknown : (t : ℕ) → Refused (bad_msg t) (accepted (accept (no_data gp_rpc_garbage_args)))
  rpc_version :
      (c : CallHeader)
      → c.rpcvers ≢ 2
      → Refused (chdr c) (rejected (rpc_mismatch (record { low = 2; high = 2 })))
  program :
      (c : CallHeader)
      → c.rpcvers ≡ 2
      → c.prog ≢ gssproxy_prog
      → Refused (chdr c) (accepted (accept (no_data gp_rpc_prog_unavail)))
  version :
      (c : CallHeader)
      → c.rpcvers ≡ 2
      → c.prog ≡ gssproxy_prog
      → c.vers ≢ gssproxy_vers
      → Refused (chdr c) (accepted (accept (mismatch_info (record { low = 1; high = 1 }))))
  procedure :
      (c : CallHeader)
      → c.rpcvers ≡ 2
      → c.prog ≡ gssproxy_prog
      → c.vers ≡ gssproxy_vers
      → ((p : Proc) → c.proc ≢ number p)
      → Refused (chdr c) (accepted (accept (no_data gp_rpc_proc_unavail)))
  auth :
      (p : Proc) (c : CallHeader)
      → c.rpcvers ≡ 2
      → c.prog ≡ gssproxy_prog
      → c.vers ≡ gssproxy_vers
      → c.proc ≡ number p
      → c.cred.flavor ≢ gp_rpc_auth_none
      → Refused (chdr c) (rejected (auth_error gp_rpc_auth_failed))

-- The checks refuse such a header, with the status from which that reply is made.
pub record Checked (u : MsgUnion) (h : ReplyHeader) (st : CallState) : Type 0 where
  pub errno : Errno
  pub state : CallState
  pub checked : check_msg u st ≡ (failure errno, state)
  pub chosen : reply_header (failure errno) state.acc state.rej ≡ some h

outside : (n : ℕ) → ((p : Proc) → n ≢ number p) → (n < 1) ⊎ (15 < n)
outside n h = elim (Bool-cases (leb 1 n && leb n 15)) [
  | inl e ↦ let (p, q) = number_onto n (ground arith) (ground arith) in absurd (h p (sym q))
  | inr e ↦ ground arith
]

pub Refused-Checked :
    {u : MsgUnion} {h : ReplyHeader} (st : CallState) → Refused u h → Checked u h st
unfolding check_msg reply_header
Refused-Checked st (reply r) = record {
  errno = einval;
  state = record st { acc = gp_rpc_garbage_args };
  checked = refl;
  chosen = refl;
}
Refused-Checked st (unknown t) = record {
  errno = einval;
  state = record st { acc = gp_rpc_garbage_args };
  checked = refl;
  chosen = refl;
}
Refused-Checked st (rpc_version c a) = record {
  errno = eacces;
  state = record st { rej = 0 };
  checked = ground arith;
  chosen = refl;
}
Refused-Checked st (program c a b) = record {
  errno = einval;
  state = record st { acc = gp_rpc_prog_unavail };
  checked = ground arith;
  chosen = refl;
}
Refused-Checked st (version c a b d) = record {
  errno = einval;
  state = record st { acc = 2 };
  checked = ground arith;
  chosen = refl;
}
Refused-Checked st (procedure c a b d e) = record {
  errno = einval;
  state = record st { acc = gp_rpc_proc_unavail };
  checked = ground (arith, outside c.proc e);
  chosen = refl;
}
Refused-Checked st (auth p c a b d e f) = record {
  errno = eacces;
  state = record st { rej = 1 };
  checked = ground (arith, number_range p);
  chosen = refl;
}

pub check_msg-IsCallOf :
    (p : Proc) (c : CallHeader) (st : CallState)
    → IsCallOf p c
    → check_msg (chdr c) st ≡ (success, record st { proc = c.proc; acc = 0 })
unfolding check_msg
check_msg-IsCallOf p c st call = ground (arith, number_range p)

-- Each header is refused, or is a call of a procedure of the table.
pub Refused-total :
    (u : MsgUnion)
    → ((h : ReplyHeader) × Refused u h)
      ⊎ ((p : Proc) × (c : CallHeader) × (u ≡ chdr c) × IsCallOf p c)
Refused-total (rhdr r) = inl (_, reply r)
Refused-total (bad_msg t) = inl (_, unknown t)
Refused-total (chdr c) = elim (ℕ_discrete c.rpcvers 2) [
  | no a ↦ inl (_, rpc_version c a)
  | yes a ↦ elim (ℕ_discrete c.prog gssproxy_prog) [
    | no b ↦ inl (_, program c a b)
    | yes b ↦ elim (ℕ_discrete c.vers gssproxy_vers) [
      | no d ↦ inl (_, version c a b d)
      | yes d ↦ elim (Bool-cases (leb 1 c.proc && leb c.proc 15)) [
        | inr e ↦ inl (_, procedure c a b d (λ p q. absurd (in_range p q e)))
        | inl e ↦
            let (p, q) = number_onto c.proc (ground arith) (ground arith) in
            elim (ℕ_discrete c.cred.flavor gp_rpc_auth_none) [
              | no f ↦ inl (_, auth p c a b d (sym q) f)
              | yes f ↦ inr (
                p,
                c,
                refl,
                record { rpc = a; program = b; version = d; named = sym q; no_auth = f },
              )
            ]
      ]
    ]
  ]
]
  where
    in_range : (p : Proc) → c.proc ≡ number p → (leb 1 c.proc && leb c.proc 15) ≡ false → ⊥
    in_range p q e = ground (arith, number_range p)

module _ {Ctx Arg Res : Type 0} (ps : Procs Ctx Arg Res) {x : Xdr} (lib : IsXdr x)
    (malloc : ℕ → Bool) where
  -- A message that the rules of ONC RPC refuse with a reply header is answered by that header and
  -- nothing more, for the same xid, and no handler runs: the context is unchanged.
  pub process_call_refuses :
      (ctx : Ctx) (inbuf : List ℕ) (m : RpcMsg) (rest : List ℕ) (h : ReplyHeader)
      → decode_rpc_msg x inbuf ≡ some (m, rest)
      → Refused m.header h
      → (bytes : List ℕ) × (process_call ps x malloc ctx inbuf
          ≡ some (ctx, return_buffer malloc (ok bytes)))
        × (decode_rpc_msg x bytes ≡ some (reply_msg m.xid h, []))
  process_call_refuses ctx inbuf m rest h decoded refused = (
    s.bytes,
    process_call_refused ps x malloc ctx inbuf m rest k.errno k.state decoded k.checked
        ∙ ap (λ r. some (ctx, return_buffer malloc r)) s.sent,
    rw append-nil at (s.reads []) ∙ ap (λ g. some (reply_msg m.xid g, [])) same,
  )
    where
      k : Checked m.header h (received m)
      k = Refused-Checked (received m) refused

      kept : (k.state.xid ≡ m.xid) × (0 ≤ 5 → k.state.acc ≤ 5) × (0 ≤ 1 → k.state.rej ≤ 1)
      kept = check_msg_keeps m.header (received m) k.checked

      s : Sent x m.xid (failure k.errno) k.state.acc k.state.rej
      s =
          encode_reply_header-Sent lib m.xid (failure k.errno) k.state.acc k.state.rej
            (decode_rpc_msg-xid_word lib inbuf m rest decoded) (kept.1 (omega arith))
            (kept.2 (omega arith)) (check_msg-ne-efault m.header (received m) k.checked)

      same : s.header ≡ h
      same = let c = sym s.chosen ∙ k.chosen in cc
