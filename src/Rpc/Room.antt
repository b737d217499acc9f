-- ===== src/Rpc/Room.antt =====
-- How many bytes the filters of rpcgen/gp_rpc_xdr.c take for a reply, and that they succeed where
-- the stream has room for them.
use gssproxy.Prelude.{
  ℕ, ◌+◌, ◌≤◌, ◌≡◌, List, [], ◌++◌, Option, some, ◌>>=◌, arith, length, length-append, le→leb,
}
use gssproxy.Xdr.{Xdr, IsXdr}
use gssproxy.Rpc.Message.{
  gp_rpc_reply, gp_rpc_msg_accepted, gp_rpc_msg_denied, gp_rpc_success, gp_rpc_prog_mismatch,
  gp_rpc_rpc_mismatch, gp_rpc_auth_error, auth_none, MismatchInfo, ReplyUnion, results,
  mismatch_info, no_data, RejectedReply, accept, rpc_mismatch, auth_error, ReplyHeader, accepted,
  rejected, rhdr,
}
use gssproxy.Rpc.Encode.{
  put_u_int, put_enum, encode_opaque_auth, encode_mismatch_info, encode_reply_union,
  encode_accepted_reply, encode_rejected_reply, encode_reply_header, encode_msg_union,
  encode_rpc_msg,
}

-- With room for `k` more bytes the filter succeeds, and writes at most these.
abbrev pub Room : ℕ → (List ℕ → Option (List ℕ)) → ℕ → Type 0
Room cap put k =
    (out : List ℕ)
    → length out + k ≤ cap
    → (out' : List ℕ) × (put out ≡ some out') × (length out' ≤ length out + k)

pub Room-bind :
    (cap j k : ℕ) (put next : List ℕ → Option (List ℕ))
    → Room cap put j
    → Room cap next k
    → Room cap (λ out. put out >>= next) (j + k)
Room-bind cap j k put next first second out fits =
    let (mid, e, m) = first out (omega arith) in
    let (out', e', m') = second mid (omega arith) in (out', rw e e', omega arith)

Room-mono : (cap j k : ℕ) (put : List ℕ → Option (List ℕ)) → j ≤ k → Room cap put j → Room cap put k
Room-mono cap j k put le r out fits =
    let (out', e, m) = r out (omega arith) in (out', e, omega arith)

module _ {x : Xdr} (lib : IsXdr x) (cap : ℕ) where
  Room-put : (chunk : List ℕ) → Room cap (λ out. x.put cap out chunk) (length chunk)
  Room-put chunk out fits = (
    out ++ chunk,
    rw (lib.put_lem cap out chunk, le→leb _ cap fits),
    omega (arith, length-append out chunk),
  )

  Room-enum : (n : ℕ) → Room cap (λ out. put_enum x cap out n) 4
  Room-enum n = rw lib.length-enum at (Room-put (x.enum n))

  Room-u_int : (n : ℕ) → Room cap (λ out. put_u_int x cap out n) 4
  Room-u_int n = rw lib.length-u_int at (Room-put (x.u_int n))

  encode_auth_none-Room : Room cap (encode_opaque_auth x cap auth_none) 8
  unfolding encode_opaque_auth
  encode_auth_none-Room =
      Room-bind cap 4 4 _ _ (Room-enum 0) (λ out. rw (lib.bytes-nil 400) (Room-u_int 0 out))

  encode_mismatch_info-Room : (m : MismatchInfo) → Room cap (encode_mismatch_info x cap m) 8
  unfolding encode_mismatch_info
  encode_mismatch_info-Room m = Room-bind cap 4 4 _ _ (Room-u_int m.low) (Room-u_int m.high)

  Room-opaque_nil : Room cap (λ out. x.put cap out (x.opaque [])) 0
  Room-opaque_nil = rw lib.opaque-nil (Room-put [])

  encode_reply_union-Room : (u : ReplyUnion) → Room cap (encode_reply_union x cap u) 12
  unfolding encode_reply_union
  encode_reply_union-Room results =
      Room-mono cap 4 12 _ (omega arith)
        (Room-bind cap 4 0 _ _ (Room-enum gp_rpc_success) Room-opaque_nil)
  encode_reply_union-Room (mismatch_info m) =
      Room-bind cap 4 8 _ _ (Room-enum gp_rpc_prog_mismatch) (encode_mismatch_info-Room m)
  encode_reply_union-Room (no_data s) = Room-mono cap 4 12 _ (omega arith) (Room-enum s)

  encode_accepted_reply-Room :
      (u : ReplyUnion) → Room cap (encode_accepted_reply x cap (accept u)) 20
  unfolding encode_accepted_reply
  encode_accepted_reply-Room u =
      Room-bind cap 8 12 _ _ encode_auth_none-Room (encode_reply_union-Room u)

  pub encode_rejected_reply-Room_mismatch :
      (m : MismatchInfo) → Room cap (encode_rejected_reply x cap (rpc_mismatch m)) 12
  unfolding encode_rejected_reply
  encode_rejected_reply-Room_mismatch m =
      Room-bind cap 4 8 _ _ (Room-enum gp_rpc_rpc_mismatch) (encode_mismatch_info-Room m)

  pub encode_rejected_reply-Room_auth :
      (s : ℕ) → Room cap (encode_rejected_reply x cap (auth_error s)) 8
  unfolding encode_rejected_reply
  encode_rejected_reply-Room_auth s =
      Room-bind cap 4 4 _ _ (Room-enum gp_rpc_auth_error) (Room-enum s)

  encode_rpc_msg-Room :
      (xid k : ℕ) (h : ReplyHeader)
      → Room cap (encode_reply_header x cap h) k
      → Room cap (encode_rpc_msg x cap (record { xid = xid; header = rhdr h })) (8 + k)
  unfolding encode_rpc_msg encode_msg_union
  encode_rpc_msg-Room xid k h r = Room-mono cap (4 + (4 + k)) (8 + k) _ (omega arith) (
      Room-bind cap 4 (4 + k) _ _ (Room-u_int xid)
        (Room-bind cap 4 k _ _ (Room-enum gp_rpc_reply) r))

  -- An accepted reply takes at most 32 bytes, and so does a rejected one.
  pub encode_accepted-Room :
      (xid : ℕ) (u : ReplyUnion)
      → Room cap
          (encode_rpc_msg x cap (record { xid = xid; header = rhdr (accepted (accept u)) }))
          32
  unfolding encode_reply_header
  encode_accepted-Room xid u =
      encode_rpc_msg-Room xid 24 _
        (Room-bind cap 4 20 _ _ (Room-enum gp_rpc_msg_accepted) (encode_accepted_reply-Room u))

  pub encode_rejected-Room :
      (xid k : ℕ) (r : RejectedReply)
      → k ≤ 20
      → Room cap (encode_rejected_reply x cap r) k
      → Room cap (encode_rpc_msg x cap (record { xid = xid; header = rhdr (rejected r) })) 32
  unfolding encode_reply_header
  encode_rejected-Room xid k r small room =
      encode_rpc_msg-Room xid 24 _
        (Room-bind cap 4 20 _ _ (Room-enum gp_rpc_msg_denied) (Room-mono cap k 20 _ small room))
