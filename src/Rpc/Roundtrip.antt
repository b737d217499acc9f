-- ===== src/Rpc/Roundtrip.antt =====
-- Each filter of rpcgen/gp_rpc_xdr.c reads back what it wrote.
use gssproxy.Prelude.{ℕ, ◌≡◌, List, ◌++◌, some, ne→==, arith}
use gssproxy.Xdr.{Xdr, IsXdr}
use gssproxy.Rpc.Message.{
  gp_rpc_call, gp_rpc_reply, gp_rpc_msg_accepted, gp_rpc_msg_denied, gp_rpc_success,
  gp_rpc_prog_mismatch, gp_rpc_rpc_mismatch, gp_rpc_auth_error, OpaqueAuth, MismatchInfo,
  ReplyUnion, results, mismatch_info, no_data, AcceptedReply, RejectedReply, rpc_mismatch,
  auth_error, bad_reject, ReplyHeader, accepted, rejected, bad_reply, CallHeader, MsgUnion, chdr,
  rhdr, bad_msg, RpcMsg, IsAuth, IsMismatch, IsReplyUnion, IsRejected, IsReplyHeader, IsCallHeader,
  IsMsgUnion, IsRpcMsg,
}
use gssproxy.Rpc.Encode.{
  put_u_int, put_enum, encode_opaque_auth, encode_mismatch_info, encode_reply_union,
  encode_accepted_reply, encode_rejected_reply, encode_reply_header, encode_call_header,
  encode_msg_union, encode_rpc_msg,
}
use gssproxy.Rpc.Decode.{
  decode_opaque_auth, decode_mismatch_info, decode_reply_union, decode_accepted_reply,
  decode_rejected_reply, decode_reply_header, decode_call_header, decode_msg_union, decode_rpc_msg,
}
use gssproxy.Rpc.Emit.{
  Emit, >>=-eq-some, Emit-pure, Emit-bind, Emit-cast, Emit-u_int, Emit-enum, Emit-bytes,
  Emit-opaque_nil,
}

module _ {x : Xdr} (lib : IsXdr x) (cap : ℕ) where
  encode_opaque_auth-Emit :
      (a : OpaqueAuth) (out : List ℕ) {out' : List ℕ}
      → IsAuth a
      → encode_opaque_auth x cap a out ≡ some out'
      → Emit (decode_opaque_auth x) a out out'
  unfolding encode_opaque_auth decode_opaque_auth
  encode_opaque_auth-Emit a out small h =
      let (mid, e, h') = >>=-eq-some (put_enum x cap out a.flavor) _ h in
      let (chunk, long, h'') = >>=-eq-some (x.bytes 400 a.body) _ h' in
      Emit-bind _ (Emit-enum lib cap a.flavor out small e)
        (Emit-bind _ (Emit-bytes lib cap 400 a.body mid long h'') (Emit-pure a _))

  encode_mismatch_info-Emit :
      (m : MismatchInfo) (out : List ℕ) {out' : List ℕ}
      → IsMismatch m
      → encode_mismatch_info x cap m out ≡ some out'
      → Emit (decode_mismatch_info x) m out out'
  unfolding encode_mismatch_info decode_mismatch_info
  encode_mismatch_info-Emit m out small h =
      let (mid, e, h') = >>=-eq-some (put_u_int x cap out m.low) _ h in
      Emit-bind _ (Emit-u_int lib cap m.low out small.low_word e)
        (Emit-bind _ (Emit-u_int lib cap m.high mid small.high_word h') (Emit-pure m _))

  encode_reply_union-Emit :
      (u : ReplyUnion) (out : List ℕ) {out' : List ℕ}
      → IsReplyUnion u
      → encode_reply_union x cap u out ≡ some out'
      → Emit (decode_reply_union x) u out out'
  unfolding encode_reply_union decode_reply_union
  encode_reply_union-Emit results out small h =
      let (mid, e, h') = >>=-eq-some (put_enum x cap out gp_rpc_success) _ h in
      Emit-bind _ (Emit-enum lib cap gp_rpc_success out (omega arith) e)
        (Emit-bind _ (Emit-opaque_nil lib cap mid h') (Emit-pure results _))
  encode_reply_union-Emit (mismatch_info m) out small h =
      let (mid, e, h') = >>=-eq-some (put_enum x cap out gp_rpc_prog_mismatch) _ h in
      Emit-bind _ (Emit-enum lib cap gp_rpc_prog_mismatch out (omega arith) e)
        (Emit-bind _ (encode_mismatch_info-Emit m mid small h') (Emit-pure (mismatch_info m) _))
  encode_reply_union-Emit (no_data s) out small h =
      Emit-bind _ (Emit-enum lib cap s out small.0 h) (
        Emit-cast (λ inp. rw (ne→== s gp_rpc_success small.1, ne→== s gp_rpc_prog_mismatch small.2))
          (Emit-pure (no_data s) _))

  encode_accepted_reply-Emit :
      (a : AcceptedReply) (out : List ℕ) {out' : List ℕ}
      → IsReplyHeader (accepted a)
      → encode_accepted_reply x cap a out ≡ some out'
      → Emit (decode_accepted_reply x) a out out'
  unfolding encode_accepted_reply decode_accepted_reply
  encode_accepted_reply-Emit a out small h =
      let (mid, e, h') = >>=-eq-some (encode_opaque_auth x cap a.verf out) _ h in
      Emit-bind _ (encode_opaque_auth-Emit a.verf out small.0 e)
        (Emit-bind _ (encode_reply_union-Emit a.reply_data mid small.1 h') (Emit-pure a _))

  encode_rejected_reply-Emit :
      (r : RejectedReply) (out : List ℕ) {out' : List ℕ}
      → IsRejected r
      → encode_rejected_reply x cap r out ≡ some out'
      → Emit (decode_rejected_reply x) r out out'
  unfolding encode_rejected_reply decode_rejected_reply
  encode_rejected_reply-Emit (rpc_mismatch m) out small h =
      let (mid, e, h') = >>=-eq-some (put_enum x cap out gp_rpc_rpc_mismatch) _ h in
      Emit-bind _ (Emit-enum lib cap gp_rpc_rpc_mismatch out (omega arith) e)
        (Emit-bind _ (encode_mismatch_info-Emit m mid small h') (Emit-pure (rpc_mismatch m) _))
  encode_rejected_reply-Emit (auth_error s) out small h =
      let (mid, e, h') = >>=-eq-some (put_enum x cap out gp_rpc_auth_error) _ h in
      Emit-bind _ (Emit-enum lib cap gp_rpc_auth_error out (omega arith) e)
        (Emit-bind _ (Emit-enum lib cap s mid small h') (Emit-pure (auth_error s) _))
  encode_rejected_reply-Emit (bad_reject s) out small h = cc

  encode_reply_header-Emit :
      (r : ReplyHeader) (out : List ℕ) {out' : List ℕ}
      → IsReplyHeader r
      → encode_reply_header x cap r out ≡ some out'
      → Emit (decode_reply_header x) r out out'
  unfolding encode_reply_header decode_reply_header
  encode_reply_header-Emit (accepted a) out small h =
      let (mid, e, h') = >>=-eq-some (put_enum x cap out gp_rpc_msg_accepted) _ h in
      Emit-bind _ (Emit-enum lib cap gp_rpc_msg_accepted out (omega arith) e)
        (Emit-bind _ (encode_accepted_reply-Emit a mid small h') (Emit-pure (accepted a) _))
  encode_reply_header-Emit (rejected r) out small h =
      let (mid, e, h') = >>=-eq-some (put_enum x cap out gp_rpc_msg_denied) _ h in
      Emit-bind _ (Emit-enum lib cap gp_rpc_msg_denied out (omega arith) e)
        (Emit-bind _ (encode_rejected_reply-Emit r mid small h') (Emit-pure (rejected r) _))
  encode_reply_header-Emit (bad_reply s) out small h = cc

  encode_call_header-Emit :
      (c : CallHeader) (out : List ℕ) {out' : List ℕ}
      → IsCallHeader c
      → encode_call_header x cap c out ≡ some out'
      → Emit (decode_call_header x) c out out'
  unfolding encode_call_header decode_call_header
  encode_call_header-Emit c out small h =
      let (m₁, e₁, h₁) = >>=-eq-some (put_u_int x cap out c.rpcvers) _ h in
      let (m₂, e₂, h₂) = >>=-eq-some (put_u_int x cap m₁ c.prog) _ h₁ in
      let (m₃, e₃, h₃) = >>=-eq-some (put_u_int x cap m₂ c.vers) _ h₂ in
      let (m₄, e₄, h₄) = >>=-eq-some (put_u_int x cap m₃ c.proc) _ h₃ in
      let (m₅, e₅, h₅) = >>=-eq-some (encode_opaque_auth x cap c.cred m₄) _ h₄ in
      Emit-bind _ (Emit-u_int lib cap c.rpcvers out small.rpcvers_word e₁) (
        Emit-bind _ (Emit-u_int lib cap c.prog m₁ small.prog_word e₂) (
          Emit-bind _ (Emit-u_int lib cap c.vers m₂ small.vers_word e₃) (
            Emit-bind _ (Emit-u_int lib cap c.proc m₃ small.proc_word e₄) (
              Emit-bind _ (encode_opaque_auth-Emit c.cred m₄ small.cred_word e₅) (
                Emit-bind _ (encode_opaque_auth-Emit c.verf m₅ small.verf_word h₅)
                  (Emit-pure c _))))))

  encode_msg_union-Emit :
      (u : MsgUnion) (out : List ℕ) {out' : List ℕ}
      → IsMsgUnion u
      → encode_msg_union x cap u out ≡ some out'
      → Emit (decode_msg_union x) u out out'
  unfolding encode_msg_union decode_msg_union
  encode_msg_union-Emit (chdr c) out small h =
      let (mid, e, h') = >>=-eq-some (put_enum x cap out gp_rpc_call) _ h in
      Emit-bind _ (Emit-enum lib cap gp_rpc_call out (omega arith) e)
        (Emit-bind _ (encode_call_header-Emit c mid small h') (Emit-pure (chdr c) _))
  encode_msg_union-Emit (rhdr r) out small h =
      let (mid, e, h') = >>=-eq-some (put_enum x cap out gp_rpc_reply) _ h in
      Emit-bind _ (Emit-enum lib cap gp_rpc_reply out (omega arith) e)
        (Emit-bind _ (encode_reply_header-Emit r mid small h') (Emit-pure (rhdr r) _))
  encode_msg_union-Emit (bad_msg t) out small h = cc

  pub encode_rpc_msg-Emit :
      (m : RpcMsg) (out : List ℕ) {out' : List ℕ}
      → IsRpcMsg m
      → encode_rpc_msg x cap m out ≡ some out'
      → Emit (decode_rpc_msg x) m out out'
  unfolding encode_rpc_msg decode_rpc_msg
  encode_rpc_msg-Emit m out small h =
      let (mid, e, h') = >>=-eq-some (put_u_int x cap out m.xid) _ h in
      Emit-bind _ (Emit-u_int lib cap m.xid out small.0 e)
        (Emit-bind _ (encode_msg_union-Emit m.header mid small.1 h') (Emit-pure m _))

  -- A message with words of 32 bits that the filter writes behind `out` is appended to `out`, and
  -- decoding what was appended, with any bytes behind it, gives the message and those bytes.
  pub decode_rpc_msg-encode_rpc_msg :
      (m : RpcMsg) (out : List ℕ) {out' : List ℕ}
      → IsRpcMsg m
      → encode_rpc_msg x cap m out ≡ some out'
      → (chunk : List ℕ) × (out' ≡ out ++ chunk)
        × ((rest : List ℕ) → decode_rpc_msg x (chunk ++ rest) ≡ some (m, rest))
  decode_rpc_msg-encode_rpc_msg m out small h =
      let e = encode_rpc_msg-Emit m out small h in (e.chunk, e.added, e.reads)
