-- ===== src/Server/Sent.antt =====
-- gp_rpc_encode_reply_header of src/gp_rpc_process.c: what is sent, and that it always is.
use gssproxy.Prelude.{
  ℕ, ◌≤◌, ◌<◌, ◌^◌, ◌≡◌, ◌≢◌, refl, List, [], ◌++◌, some, Ret, success, failure, eacces, efault,
  einval, ok, length, ◌==◌, Bool-cases, inl, inr, arith,
}
use gssproxy.Xdr.{Xdr, IsXdr}
use gssproxy.Rpc.Message.{
  gp_rpc_system_err, gp_rpc_rpc_mismatch, gp_rpc_auth_failed, ReplyUnion, results, no_data,
  rpc_mismatch, auth_error, ReplyHeader, accepted, rejected, accept, IsReplyUnion, IsReplyHeader,
}
use gssproxy.Rpc.Encode.{encode_rpc_msg}
use gssproxy.Rpc.Decode.{decode_rpc_msg}
use gssproxy.Rpc.Roundtrip.{decode_rpc_msg-encode_rpc_msg}
use gssproxy.Rpc.Room.{
  Room, encode_accepted-Room, encode_rejected-Room, encode_rejected_reply-Room_mismatch,
  encode_rejected_reply-Room_auth,
}
use gssproxy.Rpc.Procs.{max_rpc_size}
use gssproxy.Server.Reply.{
  reply_union, rejected_reply, reply_header, reply_msg, put_reply_header, encode_reply_header,
}

-- The reply that is sent: at most 32 bytes, which the client's filter reads as this header.
pub record Sent (x : Xdr) (xid : ℕ) (ret : Ret) (acc rej : ℕ) : Type 0 where
  pub header : ReplyHeader
  pub chosen : reply_header ret acc rej ≡ some header
  pub bytes : List ℕ
  pub sent : encode_reply_header x xid ret acc rej ≡ ok bytes
  pub short : length bytes ≤ 32
  pub reads : (rest : List ℕ) → decode_rpc_msg x (bytes ++ rest) ≡ some (reply_msg xid header, rest)

reply_union_valid : (acc : ℕ) → acc ≤ 5 → IsReplyUnion (reply_union acc)
unfolding reply_union
reply_union_valid acc h = ground arith

module _ {x : Xdr} (lib : IsXdr x) where
  header-Sent :
      (xid : ℕ) (ret : Ret) (acc rej : ℕ) (h : ReplyHeader)
      → xid < 2 ^ 32
      → reply_header ret acc rej ≡ some h
      → IsReplyHeader h
      → Room max_rpc_size (encode_rpc_msg x max_rpc_size (reply_msg xid h)) 32
      → Sent x xid ret acc rej
  unfolding encode_reply_header put_reply_header
  header-Sent xid ret acc rej h word chosen valid room =
      let (out, e, m) = room [] (omega arith) in
      let (chunk, added, reads) =
        decode_rpc_msg-encode_rpc_msg lib max_rpc_size (reply_msg xid h) [] (word, valid) e in
      record {
        header = h;
        chosen = chosen;
        bytes = out;
        sent = rw (chosen, put_reply_header, e);
        short = m;
        reads = rw added reads;
      }

  accepted-Sent :
      (xid : ℕ) (ret : Ret) (acc rej : ℕ) (u : ReplyUnion)
      → xid < 2 ^ 32
      → reply_header ret acc rej ≡ some (accepted (accept u))
      → IsReplyUnion u
      → Sent x xid ret acc rej
  accepted-Sent xid ret acc rej u word chosen valid =
      header-Sent xid ret acc rej (accepted (accept u)) word chosen (omega arith, valid)
        (encode_accepted-Room lib max_rpc_size xid u)

  rejected-Sent : (xid acc rej : ℕ) → xid < 2 ^ 32 → rej ≤ 1 → Sent x xid (failure eacces) acc rej
  unfolding reply_header rejected_reply
  rejected-Sent xid acc rej word r = elim (Bool-cases (rej == gp_rpc_rpc_mismatch)) [
    | inl e ↦
        header-Sent xid (failure eacces) acc rej
          (rejected (rpc_mismatch (record { low = 2; high = 2 }))) word (rw e) (omega arith)
          (encode_rejected-Room lib max_rpc_size xid 12 _ (omega arith)
            (encode_rejected_reply-Room_mismatch lib max_rpc_size _))
    | inr e ↦
        header-Sent xid (failure eacces) acc rej (rejected (auth_error gp_rpc_auth_failed)) word
          (ground arith) (omega arith)
          (encode_rejected-Room lib max_rpc_size xid 8 _ (omega arith)
            (encode_rejected_reply-Room_auth lib max_rpc_size _))
  ]

  -- Whatever the error but EFAULT, and whatever the status, a reply is sent.
  pub encode_reply_header-Sent :
      (xid : ℕ) (ret : Ret) (acc rej : ℕ)
      → xid < 2 ^ 32
      → acc ≤ 5
      → rej ≤ 1
      → ret ≢ failure efault
      → Sent x xid ret acc rej
  unfolding reply_header
  encode_reply_header-Sent xid success acc rej word a r h =
      accepted-Sent xid success acc rej results word refl tt
  encode_reply_header-Sent xid (failure efault) acc rej word a r h = absurd (h refl)
  encode_reply_header-Sent xid (failure eacces) acc rej word a r h =
      rejected-Sent xid acc rej word r
  encode_reply_header-Sent xid (failure einval) acc rej word a r h =
      accepted-Sent xid (failure einval) acc rej (reply_union acc) word refl
        (reply_union_valid acc a)
  encode_reply_header-Sent xid (failure e) acc rej word a r h =
      accepted-Sent xid (failure e) acc rej (no_data gp_rpc_system_err) word refl (omega arith)
