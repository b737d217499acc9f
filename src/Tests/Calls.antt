-- ===== src/Tests/Calls.antt =====
-- A call of GSSX_WRAP through the modelled client and server, and refused calls.
use gssproxy.Prelude.{
  ℕ, ◌≡◌, refl, List, [], ◌∷◌, Option, none, some, success, Result, ok, err, einval, Bool, true,
  length, arith, ◌≤◌, ◌⊎◌, ◌≢◌,
}
use gssproxy.Rpc.Message.{RpcMsg, CallHeader, auth_none, chdr, rejected, rpc_mismatch}
use gssproxy.Rpc.Encode.{
  encode_opaque_auth, encode_reply_union, encode_accepted_reply, encode_reply_header,
  encode_call_header, encode_msg_union, encode_rpc_msg,
}
use gssproxy.Rpc.Decode.{
  decode_opaque_auth, decode_reply_union, decode_accepted_reply, decode_reply_header,
  decode_call_header, decode_msg_union, decode_rpc_msg,
}
use gssproxy.Rpc.Procs.{wrap, number, max_rpc_size}
use gssproxy.Server.Rows.{handler}
use gssproxy.Server.Refusals.{rpc_version, process_call_refuses}
use gssproxy.Server.Rules.{IsRefusal, IsServed, check_msg-decides}
use gssproxy.Server.Replied.{Replied}
use gssproxy.Server.Defined.{process_call_replies, process_call_defined}
use gssproxy.Server.Process.{initial, process_call, return_buffer}
use gssproxy.Server.Reply.{reply_msg}
use gssproxy.Server.Call.{check_msg}
use gssproxy.Client.Call.{encode_request, decode_reply, Transport, make_call}
use gssproxy.EndToEnd.{client_row, process_call-Answer, make_call-Answer}
use gssproxy.Tests.Rfc.{rfc4506, rfc4506-IsXdr}
use gssproxy.Tests.Echo.{echo, echo-IsProcs}

-- Allocations succeed.
abbrev pub roomy : ℕ → Bool
roomy n = true

abbrev pub wrap_request : List ℕ
wrap_request =
    0 ∷ 0 ∷ 0 ∷ 7 ∷ 0 ∷ 0 ∷ 0 ∷ 0 ∷ 0 ∷ 0 ∷ 0 ∷ 2 ∷ 0 ∷ 6 ∷ 26 ∷ 240 ∷ 0 ∷ 0 ∷ 0 ∷ 1 ∷ 0 ∷ 0 ∷ 0
    ∷ 13 ∷ 0 ∷ 0 ∷ 0 ∷ 0 ∷ 0 ∷ 0 ∷ 0 ∷ 0 ∷ 0 ∷ 0 ∷ 0 ∷ 0 ∷ 0 ∷ 0 ∷ 0 ∷ 0 ∷ 0 ∷ 0 ∷ 0 ∷ 2 ∷ 5 ∷ 6 ∷ 0
    ∷ 0 ∷ []

wrap_request_lem :
    encode_request rfc4506 (client_row echo wrap) 7 13 (5 ∷ 6 ∷ []) ≡ some wrap_request
unfolding encode_request encode_rpc_msg encode_msg_union encode_call_header encode_opaque_auth
    rfc4506
wrap_request_lem = refl

-- The handler of GSSX_WRAP runs on the arguments.
process_call-Answer_example :
    (reply : List ℕ) × (process_call echo rfc4506 roomy 41 wrap_request ≡ some (42, ok reply))
    × ((decode_reply rfc4506 (client_row echo wrap) 7 reply ≡ ok (5 ∷ 6 ∷ []))
        ⊎ ((decode_reply rfc4506 (client_row echo wrap) 7 reply ≡ err einval)
            × ((head : List ℕ) × (length head ≤ 32)
                × (echo.encode_res wrap max_rpc_size (5 ∷ 6 ∷ []) head ≡ none))))
unfolding number handler
process_call-Answer_example =
    process_call-Answer echo rfc4506-IsXdr echo-IsProcs roomy wrap 7 41 (5 ∷ 6 ∷ []) wrap_request
      (λ n. refl) (omega arith) wrap_request_lem

-- A connection that takes each request to the server, where 41 calls were made before.
result_of : Option (ℕ × Result (List ℕ)) → Result (List ℕ)
result_of none = err einval
result_of (some (ctx, r)) = r

abbrev loopback : Transport (Unit {0})
loopback = record {
  grab = λ w. (w, success);
  release = λ w. w;
  next_xid = λ w. (7, w);
  send_recv = λ w req. (w, result_of (process_call echo rfc4506 roomy 41 req));
}

loopback_carries :
    (req : List ℕ) (ctx : ℕ) (reply : List ℕ)
    → process_call echo rfc4506 roomy 41 req ≡ some (ctx, ok reply)
    → loopback.send_recv tt req ≡ (tt, ok reply)
unfolding result_of
loopback_carries req ctx reply h = rw (h, result_of)

make_call-Answer_example :
    (r : Result (List ℕ)) × (make_call echo rfc4506 loopback roomy tt 13 (5 ∷ 6 ∷ [])
      ≡ some (tt, r))
    × ((r ≡ ok (5 ∷ 6 ∷ []))
        ⊎ ((r ≡ err einval)
            × ((head : List ℕ) × (length head ≤ 32)
                × (echo.encode_res wrap max_rpc_size (5 ∷ 6 ∷ []) head ≡ none))))
unfolding number handler
make_call-Answer_example =
    make_call-Answer echo rfc4506-IsXdr echo-IsProcs loopback roomy roomy wrap 7 41 (5 ∷ 6 ∷ [])
      wrap_request tt tt tt tt refl (λ n. refl) (omega arith) refl refl wrap_request_lem
      (loopback_carries wrap_request)

-- The same call, evaluated.
make_call_runs :
    make_call echo rfc4506 loopback roomy tt 13 (5 ∷ 6 ∷ []) ≡ some (tt, ok (5 ∷ 6 ∷ []))
unfolding make_call result_of process_call rfc4506 encode_rpc_msg encode_msg_union
    encode_call_header encode_reply_header encode_accepted_reply encode_reply_union
    encode_opaque_auth decode_rpc_msg decode_msg_union decode_call_header decode_reply_header
    decode_accepted_reply decode_reply_union decode_opaque_auth handler check_msg
make_call_runs = refl

-- A call with the version 1 of ONC RPC.
abbrev old_call : CallHeader
old_call = record {
  rpcvers = 1;
  prog = 400112;
  vers = 1;
  proc = 13;
  cred = auth_none;
  verf = auth_none;
}

abbrev old_msg : RpcMsg
old_msg = record { xid = 7; header = chdr old_call }

abbrev old_request : List ℕ
old_request =
    0 ∷ 0 ∷ 0 ∷ 7 ∷ 0 ∷ 0 ∷ 0 ∷ 0 ∷ 0 ∷ 0 ∷ 0 ∷ 1 ∷ 0 ∷ 6 ∷ 26 ∷ 240 ∷ 0 ∷ 0 ∷ 0 ∷ 1 ∷ 0 ∷ 0 ∷ 0
    ∷ 13 ∷ 0 ∷ 0 ∷ 0 ∷ 0 ∷ 0 ∷ 0 ∷ 0 ∷ 0 ∷ 0 ∷ 0 ∷ 0 ∷ 0 ∷ 0 ∷ 0 ∷ 0 ∷ 0 ∷ []

old_request-reads : decode_rpc_msg rfc4506 old_request ≡ some (old_msg, [])
unfolding decode_rpc_msg decode_msg_union decode_call_header decode_opaque_auth rfc4506
old_request-reads = refl

old_request-writes : encode_rpc_msg rfc4506 100 old_msg [] ≡ some old_request
unfolding encode_rpc_msg encode_msg_union encode_call_header encode_opaque_auth rfc4506
old_request-writes = refl

process_call_replies_example :
    Replied rfc4506 roomy old_msg (process_call echo rfc4506 roomy 41 old_request)
process_call_replies_example =
    process_call_replies echo rfc4506-IsXdr roomy echo-IsProcs 41 old_request old_msg []
      old_request-reads

process_call_defined_example : process_call echo rfc4506 roomy 41 (1 ∷ 2 ∷ []) ≢ none
process_call_defined_example =
    process_call_defined echo rfc4506-IsXdr roomy echo-IsProcs 41 (1 ∷ 2 ∷ [])

process_call_refuses_example :
    (bytes : List ℕ) × (process_call echo rfc4506 roomy 41 old_request
      ≡ some (41, return_buffer roomy (ok bytes)))
    × (decode_rpc_msg rfc4506 bytes
        ≡ some (reply_msg 7 (rejected (rpc_mismatch (record { low = 2; high = 2 }))), []))
process_call_refuses_example =
    process_call_refuses echo rfc4506-IsXdr roomy 41 old_request old_msg [] _ old_request-reads
      (rpc_version old_call (omega arith))

check_msg-decides_example : IsRefusal (chdr old_call) initial ⊎ IsServed (chdr old_call) initial
check_msg-decides_example = check_msg-decides (chdr old_call) initial
