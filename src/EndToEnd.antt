-- ===== src/EndToEnd.antt =====
-- A call from gpm_make_call (src/client/gpm_common.c) through gp_rpc_process_call
-- (src/gp_rpc_process.c) and back: the client gets what the handler returned.
use gssproxy.Prelude.{
  ℕ, ◌≤◌, ◌<◌, ◌^◌, ◌≡◌, ◌⊎◌, inl, inr, refl, ap, ◌∙◌, List, [], ◌++◌, append-nil, Option, some,
  none, Ret, success, failure, einval, Result, ok, err, Bool, true, length, arith, eq→==,
}
use gssproxy.Xdr.{Xdr, IsXdr}
use gssproxy.Rpc.Message.{
  gp_rpc_success, gp_rpc_system_err, gp_rpc_rpc_mismatch, rhdr, ReplyHeader, accepted, accept,
  results, no_data,
}
use gssproxy.Rpc.Encode.{encode_rpc_msg}
use gssproxy.Rpc.Decode.{decode_rpc_msg}
use gssproxy.Rpc.Emit.{>>=-eq-some}
use gssproxy.Rpc.Roundtrip.{decode_rpc_msg-encode_rpc_msg}
use gssproxy.Rpc.Procs.{Proc, number, indicate_mechs, Procs, IsProcs, max_rpc_size}
use gssproxy.Server.Rows.{handler, number_range}
use gssproxy.Server.Call.{CallState}
use gssproxy.Server.Reply.{reply_header, reply_msg, or_system_err}
use gssproxy.Server.Process.{return_buffer, after_exec, reply_call, process_call}
use gssproxy.Server.Sent.{Sent, encode_reply_header-Sent}
use gssproxy.Server.Steps.{received, process_call_handled, reply_call_failure, reply_call_success}
use gssproxy.Server.Refusals.{check_msg-IsCallOf}
use gssproxy.Client.Call.{
  FnSet, fn_set, Transport, call_msg, is_success, encode_request, decode_answer, decode_reply,
  finish_call, send_request, numbered_call, locked_call, make_call,
}

module _ {Ctx Arg Res : Type 0} (ps : Procs Ctx Arg Res) where
  abbrev pub client_row : Proc → FnSet Arg Res
  client_row p = record { arg_fn = ps.encode_arg p; res_fn = ps.decode_res p }

  -- The client's table and the server's agree on the numbers.
  pub client-fn_set-number : (p : Proc) → fn_set ps (number p) ≡ some (client_row p)
  unfolding fn_set number
  client-fn_set-number indicate_mechs = refl
  client-fn_set-number p = refl

  -- What the client is to get: the handler's result, or EINVAL if the handler failed, or if its
  -- result does not fit behind a reply header in a buffer of MAX_RPC_SIZE.
  abbrev pub Answer : Proc → Ret → Res → Result Res → Type 0
  Answer p success res r =
      (r ≡ ok res)
      ⊎ ((r ≡ err einval)
          × ((head : List ℕ) × (length head ≤ 32) × (ps.encode_res p max_rpc_size res head ≡ none)))
  Answer p (failure e) res r = r ≡ err einval

  module _ {x : Xdr} (lib : IsXdr x) (procs : IsProcs ps) where
    -- The server reads the request that the client wrote.
    request_reads :
        (p : Proc) (xid : ℕ) (arg : Arg) {req : List ℕ}
        → xid < 2 ^ 32
        → encode_request x (client_row p) xid (number p) arg ≡ some req
        → (rest : List ℕ) × (decode_rpc_msg x req ≡ some (call_msg xid (number p), rest))
          × (ps.decode_arg p rest ≡ some (arg, []))
    unfolding encode_request call_msg
    request_reads p xid arg {req} word h =
        let (head, e, e') =
          >>=-eq-some (encode_rpc_msg x max_rpc_size (call_msg xid (number p)) []) _ h in
        let (c₁, added₁, reads₁) =
          decode_rpc_msg-encode_rpc_msg lib max_rpc_size (call_msg xid (number p)) []
            (omega (arith, word, number_range p)) e in
        let (c₂, added₂, reads₂) = procs.arg_inverse p max_rpc_size arg head req e' in
        (
          c₂,
          ap (decode_rpc_msg x) (added₂ ∙ ap (λ o. o ++ c₂) added₁) ∙ reads₁ c₂,
          rw append-nil at (reads₂ []),
        )

    decode_reply_reads :
        (p : Proc) (xid : ℕ) (inp rest : List ℕ) (h : ReplyHeader)
        → decode_rpc_msg x inp ≡ some (reply_msg xid h, rest)
        → decode_reply x (client_row p) xid inp
          ≡ decode_answer x (client_row p) (is_success (rhdr h)) rest
    unfolding decode_reply
    decode_reply_reads p xid inp rest h e = rw (e, decode_reply, eq→== xid xid refl)

    -- A reply header alone that reports SYSTEM_ERR.
    decode_reply_error :
        (p : Proc) (xid : ℕ) (s : Sent x xid (failure einval) gp_rpc_system_err gp_rpc_rpc_mismatch)
        → decode_reply x (client_row p) xid s.bytes ≡ err einval
    unfolding reply_header is_success decode_answer
    decode_reply_error p xid s =
        let same : s.header ≡ accepted (accept (no_data gp_rpc_system_err)) =
          (let c = s.chosen in cc) in
        decode_reply_reads p xid s.bytes [] s.header (rw append-nil at (s.reads []))
        ∙ ap (λ h. decode_answer x (client_row p) (is_success (rhdr h)) []) same

    -- A header that reports success, and the result behind it.
    decode_reply_result :
        (p : Proc) (xid : ℕ) (res : Res) (s : Sent x xid success gp_rpc_success gp_rpc_rpc_mismatch)
        (out : List ℕ)
        → ps.encode_res p max_rpc_size res s.bytes ≡ some out
        → decode_reply x (client_row p) xid out ≡ ok res
    unfolding reply_header is_success decode_answer
    decode_reply_result p xid res s out e =
        let same : s.header ≡ accepted (accept results) = (let c = s.chosen in cc) in
        let (chunk, added, reads) = procs.res_inverse p max_rpc_size res s.bytes out e in
        decode_reply_reads p xid out chunk s.header (ap (decode_rpc_msg x) added ∙ s.reads chunk)
        ∙ ap (λ h. decode_answer x (client_row p) (is_success (rhdr h)) chunk) same
        ∙ rw (rw append-nil at (reads []), decode_answer)

    -- The state in which the handler of a valid call runs.
    abbrev ready : ℕ → Proc → CallState
    ready xid p = record {
      xid = xid;
      proc = number p;
      acc = gp_rpc_success;
      rej = gp_rpc_rpc_mismatch;
    }

    record Served (malloc : ℕ → Bool) (p : Proc) (xid : ℕ) (r : Ctx × Ret × Res) : Type 0 where
      reply : List ℕ
      sends :
          reply_call ps x malloc (after_exec ps (ready xid p) (some r))
          ≡ some (r.0, return_buffer malloc (ok reply))
      answered : Answer p r.1 r.2 (decode_reply x (client_row p) xid reply)

    error-Sent :
        (xid : ℕ) → xid < 2 ^ 32 → Sent x xid (failure einval) gp_rpc_system_err gp_rpc_rpc_mismatch
    error-Sent xid word =
        encode_reply_header-Sent lib xid (failure einval) gp_rpc_system_err gp_rpc_rpc_mismatch word
          (omega arith) (omega arith) (λ h. cc)

    result-Served :
        (malloc : ℕ → Bool) (p : Proc) (xid : ℕ) (ctx : Ctx) (res : Res) (out : Option (List ℕ))
        (s : Sent x xid success gp_rpc_success gp_rpc_rpc_mismatch)
        → xid < 2 ^ 32
        → ps.encode_res p max_rpc_size res s.bytes ≡ out
        → Served malloc p xid (ctx, success, res)
    unfolding after_exec or_system_err
    result-Served malloc p xid ctx res none s word e =
        let t = error-Sent xid word in
        record {
          reply = t.bytes;
          sends =
              reply_call_success ps x malloc ctx (ready xid p) res p s.bytes refl s.sent
              ∙ ap (λ r. some (ctx, return_buffer malloc (or_system_err x xid r))) e
              ∙ ap (λ r. some (ctx, return_buffer malloc r)) t.sent;
          answered = inr (decode_reply_error p xid t, (s.bytes, s.short, e));
        }
    result-Served malloc p xid ctx res (some out) s word e = record {
      reply = out;
      sends =
          reply_call_success ps x malloc ctx (ready xid p) res p s.bytes refl s.sent
          ∙ ap (λ r. some (ctx, return_buffer malloc (or_system_err x xid r))) e;
      answered = inl (decode_reply_result p xid res s out e);
    }

    handler-Served :
        (malloc : ℕ → Bool) (p : Proc) (xid : ℕ) (r : Ctx × Ret × Res)
        → xid < 2 ^ 32
        → Served malloc p xid r
    unfolding after_exec
    handler-Served malloc p xid (ctx, success, res) word =
        let s =
          encode_reply_header-Sent lib xid success gp_rpc_success gp_rpc_rpc_mismatch word
            (omega arith) (omega arith) (λ h. cc) in
        result-Served malloc p xid ctx res (ps.encode_res p max_rpc_size res s.bytes) s word refl
    handler-Served malloc p xid (ctx, failure e, res) word =
        let t = error-Sent xid word in
        record {
          reply = t.bytes;
          sends =
              reply_call_failure ps x malloc ctx einval
                (record (ready xid p) { acc = gp_rpc_system_err }) res xid refl
              ∙ ap (λ r. some (ctx, return_buffer malloc r)) t.sent;
          answered = decode_reply_error p xid t;
        }

    -- The server's side of a call: the request that the client wrote runs the handler of its
    -- procedure, once, on its arguments, and what the client reads in the reply is the answer. The
    -- server's allocation of the reply succeeds.
    pub process_call-Answer :
        (malloc : ℕ → Bool) (p : Proc) (xid : ℕ) (ctx : Ctx) (arg : Arg) (req : List ℕ)
        → ((n : ℕ) → malloc n ≡ true)
        → xid < 2 ^ 32
        → encode_request x (client_row p) xid (number p) arg ≡ some req
        → (reply : List ℕ) × (process_call ps x malloc ctx req
            ≡ some ((handler ps p ctx arg).0, ok reply))
          × Answer p
              (handler ps p ctx arg).1
              (handler ps p ctx arg).2
              (decode_reply x (client_row p) xid reply)
    unfolding call_msg return_buffer
    process_call-Answer malloc p xid ctx arg req full word sent =
        let (rest, decoded, args) = request_reads p xid arg word sent in
        let s = handler-Served malloc p xid (handler ps p ctx arg) word in
        (
          s.reply,
          process_call_handled ps x malloc ctx req (call_msg xid (number p)) rest [] p (ready xid p)
                arg decoded
                (check_msg-IsCallOf p _ (received (call_msg xid (number p))) (record {
                  rpc = refl;
                  program = refl;
                  version = refl;
                  named = refl;
                  no_auth = refl;
                }))
                refl args
              ∙ s.sends
              ∙ rw (full (length s.reply)),
          s.answered,
        )

    module _ {W : Type 0} (t : Transport W) (client_malloc server_malloc : ℕ → Bool) where
      -- A call over a connection that can be grabbed, and that carries a request to the server and
      -- its reply back, gives the client the answer of the handler, and releases the connection. The
      -- request fits in the client's buffer, and allocations succeed.
      pub make_call-Answer :
          (p : Proc) (xid : ℕ) (ctx : Ctx) (arg : Arg) (req : List ℕ) (w w₁ w₂ w₃ : W)
          → client_malloc max_rpc_size ≡ true
          → ((n : ℕ) → server_malloc n ≡ true)
          → xid < 2 ^ 32
          → t.grab w ≡ (w₁, success)
          → t.next_xid w₁ ≡ (xid, w₂)
          → encode_request x (client_row p) xid (number p) arg ≡ some req
          → ((ctx' : Ctx) (reply : List ℕ)
              → process_call ps x server_malloc ctx req ≡ some (ctx', ok reply)
              → t.send_recv w₂ req ≡ (w₃, ok reply))
          → (r : Result Res) × (make_call ps x t client_malloc w (number p) arg
              ≡ some (t.release w₃, r))
            × Answer p (handler ps p ctx arg).1 (handler ps p ctx arg).2 r
      unfolding make_call
      make_call-Answer p xid ctx arg req w w₁ w₂ w₃ room full word grabbed numbered sent carries =
          let (reply, processed, answer) =
            process_call-Answer server_malloc p xid ctx arg req full word sent in
          (
            decode_reply x (client_row p) xid reply,
            rw (client-fn_set-number p, room)
                (ap some (
                  ap (locked_call x t (client_row p) (number p) arg) grabbed
                  ∙ ap (numbered_call x t (client_row p) (number p) arg) numbered
                  ∙ ap (send_request x t (client_row p) xid w₂) sent
                  ∙ ap (finish_call x t (client_row p) xid) (carries _ reply processed))),
            answer,
          )
