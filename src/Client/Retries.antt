-- ===== src/Client/Retries.antt =====
-- What gpm_send_recv_loop of src/client/gpm_common.c makes of its attempts.
use gssproxy.Prelude.{
  ℕ, zero, suc, ◌+◌, ◌≤◌, ◌<◌, ◌≡◌, refl, ◌∙◌, ◌⊎◌, inl, inr, List, [], ◌++◌, length, arith, Ret,
  success, failure, etimedout, ok, err,
}
use gssproxy.Socket.Frame.{header}
use gssproxy.Client.Send.{SendResult, send_blocked, send_failed, send_done, send_buffer}
use gssproxy.Client.Recv.{RecvResult, recv_blocked, recv_failed, recv_done, recv_buffer}
use gssproxy.Client.Sends.{send_buffer_whole}
use gssproxy.Client.Loop.{
  Attempt, LoopResult, loop_done, reopened, after_recv, after_send, retry_loop, send_recv_loop,
}

module _ (attempts : ℕ → Attempt) (message : List ℕ) where
  -- A turn sends the message, and receives.
  unfoldable pub Exchanges : ℕ → List ℕ → RecvResult → Type 0
  Exchanges i out r =
      (o : List ℕ) × (send_buffer (attempts i).sends message out ≡ send_done o)
      × (recv_buffer (attempts i).malloc_ok (attempts i).reads ≡ r)

  -- A turn times out, in its send or its receive, and the socket is reopened.
  unfoldable pub TimesOut : ℕ → List ℕ → Type 0
  TimesOut i out =
      ((send_buffer (attempts i).sends message out ≡ send_failed etimedout)
        ⊎ Exchanges i out (recv_failed etimedout))
      × ((attempts i).reopen ≡ success)

  -- From turn i on, so many turns time out, each but the first on a new connection, and the last
  -- number and connection are those of the turn after them.
  pub data TimeOuts : ℕ → List ℕ → ℕ → List ℕ → Type 0 where
    no_more : {i : ℕ} {out : List ℕ} → TimeOuts i out i out
    one_more :
        {i j : ℕ} {out o : List ℕ} → TimesOut i out → TimeOuts (suc i) [] j o → TimeOuts i out j o

  after_send-TimesOut :
      (later : List ℕ → LoopResult) (i : ℕ) (out : List ℕ)
      → TimesOut i out
      → after_send later (attempts i) (send_buffer (attempts i).sends message out) ≡ later []
  unfolding TimesOut Exchanges after_send after_recv reopened
  after_send-TimesOut later i out (inl e, again) = rw (e, again) refl
  after_send-TimesOut later i out (inr (o, e, r), again) = rw (e, r, again) refl

  TimeOuts-le : {i j : ℕ} {out o : List ℕ} → TimeOuts i out j o → i ≤ j
  TimeOuts-le no_more = omega arith
  TimeOuts-le (one_more t ts) = omega (arith, TimeOuts-le ts)

  retry_loop-TimeOuts :
      (left i j : ℕ) (out o : List ℕ)
      → TimeOuts i out j o
      → j ≤ i + left
      → (rest : ℕ) × (i + left ≡ j + rest)
        × (retry_loop left i attempts message out ≡ retry_loop rest j attempts message o)
  unfolding retry_loop
  retry_loop-TimeOuts left i j out o no_more enough = (left, refl, refl)
  retry_loop-TimeOuts zero i j out o (one_more t ts) enough =
      absurd (omega (arith, enough, TimeOuts-le ts))
  retry_loop-TimeOuts (suc left) i j out o (one_more t ts) enough =
      let (rest, count, same) =
        retry_loop-TimeOuts left (suc i) j [] o ts (omega (arith, enough)) in
      (
        rest,
        omega (arith, count),
        after_send-TimesOut (retry_loop left (suc i) attempts message) i out t ∙ same,
      )

  reopened-ok :
      (later : List ℕ → LoopResult) (r : Ret) (reply : List ℕ)
      → reopened later r ≡ loop_done (ok reply)
      → (r ≡ success) × (later [] ≡ loop_done (ok reply))
  unfolding reopened
  reopened-ok later success reply e = (refl, e)
  reopened-ok later (failure n) reply e = ground arith

  -- A turn in which the loop does not end without a reply: it ends with the reply of an exchange, or
  -- it times out and the rest ends with the reply.
  TurnOk : (List ℕ → LoopResult) → ℕ → List ℕ → List ℕ → Type 0
  TurnOk later i out reply =
      Exchanges i out (recv_done reply) ⊎ (TimesOut i out × (later [] ≡ loop_done (ok reply)))

  after_recv-ok :
      (later : List ℕ → LoopResult) (i : ℕ) (out o reply : List ℕ) (r : RecvResult)
      → send_buffer (attempts i).sends message out ≡ send_done o
      → recv_buffer (attempts i).malloc_ok (attempts i).reads ≡ r
      → after_recv later (attempts i).reopen r ≡ loop_done (ok reply)
      → TurnOk later i out reply
  unfolding after_recv TurnOk Exchanges TimesOut
  after_recv-ok later i out o reply (recv_done buffer) e e' h = inl (o, e, ground arith)
  after_recv-ok later i out o reply (recv_failed etimedout) e e' h =
      let (again, rest) = reopened-ok later (attempts i).reopen reply h in
      inr ((inr (o, e, e'), again), rest)
  after_recv-ok later i out o reply (recv_failed n) e e' h = ground arith
  after_recv-ok later i out o reply recv_blocked e e' h = ground arith

  after_send-ok :
      (later : List ℕ → LoopResult) (i : ℕ) (out reply : List ℕ) (r : SendResult)
      → send_buffer (attempts i).sends message out ≡ r
      → after_send later (attempts i) r ≡ loop_done (ok reply)
      → TurnOk later i out reply
  unfolding after_send TurnOk TimesOut
  after_send-ok later i out reply (send_done o) e h = after_recv-ok later i out o reply _ e refl h
  after_send-ok later i out reply (send_failed etimedout) e h =
      let (again, rest) = reopened-ok later (attempts i).reopen reply h in
      inr ((inl e, again), rest)
  after_send-ok later i out reply (send_failed n) e h = ground arith
  after_send-ok later i out reply send_blocked e h = ground arith

  retry_loop-ok :
      (left i : ℕ) (out reply : List ℕ)
      → retry_loop left i attempts message out ≡ loop_done (ok reply)
      → (j : ℕ) × (o : List ℕ) × (j < i + left)
        × TimeOuts i out j o
        × Exchanges j o (recv_done reply)
  unfolding retry_loop TurnOk
  retry_loop-ok zero i out reply h = ground arith
  retry_loop-ok (suc left) i out reply h =
      elim (after_send-ok (retry_loop left (suc i) attempts message) i out reply
        (send_buffer (attempts i).sends message out) refl h) [
          | inl x ↦ (i, out, omega arith, no_more, x)
          | inr (t, rest) ↦
              let (j, o, early, ts, x) = retry_loop-ok left (suc i) [] reply rest in
              (j, o, omega (arith, early), one_more t ts, x)
        ]

  -- The turn of an exchange that succeeds, when one is left.
  answered :
      (left i : ℕ) (out reply : List ℕ)
      → 0 < left
      → Exchanges i out (recv_done reply)
      → retry_loop left i attempts message out ≡ loop_done (ok reply)
  unfolding retry_loop after_send after_recv Exchanges
  answered zero i out reply some_left x = absurd (omega arith)
  answered (suc left) i out reply some_left (o, e, r) = rw (e, r) refl

  -- An exchange that succeeds after fewer than MAX_TIMEOUT_RETRY timeouts, the socket being reopened
  -- after each, gives the call its reply.
  pub send_recv_loop-TimeOuts :
      (j : ℕ) (out o reply : List ℕ)
      → j < 3
      → TimeOuts 0 out j o
      → Exchanges j o (recv_done reply)
      → send_recv_loop attempts message out ≡ loop_done (ok reply)
  unfolding send_recv_loop
  send_recv_loop-TimeOuts j out o reply early ts x =
      let (rest, count, same) = retry_loop-TimeOuts 3 0 j out o ts (omega (arith, early)) in
      same ∙ answered rest j o reply (omega (arith, count, early)) x

  exhausted :
      (left i : ℕ) (out : List ℕ)
      → left ≡ 0
      → retry_loop left i attempts message out ≡ loop_done (err etimedout)
  unfolding retry_loop
  exhausted zero i out none_left = refl
  exhausted (suc left) i out none_left = absurd (omega (arith, none_left))

  -- After MAX_TIMEOUT_RETRY timeouts the call ends with ETIMEDOUT.
  pub send_recv_loop_gives_up :
      (out o : List ℕ)
      → TimeOuts 0 out 3 o
      → send_recv_loop attempts message out ≡ loop_done (err etimedout)
  unfolding send_recv_loop
  send_recv_loop_gives_up out o ts =
      let (rest, count, same) = retry_loop-TimeOuts 3 0 3 out o ts (omega arith) in
      same ∙ exhausted rest 3 o (omega (arith, count))

  -- When the call ends with a reply, the reply was received in one of the first MAX_TIMEOUT_RETRY
  -- turns, after turns that timed out and reopened the socket; and it was received on a connection
  -- over which that turn had sent the message once, behind its length, after what was there before or
  -- alone on a new connection.
  pub send_recv_loop_once :
      (out reply : List ℕ)
      → send_recv_loop attempts message out ≡ loop_done (ok reply)
      → (j : ℕ) × (before after : List ℕ) × (j < 3)
        × TimeOuts 0 out j before
        × (send_buffer (attempts j).sends message before ≡ send_done after)
        × (recv_buffer (attempts j).malloc_ok (attempts j).reads ≡ recv_done reply)
        × ((after ≡ before ++ (header (length message) ++ message))
            ⊎ (after ≡ header (length message) ++ message))
  unfolding send_recv_loop Exchanges
  send_recv_loop_once out reply h =
      let (j, before, early, ts, x) = retry_loop-ok 3 0 out reply h in
      let (after, sent, received) = x in
      (
        j,
        before,
        after,
        omega (arith, early),
        ts,
        sent,
        received,
        send_buffer_whole (attempts j).sends message before after sent,
      )
