-- ===== src/Client/Loop.antt =====
-- gpm_send_recv_loop and gpm_next_xid of src/client/gpm_common.c.
use gssproxy.Prelude.{
  ℕ, zero, suc, ◌+◌, ◌%◌, ◌^◌, List, [], Bool, leb, if◌then◌else◌, Ret, success, failure, etimedout,
  Result, ok, err,
}
use gssproxy.Client.Send.{SendTurn, SendResult, send_blocked, send_failed, send_done, send_buffer}
use gssproxy.Client.Recv.{ReadTurn, RecvResult, recv_blocked, recv_failed, recv_done, recv_buffer}

-- MAX_TIMEOUT_RETRY
abbrev pub max_timeout_retry : ℕ
max_timeout_retry = 3

-- What one turn of the loop gets: the turns of its send and its receive, malloc there, and
-- gpm_retry_socket where it is called.
pub record Attempt : Type 0 where
  pub sends : List SendTurn
  pub reads : List ReadTurn
  pub malloc_ok : Bool
  pub reopen : Ret

pub data LoopResult : Type 0 where
  loop_blocked : LoopResult
  loop_done : Result (List ℕ) → LoopResult

-- Close and reopen the socket before trying again: a new connection has nothing on it.
unfoldable pub reopened : (List ℕ → LoopResult) → Ret → LoopResult
reopened later success = later []
reopened later (failure e) = loop_done (err e)

unfoldable pub after_recv : (List ℕ → LoopResult) → Ret → RecvResult → LoopResult
unfolding reopened
after_recv later reopen recv_blocked = loop_blocked
after_recv later reopen (recv_failed etimedout) = reopened later reopen
after_recv later reopen (recv_failed e) = loop_done (err e)
after_recv later reopen (recv_done buffer) = loop_done (ok buffer)

unfoldable pub after_send : (List ℕ → LoopResult) → Attempt → SendResult → LoopResult
unfolding reopened after_recv
after_send later a send_blocked = loop_blocked
after_send later a (send_failed etimedout) = reopened later a.reopen
after_send later a (send_failed e) = loop_done (err e)
after_send later a (send_done out) = after_recv later a.reopen (recv_buffer a.malloc_ok a.reads)

-- So many turns are left, from the turn `retry_count`.
unfoldable pub retry_loop : ℕ → ℕ → (ℕ → Attempt) → List ℕ → List ℕ → LoopResult
unfolding after_send
retry_loop zero retry_count attempts message out = loop_done (err etimedout)
retry_loop (suc left) retry_count attempts message out =
    after_send (λ o. retry_loop left (suc retry_count) attempts message o) (attempts retry_count)
      (send_buffer (attempts retry_count).sends message out)

unfoldable pub send_recv_loop : (ℕ → Attempt) → List ℕ → List ℕ → LoopResult
unfolding retry_loop
send_recv_loop attempts message out = retry_loop max_timeout_retry 0 attempts message out

-- gpm_next_xid: an int by its 32 bits, negative from 2 ^ 31 on; the increment wraps around.
unfoldable pub next_xid : ℕ → ℕ × ℕ
next_xid n = if leb 2147483648 n then (0, 1) else (n, (n + 1) % 2 ^ 32)
