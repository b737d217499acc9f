-- ===== src/Client/Send.antt =====
-- gpm_send_buffer of src/client/gpm_common.c: a message to the daemon. A connection is the list of the
-- bytes that were sent over it.
use gssproxy.Prelude.{
  ℕ, List, [], ◌∷◌, ◌++◌, Bool, true, false, length, take, drop, ltb, ◌==◌, if◌then◌else◌, Ret,
  success, failure, Errno, eintr, eagain, eio, einval,
}
use gssproxy.Rpc.Procs.{max_rpc_size}
use gssproxy.Socket.Frame.{header}

-- The system call send: how many bytes it took, or errno.
pub data SysSend : Type 0 where
  sent : ℕ → SysSend
  unsent : Errno → SysSend

-- What one turn of a loop gets: gpm_epoll_wait, then send, and gpm_retry_socket where it is called.
pub record SendTurn : Type 0 where
  pub epoll : Ret
  pub send : SysSend
  pub reopen : Ret

-- After the first loop: it waits, or fails, or has sent the length, with the turns that are left.
pub data WordResult : Type 0 where
  word_blocked : WordResult
  word_failed : Errno → WordResult
  word_sent : List SendTurn → List ℕ → WordResult

-- Reopen and retry once: a new connection has nothing on it.
unfoldable pub retry_socket : (Bool → List ℕ → WordResult) → Bool → Ret → WordResult
retry_socket later true r = word_failed eio
retry_socket later false success = later true []
retry_socket later false (failure e) = word_failed e

-- After send, in the first loop.
unfoldable pub word_turn :
    (Bool → List ℕ → WordResult)
    → List SendTurn
    → Bool
    → Ret
    → List ℕ
    → List ℕ
    → SysSend
    → WordResult
unfolding retry_socket
word_turn later ts retry reopen word out (unsent eintr) = later retry out
word_turn later ts retry reopen word out (unsent e) = retry_socket later retry reopen
word_turn later ts retry reopen word out (sent n) =
    if n == 4 then word_sent ts (out ++ take n word) else retry_socket later retry reopen

-- An error of gpm_epoll_wait ends the function.
unfoldable pub word_epoll : Ret → WordResult → WordResult
word_epoll success r = r
word_epoll (failure e) r = word_failed e

unfoldable pub send_word : List SendTurn → Bool → List ℕ → List ℕ → WordResult
unfolding word_turn word_epoll
send_word [] retry word out = word_blocked
send_word (t ∷ ts) retry word out =
    word_epoll t.epoll (word_turn (λ r o. send_word ts r word o) ts retry t.reopen word out t.send)

-- The result of the function: it waits, or returns an error, or 0 with what is on the connection.
pub data SendResult : Type 0 where
  send_blocked : SendResult
  send_failed : Errno → SendResult
  send_done : List ℕ → SendResult

-- After send, in the second loop, on what is left of the message.
unfoldable pub body_turn : (List ℕ → List ℕ → SendResult) → List ℕ → List ℕ → SysSend → SendResult
body_turn later left out (unsent eintr) = later left out
body_turn later left out (unsent eagain) = later left out
body_turn later left out (unsent e) = send_failed e
body_turn later left out (sent n) = later (drop n left) (out ++ take n left)

unfoldable pub body_epoll : Ret → SendResult → SendResult
body_epoll success r = r
body_epoll (failure e) r = send_failed e

unfoldable pub send_body : List SendTurn → List ℕ → List ℕ → SendResult
unfolding body_turn body_epoll
send_body ts [] out = send_done out
send_body [] (c ∷ cs) out = send_blocked
send_body (t ∷ ts) (c ∷ cs) out =
    body_epoll t.epoll (body_turn (λ left o. send_body ts left o) (c ∷ cs) out t.send)

unfoldable pub after_word : List ℕ → WordResult → SendResult
unfolding send_body
after_word message word_blocked = send_blocked
after_word message (word_failed e) = send_failed e
after_word message (word_sent ts out) = send_body ts message out

unfoldable pub send_buffer : List SendTurn → List ℕ → List ℕ → SendResult
unfolding after_word send_word
send_buffer ts message out =
    if ltb max_rpc_size (length message)
    then send_failed einval
    else after_word message (send_word ts false (header (length message)) out)
