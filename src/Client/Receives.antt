-- ===== src/Client/Receives.antt =====
-- What gpm_recv_buffer of src/client/gpm_common.c makes of a message that comes in pieces.
use gssproxy.Prelude.{
  ℕ, ◌+◌, ◌≤◌, ◌<◌, ◌≡◌, refl, sym, ap, ◌∙◌, List, [], ◌∷◌, ◌++◌, true, length, length-append,
  append-nil, append_assoc, le→ltb, lt→ltb, arith, success, eintr,
}
use gssproxy.Rpc.Procs.{max_rpc_size}
use gssproxy.Socket.Frame.{fragment_bit, header, ntohl-header, clear_fragment}
use gssproxy.Client.Recv.{
  arrived, unread, ReadTurn, recv_done, recv_epoll, piece_turn, recv_body, recv_size, recv_length,
  length_turn, recv_buffer,
}

-- Turns in which what is left of a message comes: each is let through by gpm_epoll_wait, and gets
-- some bytes or is interrupted, until nothing is left.
pub data Pieces : List ReadTurn → List ℕ → Type 0 where
  nothing_left : {ts : List ReadTurn} → Pieces ts []
  arrives :
      {t : ReadTurn} {ts : List ReadTurn} {b : ℕ} {bs left rest : List ℕ}
      → t.epoll ≡ success
      → t.read ≡ arrived (b ∷ bs)
      → left ≡ (b ∷ bs) ++ rest
      → Pieces ts rest
      → Pieces (t ∷ ts) left
  interrupted :
      {t : ReadTurn} {ts : List ReadTurn} {left : List ℕ}
      → t.epoll ≡ success
      → t.read ≡ unread eintr
      → Pieces ts left
      → Pieces (t ∷ ts) left

recv_body_full :
    (ts : List ReadTurn) (size : ℕ) (got : List ℕ)
    → size ≤ length got
    → recv_body ts size got ≡ recv_done got
unfolding recv_body
recv_body_full [] size got full = rw (le→ltb size (length got) full) refl
recv_body_full (t ∷ ts) size got full = rw (le→ltb size (length got) full) refl

recv_body_step :
    (t : ReadTurn) (ts : List ReadTurn) (size : ℕ) (got : List ℕ)
    → length got < size
    → t.epoll ≡ success
    → recv_body (t ∷ ts) size got ≡ piece_turn (λ g. recv_body ts size g) got t.read
unfolding recv_body recv_epoll
recv_body_step t ts size got more up = rw (lt→ltb (length got) size more, up) refl

recv_body-Pieces :
    (ts : List ReadTurn) (size : ℕ) (got left : List ℕ)
    → size ≡ length got + length left
    → Pieces ts left
    → recv_body ts size got ≡ recv_done (got ++ left)
unfolding piece_turn
recv_body-Pieces ts size got [] whole p =
    recv_body_full ts size got (omega (arith, whole)) ∙ ap recv_done (sym (append-nil got))
recv_body-Pieces [] size got (c ∷ cs) whole p = elim p [ ]
recv_body-Pieces (t ∷ ts) size got (c ∷ cs) whole
      (arrives {b = b} {bs = bs} {rest = rest} up now split later) =
    recv_body_step t ts size got (omega (arith, whole)) up
    ∙ ap (piece_turn (λ g. recv_body ts size g) got) now
    ∙ recv_body-Pieces ts size (got ++ b ∷ bs) rest (counts whole split) later
    ∙ ap recv_done (append_assoc got (b ∷ bs) rest ∙ ap (λ l. got ++ l) (sym split))
  where
    counts :
        size ≡ length got + length (c ∷ cs)
        → c ∷ cs ≡ (b ∷ bs) ++ rest
        → size ≡ length (got ++ b ∷ bs) + length rest
    counts w s =
        omega (arith, w, ap length s, length-append (b ∷ bs) rest, length-append got (b ∷ bs))
recv_body-Pieces (t ∷ ts) size got (c ∷ cs) whole (interrupted up now later) =
    recv_body_step t ts size got (omega (arith, whole)) up
    ∙ ap (piece_turn (λ g. recv_body ts size g) got) now
    ∙ recv_body-Pieces ts size got (c ∷ cs) whole later

recv_size_fits :
    (ts : List ReadTurn) (size : ℕ)
    → size ≤ max_rpc_size
    → recv_size true ts size ≡ recv_body ts size []
unfolding recv_size
recv_size_fits ts size small = rw (le→ltb size max_rpc_size small) refl

clear_fragment_added : (n : ℕ) → clear_fragment (n + fragment_bit) ≡ n
unfolding clear_fragment
clear_fragment_added n = ground arith

-- A message of at most MAX_RPC_SIZE, framed as gp_socket_write frames it, is received: when the length
-- comes in one read, and the bytes in whatever pieces, with interruptions, and malloc succeeds,
-- gpm_recv_buffer returns 0 with the message.
pub recv_buffer-Pieces :
    (t : ReadTurn) (ts : List ReadTurn) (message : List ℕ)
    → length message ≤ max_rpc_size
    → t.epoll ≡ success
    → t.read ≡ arrived (header (length message))
    → Pieces ts message
    → recv_buffer true (t ∷ ts) ≡ recv_done message
unfolding recv_buffer recv_epoll length_turn recv_length
recv_buffer-Pieces t ts message small up word p =
    ap (λ r. recv_epoll r (length_turn (recv_buffer true ts) true ts t.read)) up
    ∙ ap (length_turn (recv_buffer true ts) true ts) word
    ∙ ap (recv_length true ts) (ntohl-header (length message) (omega (arith, small)))
    ∙ ap (recv_size true ts) (clear_fragment_added (length message))
    ∙ recv_size_fits ts (length message) small
    ∙ recv_body-Pieces ts (length message) [] message (omega arith) p
