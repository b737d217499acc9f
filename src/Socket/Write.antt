-- ===== src/Socket/Write.antt =====
-- gp_socket_write of src/gp_socket.c: one event of a socket that can be written.
use gssproxy.Prelude.{
  ℕ, ◌+◌, ◌-◌, List, [], ◌∷◌, ◌++◌, length, take, drop, ltb, ◌==◌, if◌then◌else◌,
}
use gssproxy.Socket.Frame.{header}

-- What the system call writev gives: how many bytes it took, or an error, where EAGAIN and EINTR are
-- told apart from the others.
pub data SysWrite : Type 0 where
  wrote : ℕ → SysWrite
  busy : SysWrite
  broken : SysWrite

-- struct gp_buffer of a writer: `size` is the length of data.
pub record WriteBuffer : Type 0 where
  pub packet : List ℕ
  pub pos : ℕ

-- Wait to write more, or read the next message from the connection, or close it.
pub data WriteResult : Type 0 where
  schedule_write : WriteBuffer → WriteResult
  setup_next : WriteResult
  conn_closed : WriteResult

-- gp_socket_send_data: nothing is sent yet.
unfoldable pub send_data : List ℕ → WriteBuffer
send_data buffer = record { packet = buffer; pos = 0 }

-- The iovec: the header goes with the first write.
unfoldable pub iov : WriteBuffer → List ℕ
unfolding header
iov b = if b.pos == 0 then header (length b.packet) ++ drop b.pos b.packet else drop b.pos b.packet

-- wbuf->pos += wn, and the test whether more is to be written.
unfoldable pub advance : WriteBuffer → ℕ → WriteResult
advance b wn =
    if ltb (b.pos + wn) (length b.packet)
    then schedule_write (record b { pos = b.pos + wn })
    else setup_next

-- After the bytes are counted: those of the header do not move `pos`.
unfoldable pub count_written : WriteBuffer → ℕ → WriteResult
unfolding advance
count_written b wn =
    if b.pos == 0 then if ltb wn 4 then conn_closed else advance b (wn - 4) else advance b wn

-- With the result go the bytes that went out.
unfoldable pub socket_write : SysWrite → WriteBuffer → WriteResult × List ℕ
unfolding count_written iov
socket_write (wrote wn) b = (count_written b wn, take wn (iov b))
socket_write busy b = (schedule_write b, [])
socket_write broken b = (conn_closed, [])

-- What becomes of the writer after an event, with what it has sent put in front.
unfoldable pub after_write :
    (WriteBuffer → WriteResult × List ℕ) → WriteResult × List ℕ → WriteResult × List ℕ
after_write later (schedule_write b, out) = ((later b).0, out ++ (later b).1)
after_write later (setup_next, out) = (setup_next, out)
after_write later (conn_closed, out) = (conn_closed, out)

-- The events of a writer, until one does not wait for more.
unfoldable pub run_writer : List SysWrite → WriteBuffer → WriteResult × List ℕ
unfolding after_write
run_writer [] b = (schedule_write b, [])
run_writer (w ∷ ws) b = after_write (run_writer ws) (socket_write w b)
