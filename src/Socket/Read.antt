-- ===== src/Socket/Read.antt =====
-- gp_socket_read of src/gp_socket.c: one event of a socket that can be read.
use gssproxy.Prelude.{
  ℕ, ◌+◌, ◌-◌, List, [], ◌∷◌, ◌++◌, Option, some, none, Bool, true, false, length, ltb, leb, ◌==◌,
  not, if◌then◌else◌,
}
use gssproxy.Rpc.Procs.{max_rpc_size}
use gssproxy.Socket.Frame.{fragment_bit, ntohl}

-- What the system call read gives: bytes (none at the end of the stream), or an error, where EAGAIN
-- and EINTR are told apart from the others.
pub data SysRead : Type 0 where
  got : List ℕ → SysRead
  again : SysRead
  fails : SysRead

-- struct gp_buffer of a reader. `stored` holds the first `pos` bytes of data, once it is allocated.
pub record ReadBuffer : Type 0 where
  pub allocated : Bool
  pub stored : List ℕ
  pub size : ℕ
  pub pos : ℕ

-- calloc, in gp_setup_reader.
abbrev pub setup_reader : ReadBuffer
setup_reader = record { allocated = false; stored = []; size = 0; pos = 0 }

-- The last switch of the function: wait for more, or leave the packet with gp_query_new, or close the
-- connection.
pub data ReadResult : Type 0 where
  schedule_read : ReadBuffer → ReadResult
  handed_over : List ℕ → ReadResult
  conn_free : ReadResult

-- The system calls of one event: the read of the length, the read of data, malloc, and whether
-- gp_query_new returns 0. Not each of them is made.
pub record Event : Type 0 where
  pub read_length : SysRead
  pub read_data : SysRead
  pub malloc_ok : Bool
  pub query_ok : Bool

-- After the data is read, and bytes have come: hand over the packet, if that is all.
unfoldable pub data_ready : Bool → ReadBuffer → ReadResult
data_ready query_ok b =
    if b.pos == b.size
    then if query_ok then handed_over b.stored else conn_free
    else schedule_read b

-- The second half: a read of what is missing. `header` tells that the length was read just before.
-- With the result goes the count of the bytes read.
unfoldable pub got_data : Event → Bool → ℕ → ReadBuffer → SysRead → ReadResult × ℕ
unfolding data_ready
got_data ev header total b again = (schedule_read b, total)
got_data ev header total b fails = (conn_free, total)
got_data ev header total b (got bytes) =
    if length bytes == 0 then (if not header then conn_free else schedule_read b, total) else (
      data_ready ev.query_ok (record b { stored = b.stored ++ bytes; pos = b.pos + length bytes }),
      total + length bytes,
    )

unfoldable pub read_body : Event → Bool → ℕ → ReadBuffer → ReadResult × ℕ
unfolding got_data
read_body ev header total b = got_data ev header total b ev.read_data

-- The length, in host order: the fragment bit must be set, and the rest must not be too large.
unfoldable pub got_size : Event → ℕ → ReadBuffer → ReadResult × ℕ
unfolding read_body
got_size ev size b =
    if leb fragment_bit size
    then if ltb max_rpc_size (size - fragment_bit)
      then (conn_free, 4)
      else if ev.malloc_ok
      then read_body ev true 4 (record b { allocated = true; size = size - fragment_bit })
      else (conn_free, 4)
    else (conn_free, 4)

unfoldable pub got_length : Event → Option ℕ → ReadBuffer → ReadResult × ℕ
unfolding got_size
got_length ev none b = (conn_free, 0)
got_length ev (some size) b = got_size ev size b

-- The first half: the read of the length. Anything but four bytes closes the connection.
unfoldable pub read_header : Event → ReadBuffer → SysRead → ReadResult × ℕ
unfolding got_length ntohl
read_header ev b again = (schedule_read b, 0)
read_header ev b fails = (conn_free, 0)
read_header ev b (got bytes) = got_length ev (ntohl bytes) b

unfoldable pub socket_read : Event → ReadBuffer → ReadResult × ℕ
unfolding read_header
socket_read ev b = if b.allocated then read_body ev false 0 b else read_header ev b ev.read_length

-- What becomes of the reader after an event.
unfoldable pub after_read : (ReadBuffer → ReadResult) → ReadResult → ReadResult
after_read later (schedule_read b) = later b
after_read later (handed_over packet) = handed_over packet
after_read later conn_free = conn_free

-- The events of a reader, until one does not wait for more.
unfoldable pub run_reader : List Event → ReadBuffer → ReadResult
unfolding after_read
run_reader [] b = schedule_read b
run_reader (ev ∷ evs) b = after_read (run_reader evs) (socket_read ev b).0
