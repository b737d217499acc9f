-- ===== src/Client/Recv.antt =====
-- gpm_recv_buffer of src/client/gpm_common.c: a message from the daemon.
use gssproxy.Prelude.{
  ℕ, List, [], ◌∷◌, ◌++◌, Option, some, none, Bool, length, ltb, if◌then◌else◌, Ret, success,
  failure, Errno, eintr, eagain, eio, emsgsize, enomem,
}
use gssproxy.Rpc.Procs.{max_rpc_size}
use gssproxy.Socket.Frame.{ntohl, clear_fragment}

-- The system call read: bytes, none at the end of the stream, or errno.
pub data SysGet : Type 0 where
  arrived : List ℕ → SysGet
  unread : Errno → SysGet

-- What one turn of a loop gets: gpm_epoll_wait, then read.
pub record ReadTurn : Type 0 where
  pub epoll : Ret
  pub read : SysGet

pub data RecvResult : Type 0 where
  recv_blocked : RecvResult
  recv_failed : Errno → RecvResult
  recv_done : List ℕ → RecvResult

-- An error of gpm_epoll_wait ends the function.
unfoldable pub recv_epoll : Ret → RecvResult → RecvResult
recv_epoll success r = r
recv_epoll (failure e) r = recv_failed e

-- After read, in the second loop.
unfoldable pub piece_turn : (List ℕ → RecvResult) → List ℕ → SysGet → RecvResult
piece_turn later got (unread eintr) = later got
piece_turn later got (unread eagain) = later got
piece_turn later got (unread e) = recv_failed e
piece_turn later got (arrived []) = recv_failed eio
piece_turn later got (arrived (b ∷ bs)) = later (got ++ b ∷ bs)

-- The second loop, while *length > pos.
unfoldable pub recv_body : List ReadTurn → ℕ → List ℕ → RecvResult
unfolding piece_turn recv_epoll
recv_body [] size got = if ltb (length got) size then recv_blocked else recv_done got
recv_body (t ∷ ts) size got =
    if ltb (length got) size
    then recv_epoll t.epoll (piece_turn (λ g. recv_body ts size g) got t.read)
    else recv_done got

-- The length, and the buffer for it.
unfoldable pub recv_size : Bool → List ReadTurn → ℕ → RecvResult
unfolding recv_body
recv_size malloc_ok ts size =
    if ltb max_rpc_size size
    then recv_failed emsgsize
    else if malloc_ok
    then recv_body ts size []
    else recv_failed enomem

unfoldable pub recv_length : Bool → List ReadTurn → Option ℕ → RecvResult
unfolding recv_size
recv_length malloc_ok ts none = recv_failed eio
recv_length malloc_ok ts (some word) = recv_size malloc_ok ts (clear_fragment word)

-- After read, in the first loop: only EINTR reads again.
unfoldable pub length_turn : RecvResult → Bool → List ReadTurn → SysGet → RecvResult
unfolding recv_length
length_turn later malloc_ok ts (unread eintr) = later
length_turn later malloc_ok ts (unread e) = recv_failed eio
length_turn later malloc_ok ts (arrived bytes) = recv_length malloc_ok ts (ntohl bytes)

unfoldable pub recv_buffer : Bool → List ReadTurn → RecvResult
unfolding length_turn recv_epoll
recv_buffer malloc_ok [] = recv_blocked
recv_buffer malloc_ok (t ∷ ts) =
    recv_epoll t.epoll (length_turn (recv_buffer malloc_ok ts) malloc_ok ts t.read)
