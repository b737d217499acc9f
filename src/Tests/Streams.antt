-- ===== src/Tests/Streams.antt =====
-- A message of three bytes that comes and goes in pieces.
use gssproxy.Prelude.{ℕ, ◌≡◌, refl, List, [], ◌∷◌, ◌++◌, true, arith}
use gssproxy.Socket.Frame.{header, htonl, set_fragment}
use gssproxy.Socket.Read.{
  SysRead, got, again, fails, setup_reader, handed_over, Event, run_reader, socket_read, read_body,
  got_data, data_ready, read_header, got_length, got_size,
}
use gssproxy.Socket.Frame.{ntohl}
use gssproxy.Socket.Reader.{last, more, waits, starts, idles, run_reader-Arrives}
use gssproxy.Socket.Bounds.{
  IsBounded, IsReader, Within, asked, from_header, declared, OnWait, Obeys, run_reader-IsBounded,
}
use gssproxy.Socket.Write.{wrote, busy, send_data, setup_next, run_writer}
use gssproxy.Socket.Writer.{
  part, last as last_write, idles as idles_write, run_writer-Sends, header_sent_twice,
}

abbrev event : SysRead → SysRead → Event
event l d = record { read_length = l; read_data = d; malloc_ok = true; query_ok = true }

abbrev message : List ℕ
message = 1 ∷ 2 ∷ 3 ∷ []

-- Nothing at first, then the length alone, and the data in two pieces.
abbrev reads : List Event
reads =
    event again again
    ∷ event (got (128 ∷ 0 ∷ 0 ∷ 3 ∷ [])) again
    ∷ event fails (got (1 ∷ 2 ∷ []))
    ∷ event fails (got (3 ∷ []))
    ∷ []

run_reader-Arrives_example : run_reader reads setup_reader ≡ handed_over message
unfolding header htonl set_fragment
run_reader-Arrives_example = run_reader-Arrives reads message (omega arith) (
    idles refl (
      starts refl refl (
        waits refl (
          more {chunk = 1 ∷ 2 ∷ []} {rest = 3 ∷ []} refl (omega arith) (omega arith) refl
            (last refl (omega arith) refl)))))

run_reader-IsBounded_example : IsBounded (run_reader reads setup_reader)
unfolding Obeys IsBounded IsReader Within asked from_header declared OnWait socket_read read_body
    got_data data_ready read_header got_length got_size ntohl
run_reader-IsBounded_example =
    run_reader-IsBounded reads setup_reader (refl, omega arith, omega arith, λ _. refl)
      (tt, (tt, (omega arith, (omega arith, tt))))

run_writer-Sends_example :
    run_writer (busy ∷ wrote 5 ∷ wrote 2 ∷ []) (send_data message)
    ≡ (setup_next, header 3 ++ message)
run_writer-Sends_example =
    run_writer-Sends (busy ∷ wrote 5 ∷ wrote 2 ∷ []) message (
      idles_write
        (part {k = 1} {m = 2} (omega arith) (omega arith) refl (last_write (omega arith))))

header_sent_twice_example :
    run_writer (wrote 4 ∷ wrote 7 ∷ []) (send_data message)
    ≡ (setup_next, header 3 ++ (header 3 ++ message))
header_sent_twice_example = header_sent_twice message (omega arith)
