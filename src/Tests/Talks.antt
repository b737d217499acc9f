-- ===== src/Tests/Talks.antt =====
-- A conversation of the client in which the first attempt times out.
use gssproxy.Prelude.{
  ℕ, zero, suc, ◌<◌, ◌≡◌, refl, ◌⊎◌, inl, List, [], ◌∷◌, ◌++◌, true, arith, success, failure, eintr,
  etimedout, ok,
}
use gssproxy.Socket.Frame.{header, htonl, set_fragment}
use gssproxy.Client.Send.{
  SysSend, sent, unsent, SendTurn, send_done, send_buffer, send_word, word_epoll, after_word,
}
use gssproxy.Client.Recv.{SysGet, arrived, unread, ReadTurn, recv_done, recv_buffer}
use gssproxy.Client.Loop.{Attempt, loop_done, send_recv_loop}
use gssproxy.Client.Sends.{
  Carries, nothing_left, takes, interrupted, send_buffer_whole, send_buffer-Carries,
}
use gssproxy.Client.Receives.{
  Pieces, nothing_left as no_piece_left, arrives, interrupted as read_again, recv_buffer-Pieces,
}
use gssproxy.Client.Retries.{
  TimesOut, Exchanges, TimeOuts, no_more, one_more, send_recv_loop-TimeOuts, send_recv_loop_once,
}

abbrev request : List ℕ
request = 7 ∷ 8 ∷ 9 ∷ []

abbrev answer : List ℕ
answer = 5 ∷ 6 ∷ []

abbrev turn : SysSend → SendTurn
turn s = record { epoll = success; send = s; reopen = success }

abbrev look : SysGet → ReadTurn
look g = record { epoll = success; read = g }

abbrev good_sends : List SendTurn
good_sends = turn (sent 4) ∷ turn (sent 2) ∷ turn (unsent eintr) ∷ turn (sent 1) ∷ []

abbrev good_reads : List ReadTurn
good_reads =
    look (arrived (128 ∷ 0 ∷ 0 ∷ 2 ∷ [])) ∷ look (unread eintr) ∷ look (arrived (5 ∷ 6 ∷ [])) ∷ []

-- The first attempt times out before the length is sent.
abbrev attempts : ℕ → Attempt
attempts zero = record {
  sends = record { epoll = failure etimedout; send = sent 0; reopen = success } ∷ [];
  reads = [];
  malloc_ok = true;
  reopen = success;
}
attempts (suc i) = record {
  sends = good_sends;
  reads = good_reads;
  malloc_ok = true;
  reopen = success;
}

abbrev never : ℕ → Attempt
never i = attempts 0

good_sends_carry : Carries (turn (sent 2) ∷ turn (unsent eintr) ∷ turn (sent 1) ∷ []) request
good_sends_carry =
    takes {n = 2} refl refl (interrupted refl refl (takes {n = 1} refl refl nothing_left))

good_reads_arrive : Pieces (look (unread eintr) ∷ look (arrived (5 ∷ 6 ∷ [])) ∷ []) answer
good_reads_arrive = read_again refl refl (arrives {rest = []} refl refl refl no_piece_left)

good_sends_lem : send_buffer good_sends request [] ≡ send_done (header 3 ++ request)
good_sends_lem =
    send_buffer-Carries (turn (sent 4)) _ request [] (omega arith) refl refl good_sends_carry

good_reads_lem : recv_buffer true good_reads ≡ recv_done answer
unfolding header htonl set_fragment
good_reads_lem =
    recv_buffer-Pieces (look (arrived (128 ∷ 0 ∷ 0 ∷ 2 ∷ []))) _ answer (omega arith) refl refl
      good_reads_arrive

send_buffer-Carries_example :
    send_buffer good_sends request [] ≡ send_done ([] ++ (header 3 ++ request))
send_buffer-Carries_example =
    send_buffer-Carries (turn (sent 4)) (turn (sent 2) ∷ turn (unsent eintr) ∷ turn (sent 1) ∷ [])
      request [] (omega arith) refl refl good_sends_carry

send_buffer_whole_example :
    (header 3 ++ request ≡ [] ++ (header 3 ++ request))
    ⊎ (header 3 ++ request ≡ header 3 ++ request)
send_buffer_whole_example =
    send_buffer_whole good_sends request [] (header 3 ++ request) good_sends_lem

recv_buffer-Pieces_example : recv_buffer true good_reads ≡ recv_done answer
unfolding header htonl set_fragment
recv_buffer-Pieces_example =
    recv_buffer-Pieces (look (arrived (128 ∷ 0 ∷ 0 ∷ 2 ∷ [])))
      (look (unread eintr) ∷ look (arrived (5 ∷ 6 ∷ [])) ∷ []) answer (omega arith) refl refl
      good_reads_arrive

-- An attempt that times out, whatever its number.
never-TimesOut : (i : ℕ) → TimesOut never request i []
unfolding TimesOut send_buffer send_word word_epoll after_word
never-TimesOut i = (inl refl, refl)

first_TimesOut : TimesOut attempts request 0 []
unfolding TimesOut send_buffer send_word word_epoll after_word
first_TimesOut = (inl refl, refl)

second_Exchanges : Exchanges attempts request 1 [] (recv_done answer)
unfolding Exchanges
second_Exchanges = (header 3 ++ request, good_sends_lem, good_reads_lem)

answered_lem : send_recv_loop attempts request [] ≡ loop_done (ok answer)
answered_lem =
    send_recv_loop-TimeOuts attempts request 1 [] [] answer (omega arith)
      (one_more first_TimesOut no_more) second_Exchanges

send_recv_loop-TimeOuts_example : send_recv_loop attempts request [] ≡ loop_done (ok answer)
send_recv_loop-TimeOuts_example =
    send_recv_loop-TimeOuts attempts request 1 [] [] answer (omega arith)
      (one_more first_TimesOut no_more) second_Exchanges

send_recv_loop_once_example :
    (j : ℕ) × (before after : List ℕ) × (j < 3)
    × TimeOuts attempts request 0 [] j before
    × (send_buffer (attempts j).sends request before ≡ send_done after)
    × (recv_buffer (attempts j).malloc_ok (attempts j).reads ≡ recv_done answer)
    × ((after ≡ before ++ (header 3 ++ request)) ⊎ (after ≡ header 3 ++ request))
send_recv_loop_once_example = send_recv_loop_once attempts request [] answer answered_lem
