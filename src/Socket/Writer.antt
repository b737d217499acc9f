-- ===== src/Socket/Writer.antt =====
-- What gp_socket_write of src/gp_socket.c sends of a message that goes out in pieces.
use gssproxy.Prelude.{
  ℕ, suc, ◌+◌, ◌-◌, ◌<◌, ◌≡◌, ap, ◌∙◌, List, [], ◌∷◌, ◌++◌, length, take-all, take-rest, take-drop,
  drop-drop, length-drop, take, drop, arith, append_assoc, append-nil,
}
use gssproxy.Socket.Frame.{htonl, header}
use gssproxy.Socket.Write.{
  SysWrite, wrote, busy, WriteBuffer, schedule_write, setup_next, send_data, iov, advance,
  count_written, socket_write, after_write, run_writer,
}

-- Writes that take so many bytes in all, each at least one, with writes between that take nothing.
pub data Takes : List SysWrite → ℕ → Type 0 where
  last : {ws : List SysWrite} → {n : ℕ} → 0 < n → Takes (wrote n ∷ ws) n
  more :
      {ws : List SysWrite}
      → {n k m : ℕ} → 0 < k
      → 0 < m
      → n ≡ k + m
      → Takes ws m
      → Takes (wrote k ∷ ws) n
  waits : {ws : List SysWrite} → {n : ℕ} → Takes ws n → Takes (busy ∷ ws) n

-- The same for a message of so many bytes from its start: the first write takes the header and at
-- least one byte of the message.
pub data Sends : List SysWrite → ℕ → Type 0 where
  whole : {ws : List SysWrite} → {n : ℕ} → 0 < n → Sends (wrote (4 + n) ∷ ws) n
  part :
      {ws : List SysWrite}
      → {n k m : ℕ} → 0 < k
      → 0 < m
      → n ≡ k + m
      → Takes ws m
      → Sends (wrote (4 + k) ∷ ws) n
  idles : {ws : List SysWrite} → {n : ℕ} → Sends ws n → Sends (busy ∷ ws) n

advance-more :
    (b : WriteBuffer)
    → (k m : ℕ) → length b.packet ≡ b.pos + (k + m)
    → 0 < m
    → advance b k ≡ schedule_write (record b { pos = b.pos + k })
unfolding advance
advance-more b k m size more_left = ground arith

advance-last : (b : WriteBuffer) → (k : ℕ) → length b.packet ≡ b.pos + k → advance b k ≡ setup_next
unfolding advance
advance-last b k size = ground arith

iov-later : (b : WriteBuffer) → 0 < b.pos → iov b ≡ drop b.pos b.packet
unfolding iov
iov-later b some_sent = ground arith

count-later : (b : WriteBuffer) → (k : ℕ) → 0 < b.pos → count_written b k ≡ advance b k
unfolding count_written
count-later b k some_sent = ground arith

write-later :
    (b : WriteBuffer)
    → (k : ℕ) → 0 < b.pos
    → socket_write (wrote k) b ≡ (advance b k, take k (drop b.pos b.packet))
unfolding socket_write count_written
write-later b k some_sent =
    ap (λ l. (count_written b k, take k l)) (iov-later b some_sent)
    ∙ ap (λ r. (r, take k (drop b.pos b.packet))) (count-later b k some_sent)

-- What is left of a message is sent by writes that take that much.
run_writer-Takes :
    (ws : List SysWrite)
    → (n : ℕ) → (b : WriteBuffer) → 0 < b.pos
    → length b.packet ≡ b.pos + n
    → Takes ws n
    → run_writer ws b ≡ (setup_next, drop b.pos b.packet)
unfolding run_writer after_write socket_write
run_writer-Takes [] n b some_sent size no_write = elim no_write [ ]
run_writer-Takes (_ ∷ ws) n b some_sent size (last some_more) =
    ap (after_write (run_writer ws)) (
      write-later b n some_sent
      ∙ ap (λ r. (r, take n (drop b.pos b.packet))) (advance-last b n size))
    ∙ ap (λ l. (setup_next, l))
        (take-rest n (drop b.pos b.packet) (omega (arith, length-drop b.pos b.packet, size)))
run_writer-Takes (_ ∷ ws) n b some_sent size (more {k = k} {m = m} some_now some_later sum later) =
    ap (after_write (run_writer ws)) (
      write-later b k some_sent
      ∙ ap (λ r. (r, take k (drop b.pos b.packet)))
          (advance-more b k m (omega (arith, size, sum)) some_later))
    ∙ ap (λ r. (r.0, take k (drop b.pos b.packet) ++ r.1))
        (run_writer-Takes ws m (record b { pos = b.pos + k }) (omega (arith, some_sent))
          (omega (arith, size, sum)) later)
    ∙ ap (λ l. (setup_next, l))
        (ap (λ l. take k (drop b.pos b.packet) ++ l) (drop-drop b.pos k b.packet)
          ∙ take-drop k (drop b.pos b.packet))
run_writer-Takes (_ ∷ ws) n b some_sent size (waits later) =
    run_writer-Takes ws n b some_sent size later

-- The first write, of the header and some of the message.
count-first :
    (packet : List ℕ)
    → (k : ℕ) → count_written (send_data packet) (4 + k) ≡ advance (send_data packet) k
unfolding count_written send_data
count-first packet k = ground (arith, rest k)
  where
    rest : (k : ℕ) → 4 + k - 4 ≡ k
    rest k = omega arith

take-header :
    (n k : ℕ) → (packet : List ℕ) → take (4 + k) (header n ++ packet) ≡ header n ++ take k packet
unfolding header htonl
take-header n k packet = ap (λ m. take m (header n ++ packet)) (four_more k)
  where
    four_more : (k : ℕ) → 4 + k ≡ suc (suc (suc (suc k)))
    four_more k = omega arith

write-first :
    (packet : List ℕ)
    → (k : ℕ)
    → socket_write (wrote (4 + k)) (send_data packet)
      ≡ (advance (send_data packet) k, header (length packet) ++ take k packet)
unfolding socket_write iov send_data
write-first packet k =
    ap (λ r. (r, take (4 + k) (iov (send_data packet)))) (count-first packet k)
    ∙ ap (λ l. (advance (send_data packet) k, l)) (iov-first packet k)
  where
    iov-first :
        (packet : List ℕ)
        → (k : ℕ) → take (4 + k) (iov (send_data packet)) ≡ header (length packet) ++ take k packet
    iov-first packet k = take-header (length packet) k packet

-- A message of at least one byte goes out as its header and its bytes, in whatever pieces it is taken
-- and after whatever waits, and the connection reads again, when the first write takes more than the
-- header.
pub run_writer-Sends :
    (ws : List SysWrite)
    → (packet : List ℕ) → Sends ws (length packet)
    → run_writer ws (send_data packet) ≡ (setup_next, header (length packet) ++ packet)
unfolding run_writer after_write socket_write send_data
run_writer-Sends [] packet no_write = elim no_write [ ]
run_writer-Sends (_ ∷ ws) packet (whole some_bytes) =
    ap (after_write (run_writer ws)) (
      write-first packet (length packet)
      ∙ ap (λ r. (r, header (length packet) ++ take (length packet) packet))
          (advance-last (send_data packet) (length packet) (omega arith)))
    ∙ ap (λ l. (setup_next, header (length packet) ++ l)) (take-all packet)
run_writer-Sends (_ ∷ ws) packet (part {k = k} {m = m} some_now some_later sum later) =
    ap (after_write (run_writer ws)) (
      write-first packet k
      ∙ ap (λ r. (r, header (length packet) ++ take k packet))
          (advance-more (send_data packet) k m (omega (arith, sum)) some_later))
    ∙ ap (λ r. (r.0, (header (length packet) ++ take k packet) ++ r.1))
        (run_writer-Takes ws m (record { packet = packet; pos = 0 + k }) (omega (arith, some_now))
          (omega (arith, sum)) later)
    ∙ ap (λ l. (setup_next, l))
        (append_assoc (header (length packet)) (take k packet) (drop (0 + k) packet)
          ∙ ap (λ l. header (length packet) ++ l)
              (ap (λ n. take k packet ++ drop n packet) (zero_plus k) ∙ take-drop k packet))
  where
    zero_plus : (k : ℕ) → 0 + k ≡ k
    zero_plus k = omega arith
run_writer-Sends (_ ∷ ws) packet (idles later) = run_writer-Sends ws packet later

-- When the first write takes the four bytes of the header and no more, `pos` stays 0, and the next
-- write sends the header again, before the message.
pub header_sent_twice :
    (packet : List ℕ)
    → 0 < length packet
    → run_writer (wrote 4 ∷ wrote (4 + length packet) ∷ []) (send_data packet)
      ≡ (setup_next, header (length packet) ++ (header (length packet) ++ packet))
unfolding run_writer after_write send_data
header_sent_twice packet some_bytes =
    ap (after_write (run_writer (wrote (4 + length packet) ∷ []))) (
      ap (λ n. socket_write (wrote n) (send_data packet)) (omega arith)
      ∙ write-first packet 0
      ∙ ap (λ r. (r, header (length packet) ++ []))
          (advance-more (send_data packet) 0 (length packet) (omega arith) some_bytes))
    ∙ ap (λ r. (r.0, (header (length packet) ++ []) ++ r.1))
        (run_writer-Sends (wrote (4 + length packet) ∷ []) packet (whole some_bytes))
    ∙ ap (λ l. (setup_next, l ++ (header (length packet) ++ packet)))
        (append-nil (header (length packet)))
