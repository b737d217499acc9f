-- ===== src/Client/Sends.antt =====
-- What gpm_send_buffer of src/client/gpm_common.c leaves on the connection.
use gssproxy.Prelude.{
  ℕ, ◌≤◌, ◌≡◌, refl, sym, ap, ◌∙◌, ◌⊎◌, inl, inr, List, [], ◌∷◌, ◌++◌, Bool, true, false, length,
  take, drop, take-drop, append-nil, append_assoc, ltb, ◌==◌, if◌then◌else◌, Bool-cases, ==→eq,
  le→ltb, subst, Ret, success, failure, eagain, einval, eintr,
}
use gssproxy.Rpc.Procs.{max_rpc_size}
use gssproxy.Socket.Frame.{htonl, header}
use gssproxy.Client.Send.{
  SysSend, sent, unsent, SendTurn, WordResult, word_blocked, word_failed, word_sent, retry_socket,
  word_turn, word_epoll, send_word, SendResult, send_blocked, send_failed, send_done, body_turn,
  body_epoll, send_body, after_word, send_buffer,
}

-- What a connection has when the second loop ends with 0.
BodyWhole : List ℕ → SendResult → Type 0
BodyWhole whole (send_done out) = out ≡ whole
BodyWhole whole _ = Unit

body_epoll-BodyWhole :
    (whole : List ℕ) (r : Ret) (x : SendResult)
    → BodyWhole whole x
    → BodyWhole whole (body_epoll r x)
unfolding BodyWhole body_epoll
body_epoll-BodyWhole whole success x h = h
body_epoll-BodyWhole whole (failure e) x h = tt

body_turn-BodyWhole :
    (later : List ℕ → List ℕ → SendResult)
    → ((left out : List ℕ) → BodyWhole (out ++ left) (later left out))
    → (left out : List ℕ) (s : SysSend) → BodyWhole (out ++ left) (body_turn later left out s)
unfolding BodyWhole body_turn
body_turn-BodyWhole later h left out (unsent eintr) = h left out
body_turn-BodyWhole later h left out (unsent eagain) = h left out
body_turn-BodyWhole later h left out (unsent e) = tt
body_turn-BodyWhole later h left out (sent n) =
    subst (λ whole. BodyWhole whole (later (drop n left) (out ++ take n left)))
      (append_assoc out (take n left) (drop n left) ∙ ap (λ l. out ++ l) (take-drop n left))
      (h (drop n left) (out ++ take n left))

send_body-BodyWhole :
    (ts : List SendTurn) (left out : List ℕ) → BodyWhole (out ++ left) (send_body ts left out)
unfolding BodyWhole send_body
send_body-BodyWhole ts [] out = sym (append-nil out)
send_body-BodyWhole [] (c ∷ cs) out = tt
send_body-BodyWhole (t ∷ ts) (c ∷ cs) out =
    body_epoll-BodyWhole (out ++ c ∷ cs) t.epoll
      (body_turn (λ left o. send_body ts left o) (c ∷ cs) out t.send)
      (body_turn-BodyWhole (λ left o. send_body ts left o) (λ left o. send_body-BodyWhole ts left o)
        (c ∷ cs) out t.send)

-- The length is on the connection after what was there, or alone on a new one.
WordWhole : List ℕ → List ℕ → WordResult → Type 0
WordWhole word out (word_sent ts o) = (o ≡ out ++ word) ⊎ (o ≡ word)
WordWhole word out _ = Unit

WordWhole-reopened :
    (word out : List ℕ) (r : WordResult) → WordWhole word [] r → WordWhole word out r
unfolding WordWhole
WordWhole-reopened word out (word_sent ts o) (inl h) = inr h
WordWhole-reopened word out (word_sent ts o) (inr h) = inr h
WordWhole-reopened word out word_blocked h = tt
WordWhole-reopened word out (word_failed e) h = tt

module _ (size : ℕ) (later : Bool → List ℕ → WordResult)
    (h : (retry : Bool) (out : List ℕ) → WordWhole (header size) out (later retry out)) where
  retry_socket-WordWhole :
      (retry : Bool) (out : List ℕ) (r : Ret)
      → WordWhole (header size) out (retry_socket later retry r)
  unfolding WordWhole retry_socket
  retry_socket-WordWhole true out r = tt
  retry_socket-WordWhole false out success =
      WordWhole-reopened (header size) out (later true []) (h true [])
  retry_socket-WordWhole false out (failure e) = tt

  word_turn-WordWhole :
      (ts : List SendTurn) (retry : Bool) (reopen : Ret) (out : List ℕ) (s : SysSend)
      → WordWhole (header size) out (word_turn later ts retry reopen (header size) out s)
  unfolding WordWhole word_turn header htonl
  word_turn-WordWhole ts retry reopen out (unsent eintr) = h retry out
  word_turn-WordWhole ts retry reopen out (unsent e) = retry_socket-WordWhole retry out reopen
  word_turn-WordWhole ts retry reopen out (sent n) = elim (Bool-cases (n == 4)) [
    | inl four ↦ rw (==→eq n 4 four) (inl refl)
    | inr other_count ↦ rw other_count (retry_socket-WordWhole retry out reopen)
  ]

word_epoll-WordWhole :
    (word out : List ℕ) (r : Ret) (x : WordResult)
    → WordWhole word out x
    → WordWhole word out (word_epoll r x)
unfolding WordWhole word_epoll
word_epoll-WordWhole word out success x h = h
word_epoll-WordWhole word out (failure e) x h = tt

send_word-WordWhole :
    (size : ℕ) (ts : List SendTurn) (retry : Bool) (out : List ℕ)
    → WordWhole (header size) out (send_word ts retry (header size) out)
unfolding WordWhole send_word
send_word-WordWhole size [] retry out = tt
send_word-WordWhole size (t ∷ ts) retry out =
    word_epoll-WordWhole (header size) out t.epoll
      (word_turn (λ r o. send_word ts r (header size) o) ts retry t.reopen (header size) out t.send)
      (word_turn-WordWhole size (λ r o. send_word ts r (header size) o)
        (λ r o. send_word-WordWhole size ts r o) ts retry t.reopen out t.send)

-- What a connection has when the function returns 0.
SendWhole : List ℕ → List ℕ → SendResult → Type 0
SendWhole frame out (send_done o) = (o ≡ out ++ frame) ⊎ (o ≡ frame)
SendWhole frame out _ = Unit

BodyWhole-SendWhole :
    (message word out o : List ℕ) (r : SendResult)
    → ((o ≡ out ++ word) ⊎ (o ≡ word))
    → BodyWhole (o ++ message) r
    → SendWhole (word ++ message) out r
unfolding BodyWhole SendWhole
BodyWhole-SendWhole message word out o (send_done o') (inl e) h =
    inl (h ∙ ap (λ l. l ++ message) e ∙ append_assoc out word message)
BodyWhole-SendWhole message word out o (send_done o') (inr e) h = inr (h ∙ ap (λ l. l ++ message) e)
BodyWhole-SendWhole message word out o send_blocked e h = tt
BodyWhole-SendWhole message word out o (send_failed n) e h = tt

after_word-SendWhole :
    (message word out : List ℕ) (r : WordResult)
    → WordWhole word out r
    → SendWhole (word ++ message) out (after_word message r)
unfolding WordWhole SendWhole after_word
after_word-SendWhole message word out word_blocked h = tt
after_word-SendWhole message word out (word_failed e) h = tt
after_word-SendWhole message word out (word_sent ts o) h =
    BodyWhole-SendWhole message word out o (send_body ts message o) h
      (send_body-BodyWhole ts message o)

unless-SendWhole :
    (frame out : List ℕ) (too_large : Bool) (r : SendResult)
    → SendWhole frame out r
    → SendWhole frame out (if too_large then send_failed einval else r)
unfolding SendWhole
unless-SendWhole frame out true r h = tt
unless-SendWhole frame out false r h = h

-- When gpm_send_buffer returns 0, the connection has the message once, behind its length, after all
-- that was sent over it before, or alone if the socket was reopened: whatever the system calls did.
pub send_buffer_whole :
    (ts : List SendTurn) (message out o : List ℕ)
    → send_buffer ts message out ≡ send_done o
    → (o ≡ out ++ (header (length message) ++ message)) ⊎ (o ≡ header (length message) ++ message)
unfolding send_buffer SendWhole
send_buffer_whole ts message out o e =
    subst (λ r. SendWhole (header (length message) ++ message) out r) e
      (unless-SendWhole (header (length message) ++ message) out (ltb max_rpc_size (length message))
        (after_word message (send_word ts false (header (length message)) out))
        (after_word-SendWhole message (header (length message)) out
          (send_word ts false (header (length message)) out)
          (send_word-WordWhole (length message) ts false out)))

-- Turns that send what is left of a message: each is let through by gpm_epoll_wait, and takes some
-- bytes or is interrupted, until nothing is left.
pub data Carries : List SendTurn → List ℕ → Type 0 where
  nothing_left : {ts : List SendTurn} → Carries ts []
  takes :
      {t : SendTurn} {ts : List SendTurn} {left : List ℕ} {n : ℕ}
      → t.epoll ≡ success
      → t.send ≡ sent n
      → Carries ts (drop n left)
      → Carries (t ∷ ts) left
  interrupted :
      {t : SendTurn} {ts : List SendTurn} {left : List ℕ}
      → t.epoll ≡ success
      → t.send ≡ unsent eintr
      → Carries ts left
      → Carries (t ∷ ts) left

send_body-Carries :
    (ts : List SendTurn) (left out : List ℕ)
    → Carries ts left
    → send_body ts left out ≡ send_done (out ++ left)
unfolding send_body body_turn body_epoll
send_body-Carries ts [] out c = ap send_done (sym (append-nil out))
send_body-Carries (t ∷ ts) (b ∷ bs) out (takes {n} up now later) =
    rw (up, now)
      (send_body-Carries ts (drop n (b ∷ bs)) (out ++ take n (b ∷ bs)) later
        ∙ ap send_done (
            append_assoc out (take n (b ∷ bs)) (drop n (b ∷ bs))
            ∙ ap (λ l. out ++ l) (take-drop n (b ∷ bs))))
send_body-Carries (t ∷ ts) (b ∷ bs) out (interrupted up now later) =
    rw (up, now) (send_body-Carries ts (b ∷ bs) out later)
send_body-Carries [] (b ∷ bs) out c = elim c [ ]

send_word_first :
    (t : SendTurn) (ts : List SendTurn) (size : ℕ) (out : List ℕ)
    → t.epoll ≡ success
    → t.send ≡ sent 4
    → send_word (t ∷ ts) false (header size) out ≡ word_sent ts (out ++ header size)
unfolding send_word word_turn word_epoll header htonl
send_word_first t ts size out up word = rw (up, word) refl

-- A message of at most MAX_RPC_SIZE is sent, behind its length and on the same connection, when the
-- socket lets each turn through, the first takes the four bytes of the length, and the others take
-- the message in whatever pieces, with interruptions: gpm_send_buffer returns 0.
pub send_buffer-Carries :
    (t : SendTurn) (ts : List SendTurn) (message out : List ℕ)
    → length message ≤ max_rpc_size
    → t.epoll ≡ success
    → t.send ≡ sent 4
    → Carries ts message
    → send_buffer (t ∷ ts) message out ≡ send_done (out ++ (header (length message) ++ message))
unfolding send_buffer after_word
send_buffer-Carries t ts message out small up word c =
    ap
      (λ large.
        if large
        then send_failed einval
        else after_word message (send_word (t ∷ ts) false (header (length message)) out))
      (le→ltb (length message) max_rpc_size small)
    ∙ ap (after_word message) (send_word_first t ts (length message) out up word)
    ∙ send_body-Carries ts message (out ++ header (length message)) c
    ∙ ap send_done (append_assoc out (header (length message)) message)
