-- ===== src/Socket/Reader.antt =====
-- What gp_socket_read of src/gp_socket.c makes of a message that comes in pieces, and the bounds of
-- what it hands over.
use gssproxy.Prelude.{
  ℕ, ◌+◌, ◌-◌, ◌≤◌, ◌<◌, ◌≡◌, refl, sym, List, [], ◌∷◌, ◌++◌, Bool, true, false, length,
  if◌then◌else◌, arith, length-append, append_assoc, ap, ◌∙◌,
}
use gssproxy.Rpc.Procs.{max_rpc_size}
use gssproxy.Socket.Frame.{fragment_bit, header, ntohl-header}
use gssproxy.Socket.Read.{
  got, again, ReadBuffer, setup_reader, ReadResult, schedule_read, handed_over, Event, data_ready,
  got_data, read_header, after_read, read_body, got_size, got_length, socket_read, run_reader,
}

-- The bytes of a message, in the pieces in which the events of the reader get them, none of them
-- empty, with events between that get nothing.
pub data Delivers : List Event → List ℕ → Type 0 where
  last :
      {ev : Event}
      → {evs : List Event} → {payload : List ℕ} → ev.read_data ≡ got payload
      → 0 < length payload
      → ev.query_ok ≡ true
      → Delivers (ev ∷ evs) payload
  more :
      {ev : Event}
      → {evs : List Event} → {payload chunk rest : List ℕ} → ev.read_data ≡ got chunk
      → 0 < length chunk
      → 0 < length rest
      → payload ≡ chunk ++ rest
      → Delivers evs rest
      → Delivers (ev ∷ evs) payload
  waits :
      {ev : Event}
      → {evs : List Event} → {payload : List ℕ} → ev.read_data ≡ again
      → Delivers evs payload
      → Delivers (ev ∷ evs) payload

-- The same from the start: the four bytes of the length come first.
pub data Arrives : List Event → List ℕ → Type 0 where
  starts :
      {ev : Event}
      → {evs : List Event} → {payload : List ℕ} → ev.read_length ≡ got (header (length payload))
      → ev.malloc_ok ≡ true
      → Delivers (ev ∷ evs) payload
      → Arrives (ev ∷ evs) payload
  idles :
      {ev : Event}
      → {evs : List Event} → {payload : List ℕ} → ev.read_length ≡ again
      → Arrives evs payload
      → Arrives (ev ∷ evs) payload

-- A reader that has what `pos` says, and waits for `rest` more.
Waits : ReadBuffer → ℕ → Type 0
Waits b rest = (b.allocated ≡ true) × (b.pos ≡ length b.stored) × (b.size ≡ b.pos + rest)

module _ (ev : Event) (h : Bool) (n : ℕ) (b : ReadBuffer) where
  -- The read of the last piece, of one that is not the last, and one that gets nothing.
  body-last :
      (payload : List ℕ)
      → ev.read_data ≡ got payload
      → 0 < length payload
      → ev.query_ok ≡ true
      → b.size ≡ b.pos + length payload
      → (read_body ev h n b).0 ≡ handed_over (b.stored ++ payload)
  unfolding read_body got_data data_ready
  body-last payload eq some_bytes ok size = ap (λ r. (got_data ev h n b r).0) eq ∙ ground arith

  body-more :
      (chunk : List ℕ)
      → (rest : ℕ) → ev.read_data ≡ got chunk
      → 0 < length chunk
      → 0 < rest
      → b.size ≡ b.pos + (length chunk + rest)
      → (read_body ev h n b).0
        ≡ schedule_read (record b { stored = b.stored ++ chunk; pos = b.pos + length chunk })
  unfolding read_body got_data data_ready
  body-more chunk rest eq some_bytes more_bytes size =
      ap (λ r. (got_data ev h n b r).0) eq ∙ ground arith

  body-waits : ev.read_data ≡ again → (read_body ev h n b).0 ≡ schedule_read b
  unfolding read_body got_data
  body-waits eq = ap (λ r. (got_data ev h n b r).0) eq

-- The run of a reader from an event that reads data.
run_body : List Event → Bool → ℕ → ReadBuffer → ReadResult
run_body [] h n b = schedule_read b
run_body (ev ∷ evs) h n b = after_read (run_reader evs) (read_body ev h n b).0

run_reader-run_body :
    (evs : List Event)
    → (b : ReadBuffer) → b.allocated ≡ true
    → run_reader evs b ≡ run_body evs false 0 b
unfolding run_reader run_body socket_read
run_reader-run_body [] b alloc = refl
run_reader-run_body (ev ∷ evs) b alloc =
    ap
      (λ a.
        after_read (run_reader evs)
          (if a then read_body ev false 0 b else read_header ev b ev.read_length).0)
      alloc

run_body-Delivers :
    (evs : List Event)
    → (payload : List ℕ) → (h : Bool) → (n : ℕ) → (b : ReadBuffer) → Delivers evs payload
    → Waits b (length payload)
    → run_body evs h n b ≡ handed_over (b.stored ++ payload)
unfolding run_body after_read Waits
run_body-Delivers [] payload h n b none_left _ = elim none_left [ ]
run_body-Delivers (ev ∷ evs) payload h n b (last eq some_bytes ok) (alloc, pos, size) =
    ap (after_read (run_reader evs)) (body-last ev h n b payload eq some_bytes ok size)
run_body-Delivers (ev ∷ evs) payload h n b
      (more {chunk} {rest} eq some_bytes more_bytes whole later) (alloc, pos, size) =
    ap (after_read (run_reader evs))
      (body-more ev h n b chunk (length rest) eq some_bytes more_bytes size')
    ∙ run_reader-run_body evs b' alloc
    ∙ run_body-Delivers evs rest false 0 b' later (alloc, pos', size'')
    ∙ ap handed_over (append_assoc b.stored chunk rest ∙ ap (λ p. b.stored ++ p) (sym whole))
  where
    b' : ReadBuffer
    b' = record b { stored = b.stored ++ chunk; pos = b.pos + length chunk }

    size' : b.size ≡ b.pos + (length chunk + length rest)
    size' = size ∙ ap (λ l. b.pos + l) (ap length whole ∙ length-append chunk rest)

    pos' : b.pos + length chunk ≡ length (b.stored ++ chunk)
    pos' = omega (arith, pos, length-append b.stored chunk)

    size'' : b.size ≡ b.pos + length chunk + length rest
    size'' = omega (arith, size')
run_body-Delivers (ev ∷ evs) payload h n b (waits eq later) (alloc, pos, size) =
    ap (after_read (run_reader evs)) (body-waits ev h n b eq)
    ∙ run_reader-run_body evs b alloc
    ∙ run_body-Delivers evs payload false 0 b later (alloc, pos, size)

-- The length that the header gives is taken, and the data is read in the same event.
got_size-starts :
    (ev : Event)
    → (evs : List Event) → (n : ℕ) → n ≤ max_rpc_size
    → ev.malloc_ok ≡ true
    → (got_size ev (n + fragment_bit) setup_reader).0
      ≡ (read_body ev true 4 (record setup_reader { allocated = true; size = n })).0
unfolding got_size
got_size-starts ev evs n small ok = ground (arith, add_sub n)
  where
    add_sub : (n : ℕ) → n + fragment_bit - fragment_bit ≡ n
    add_sub n = omega arith

-- A message of at least one byte and at most MAX_RPC_SIZE that comes with its length, in whatever
-- pieces and after whatever waits, is handed over as it was sent, when memory is there and
-- gp_query_new takes it.
pub run_reader-Arrives :
    (evs : List Event)
    → (payload : List ℕ) → length payload ≤ max_rpc_size
    → Arrives evs payload
    → run_reader evs setup_reader ≡ handed_over payload
unfolding run_reader socket_read after_read read_header got_length run_body Waits
run_reader-Arrives [] payload small none_left = elim none_left [ ]
run_reader-Arrives (ev ∷ evs) payload small (starts eq ok later) =
    ap (λ r. after_read (run_reader evs) (read_header ev setup_reader r).0) eq
    ∙ ap (λ s. after_read (run_reader evs) (got_length ev s setup_reader).0)
        (ntohl-header (length payload) (omega (arith, small)))
    ∙ ap (after_read (run_reader evs)) (got_size-starts ev evs (length payload) small ok)
    ∙ run_body-Delivers (ev ∷ evs) payload true 4
        (record setup_reader { allocated = true; size = length payload }) later
        (refl, refl, omega arith)
run_reader-Arrives (ev ∷ evs) payload small (idles eq later) =
    ap (λ r. after_read (run_reader evs) (read_header ev setup_reader r).0) eq
    ∙ run_reader-Arrives evs payload small later
