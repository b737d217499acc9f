-- ===== src/Socket/Bounds.antt =====
-- The bounds of the buffer of gp_socket_read of src/gp_socket.c.
use gssproxy.Prelude.{
  ℕ, ◌+◌, ◌-◌, ◌≤◌, ◌<◌, ◌≡◌, refl, sym, List, [], ◌∷◌, ◌++◌, Option, some, none, Bool, true, false,
  length, ltb, leb, ◌==◌, not, if◌then◌else◌, arith, length-append, subst, ◌∙◌,
}
use gssproxy.Rpc.Procs.{max_rpc_size}
use gssproxy.Socket.Frame.{fragment_bit, ntohl}
use gssproxy.Socket.Read.{
  SysRead, got, again, fails, ReadBuffer, ReadResult, schedule_read, handed_over, conn_free, Event,
  data_ready, got_data, read_header, after_read, read_body, got_size, got_length, socket_read,
  run_reader,
}

-- A read gives no more bytes than it was asked for.
unfoldable pub Within : ℕ → SysRead → Type 0
Within n (got bytes) = length bytes ≤ n
Within n again = Unit
Within n fails = Unit

unfoldable pub declared : Option ℕ → ℕ
declared (some size) = size - fragment_bit
declared none = 0

unfoldable pub from_header : SysRead → ℕ
unfolding declared ntohl
from_header (got bytes) = declared (ntohl bytes)
from_header again = 0
from_header fails = 0

-- The bytes that the read of data of an event asks for: rbuf->size - rbuf->pos.
unfoldable pub asked : Event → ReadBuffer → ℕ
unfolding from_header
asked ev b = if b.allocated then b.size - b.pos else from_header ev.read_length

-- What holds of the buffer whenever the reader waits: `pos` counts what is stored, which fits the
-- memory, which is at most MAX_RPC_SIZE; without memory nothing is stored.
unfoldable pub IsReader : ReadBuffer → Type 0
IsReader b =
    (length b.stored ≡ b.pos)
    × (b.pos ≤ b.size)
    × (b.size ≤ max_rpc_size)
    × (b.allocated ≡ false → b.pos ≡ 0)

-- What holds of the result of an event.
unfoldable pub IsBounded : ReadResult → Type 0
IsBounded (schedule_read b) = IsReader b
IsBounded (handed_over packet) = (0 < length packet) × (length packet ≤ max_rpc_size)
IsBounded conn_free = Unit

true_not_false : ¬ (true ≡ false)
true_not_false p = subst (λ b. if b then Unit {0} else ⊥) p tt

if-IsBounded :
    (c : Bool)
    → (x y : ReadResult) → (c ≡ true → IsBounded x)
    → (c ≡ false → IsBounded y)
    → IsBounded (if c then x else y)
if-IsBounded true x y on_true on_false = on_true refl
if-IsBounded false x y on_true on_false = on_false refl

if_counted-IsBounded :
    (c : Bool)
    → (x y : ReadResult × ℕ) → (c ≡ true → IsBounded x.0)
    → (c ≡ false → IsBounded y.0)
    → IsBounded (if c then x else y).0
if_counted-IsBounded true x y on_true on_false = on_true refl
if_counted-IsBounded false x y on_true on_false = on_false refl

data_ready-IsBounded :
    (ok : Bool) → (b : ReadBuffer) → IsReader b → 0 < b.pos → IsBounded (data_ready ok b)
unfolding data_ready IsBounded IsReader
data_ready-IsBounded ok b (stored, fits, small, none_stored) some_bytes =
    if-IsBounded (b.pos == b.size) (if ok then handed_over b.stored else conn_free)
      (schedule_read b)
      (λ full.
        if-IsBounded ok (handed_over b.stored) conn_free
          (λ _. (omega (arith, some_bytes, stored), omega (arith, stored, fits, small))) (λ _. tt))
      (λ more. (stored, fits, small, none_stored))

ltb-false : {a b : ℕ} → ltb a b ≡ false → b ≤ a
ltb-false h = ground arith

got_data-IsBounded :
    (ev : Event)
    → (h : Bool) → (n : ℕ) → (b : ReadBuffer) → (r : SysRead) → IsReader b
    → b.allocated ≡ true
    → Within (b.size - b.pos) r
    → IsBounded (got_data ev h n b r).0
unfolding got_data IsBounded IsReader Within
got_data-IsBounded ev h n b (got bytes) (stored, fits, small, none_stored) alloc within =
    if_counted-IsBounded (length bytes == 0) (if not h then conn_free else schedule_read b, n)
      (data_ready ev.query_ok b', n + length bytes)
      (λ _.
        if-IsBounded (not h) conn_free (schedule_read b) (λ _. tt)
          (λ _. (stored, fits, small, none_stored)))
      (λ full.
        data_ready-IsBounded ev.query_ok b'
          (
            omega (arith, stored, length-append b.stored bytes),
            omega (arith, fits, within),
            small,
            λ unalloc. not_both alloc unalloc,
          )
          (positive full))
  where
    b' : ReadBuffer
    b' = record b { stored = b.stored ++ bytes; pos = b.pos + length bytes }

    not_both : b.allocated ≡ true → b.allocated ≡ false → b.pos + length bytes ≡ 0
    not_both is_true is_false = absurd (true_not_false (sym is_true ∙ is_false))

    positive : length bytes == 0 ≡ false → 0 < b.pos + length bytes
    positive full = ground arith
got_data-IsBounded ev h n b again is_reader alloc within = is_reader
got_data-IsBounded ev h n b fails is_reader alloc within = tt

got_length-IsBounded :
    (ev : Event)
    → (o : Option ℕ) → (b : ReadBuffer) → IsReader b
    → b.allocated ≡ false
    → Within (declared o) ev.read_data
    → IsBounded (got_length ev o b).0
unfolding got_length got_size read_body declared IsReader IsBounded
got_length-IsBounded ev none b is_reader unalloc within = tt
got_length-IsBounded ev (some size) b (stored, fits, small, none_stored) unalloc within =
    if_counted-IsBounded (leb fragment_bit size) (got_size_kept) (conn_free, 4)
      (λ _.
        if_counted-IsBounded (ltb max_rpc_size (size - fragment_bit)) (conn_free, 4)
          (if ev.malloc_ok then got_data ev true 4 b' ev.read_data else (conn_free, 4)) (λ _. tt)
          (λ fits_rpc.
            if_counted-IsBounded ev.malloc_ok (got_data ev true 4 b' ev.read_data) (conn_free, 4)
              (λ _.
                got_data-IsBounded ev true 4 b' ev.read_data (is_reader' fits_rpc) refl
                  (subst (λ n. Within n ev.read_data) (whole none_stored) within))
              (λ _. tt)))
      (λ _. tt)
  where
    b' : ReadBuffer
    b' = record b { allocated = true; size = size - fragment_bit }

    got_size_kept : ReadResult × ℕ
    got_size_kept =
        if ltb max_rpc_size (size - fragment_bit)
        then (conn_free, 4)
        else if ev.malloc_ok
        then got_data ev true 4 b' ev.read_data
        else (conn_free, 4)

    whole : (b.allocated ≡ false → b.pos ≡ 0) → size - fragment_bit ≡ size - fragment_bit - b.pos
    whole none_pos = omega (arith, none_pos unalloc)

    is_reader' : ltb max_rpc_size (size - fragment_bit) ≡ false → IsReader b'
    is_reader' fits_rpc =
        (stored, omega (arith, none_stored unalloc), ltb-false fits_rpc, λ no. none_stored unalloc)

read_header-IsBounded :
    (ev : Event)
    → (b : ReadBuffer) → (r : SysRead) → IsReader b
    → b.allocated ≡ false
    → Within (from_header r) ev.read_data
    → IsBounded (read_header ev b r).0
unfolding read_header from_header IsBounded
read_header-IsBounded ev b again is_reader unalloc within = is_reader
read_header-IsBounded ev b fails is_reader unalloc within = tt
read_header-IsBounded ev b (got bytes) is_reader unalloc within =
    got_length-IsBounded ev (ntohl bytes) b is_reader unalloc within

-- One event of a reader keeps the bounds of its buffer, and what it hands over is not empty and at
-- most MAX_RPC_SIZE long, when the read of data gives no more than it was asked for.
pub socket_read-IsBounded :
    (ev : Event)
    → (b : ReadBuffer) → IsReader b
    → Within (asked ev b) ev.read_data
    → IsBounded (socket_read ev b).0
unfolding socket_read read_body asked
socket_read-IsBounded ev b is_reader within =
    if_counted-IsBounded b.allocated (got_data ev false 0 b ev.read_data)
      (read_header ev b ev.read_length)
      (λ alloc.
        got_data-IsBounded ev false 0 b ev.read_data is_reader alloc
          (on_alloc b.allocated alloc within))
      (λ unalloc.
        read_header-IsBounded ev b ev.read_length is_reader unalloc
          (on_unalloc b.allocated unalloc within))
  where
    on_alloc :
        (c : Bool)
        → c ≡ true
        → Within (if c then b.size - b.pos else from_header ev.read_length) ev.read_data
        → Within (b.size - b.pos) ev.read_data
    on_alloc c eq w =
        subst (λ c. Within (if c then b.size - b.pos else from_header ev.read_length) ev.read_data)
          eq w

    on_unalloc :
        (c : Bool)
        → c ≡ false
        → Within (if c then b.size - b.pos else from_header ev.read_length) ev.read_data
        → Within (from_header ev.read_length) ev.read_data
    on_unalloc c eq w =
        subst (λ c. Within (if c then b.size - b.pos else from_header ev.read_length) ev.read_data)
          eq w

-- What a property says of the reader that waits, and of no other.
unfoldable pub OnWait : (ReadBuffer → Type 0) → ReadResult → Type 0
OnWait P (schedule_read b) = P b
OnWait P (handed_over packet) = Unit
OnWait P conn_free = Unit

-- Every read of data of a run gives no more than it was asked for.
unfoldable pub Obeys : List Event → ReadBuffer → Type 0
unfolding OnWait
Obeys [] b = Unit
Obeys (ev ∷ evs) b = Within (asked ev b) ev.read_data × OnWait (Obeys evs) (socket_read ev b).0

after_read-IsBounded :
    (evs : List Event)
    → ((b : ReadBuffer) → IsReader b → Obeys evs b → IsBounded (run_reader evs b))
    → (r : ReadResult) → IsBounded r
    → OnWait (Obeys evs) r
    → IsBounded (after_read (run_reader evs) r)
unfolding OnWait after_read IsBounded
after_read-IsBounded evs run (schedule_read b) is_reader later = run b is_reader later
after_read-IsBounded evs run (handed_over packet) fits later = fits
after_read-IsBounded evs run conn_free ok later = tt

-- A run of the reader over any events, from buffers within bounds, ends within bounds: what is
-- handed over is not empty and at most MAX_RPC_SIZE long, and the buffer of a reader that still
-- waits has room for what it stores; each read of data gives no more than it was asked for.
pub run_reader-IsBounded :
    (evs : List Event) → (b : ReadBuffer) → IsReader b → Obeys evs b → IsBounded (run_reader evs b)
unfolding run_reader Obeys IsBounded OnWait after_read
run_reader-IsBounded [] b is_reader obeys = is_reader
run_reader-IsBounded (ev ∷ evs) b is_reader (within, later) =
    after_read-IsBounded evs (λ b' is_reader' obeys. run_reader-IsBounded evs b' is_reader' obeys)
      (socket_read ev b).0 (socket_read-IsBounded ev b is_reader within) later
