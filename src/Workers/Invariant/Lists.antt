-- ===== src/Workers/Invariant/Lists.antt =====
-- The lists of threads and the queries of the threads, at each step: src/gp_workers.c.
use gssproxy.Prelude.{ℕ, ◌+◌, ◌<◌, ◌≡◌, [], ◌∷◌, none, some, true, false, ltb, if◌then◌else◌, arith}
use gssproxy.Workers.Family.{count, count-head, count-list_add, count-list_del}
use gssproxy.Workers.State.{Query, handled, Pool}
use gssproxy.Workers.Step.{
  query_new, query_assign, query_wait, query_hand, read_pipe, take_reply, next_waiting, shut_down,
  joined, worker_enter, worker_grab, worker_woken, worker_handle, worker_put, worker_signal, Step,
  accepts, assigns, waits, hands, reads, takes, nexts, shuts, stops, joins, enters, grabs, wakes,
  handles, puts, signals,
}
use gssproxy.Workers.Invariant.{Inv}

abbrev pub Listed : ℕ → Pool → Type 0
Listed n p = (t : ℕ) → count t p.free_list + count t p.busy_list ≡ (if ltb t n then 1 else 0)

-- A thread that has a reply to put back is busy.
pub put_busy :
    {n : ℕ} {p : Pool} (t : ℕ) (q : Query) → Inv n p → p.pc t ≡ handled q → 0 < count t p.busy_list
put_busy t q inv e = ground (arith, inv.single t)

module _ {n size : ℕ} {handle : Query → Query} where
  pub Step-Listed :
      {p p' : Pool} → Step n size handle p p' → p'.shutdown ≡ false → Inv n p → Listed n p'
  unfolding query_new query_assign query_wait query_hand read_pipe take_reply next_waiting shut_down
      joined worker_enter worker_grab worker_woken worker_handle worker_put worker_signal
  Step-Listed (assigns q [] e d) up inv t = inv.listed t
  Step-Listed {p} (assigns q (s ∷ ts) e d) up inv t = ground (
    arith,
    inv.listed t,
    count-list_add t p.busy_list s,
    count-list_del t p.free_list s,
    count-head s ts,
  )
  Step-Listed {p} (puts s q false lt e d) up inv t = ground (
    arith,
    inv.listed t,
    count-list_add t p.free_list s,
    count-list_del t p.busy_list s,
    put_busy s q inv e,
  )
  Step-Listed (puts s q true lt e d) up inv t = inv.listed t
  Step-Listed (accepts q e) up inv t = inv.listed t
  Step-Listed (waits q e) up inv t = inv.listed t
  Step-Listed (hands q s e) up inv t = inv.listed t
  Step-Listed (reads e h) up inv t = inv.listed t
  Step-Listed (takes [] e d) up inv t = inv.listed t
  Step-Listed (takes (r ∷ rs) e d) up inv t = inv.listed t
  Step-Listed (nexts [] e d) up inv t = inv.listed t
  Step-Listed (nexts (r ∷ rs) e d) up inv t = inv.listed t
  Step-Listed (shuts e) up inv t = cc
  Step-Listed (stops free busy e f g) up inv t = absurd (ground (arith, inv.steady))
  Step-Listed (joins s e d) up inv t = inv.listed t
  Step-Listed (enters s true lt e d) up inv t = inv.listed t
  Step-Listed (enters s false lt e d) up inv t = inv.listed t
  Step-Listed (grabs s none lt e d) up inv t = inv.listed t
  Step-Listed (grabs s (some q) lt e d) up inv t = inv.listed t
  Step-Listed (wakes s true o lt e d f) up inv t = inv.listed t
  Step-Listed (wakes s false none lt e d f) up inv t = inv.listed t
  Step-Listed (wakes s false (some q) lt e d f) up inv t = inv.listed t
  Step-Listed (handles s q lt e) up inv t = inv.listed t
  Step-Listed (signals s lt e) up inv t = ground (arith, inv.listed t)
