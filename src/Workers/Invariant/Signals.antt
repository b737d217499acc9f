-- ===== src/Workers/Invariant/Signals.antt =====
-- The replies and their signals, and who looks at the wait list, at each step: src/gp_workers.c.
use gssproxy.Prelude.{
  ℕ, ◌+◌, ◌<◌, ◌≡◌, refl, List, [], ◌∷◌, ◌≤◌, none, some, true, false, arith, length,
}
use gssproxy.Workers.Family.{count, list_add, total, total-update}
use gssproxy.Workers.State.{
  Query, Pc, top, entered, asleep, handling, handled, signalling, exited, Pool,
}
use gssproxy.Workers.Step.{
  query_new, query_assign, query_wait, signal, query_hand, read_pipe, take_reply, next_waiting,
  shut_down, joined, worker_enter, worker_grab, worker_woken, worker_handle, worker_put,
  worker_signal, Step, accepts, assigns, waits, hands, reads, takes, nexts, shuts, stops, joins,
  enters, grabs, wakes, handles, puts, signals,
}
use gssproxy.Workers.Invariant.{Inv, signs, taken, queued, looking}

signs-signal : (c : Pc) → signs (signal c) ≡ signs c
unfolding signal
signs-signal asleep = refl
signs-signal c = refl

-- A thread that is in a list is one of the pool.
pub thread_lt : {n : ℕ} {p : Pool} (t : ℕ) → Inv n p → 0 < count t p.busy_list → t < n
thread_lt t inv h = ground (arith, inv.listed t)

count-le-length : (t : ℕ) (ts : List ℕ) → count t ts ≤ length ts
unfolding count
count-le-length t [] = omega arith
count-le-length t (s ∷ ts) = ground (arith, count-le-length t ts)

count-nil : (t : ℕ) → count t [] ≡ 0
unfolding count
count-nil t = refl

list_add-length : (ts : List ℕ) (t : ℕ) → length (list_add ts t) ≡ length ts + 1
unfolding list_add
list_add-length ts t = omega arith

abbrev pub Signalled : ℕ → Pool → Type 0
Signalled n p = length p.reply_list ≡ p.pipe + total signs n p.pc + taken p.dispatcher + p.lost

abbrev pub Watched : ℕ → Pool → Type 0
Watched n p =
    0 < length p.wait_list + queued p.dispatcher
    → 0 < length p.busy_list + total signs n p.pc + p.pipe + looking p.dispatcher + p.lost

module _ {n size : ℕ} {handle : Query → Query} where
  pub Step-Signalled :
      {p p' : Pool} → Step n size handle p p' → p'.shutdown ≡ false → Inv n p → Signalled n p'
  unfolding query_new query_assign query_wait query_hand read_pipe take_reply next_waiting shut_down
      joined worker_enter worker_grab worker_woken worker_handle worker_put worker_signal
  Step-Signalled {p} (accepts q e) up inv = ground (arith, inv.signalled)
  Step-Signalled {p} (assigns q [] e d) up inv = ground (arith, inv.signalled)
  Step-Signalled {p} (assigns q (s ∷ ts) e d) up inv = ground (arith, inv.signalled)
  Step-Signalled {p} (waits q e) up inv = ground (arith, inv.signalled)
  Step-Signalled {p} (hands q s e) up inv = ground (
    arith,
    inv.signalled,
    inv.single s,
    thread_lt s inv,
    signs-signal (p.pc s),
    total-update signs n p.pc s (signal (p.pc s)),
  )
  Step-Signalled {p} (reads e h) up inv = ground (arith, inv.signalled)
  Step-Signalled {p} (takes [] e d) up inv = ground (arith, inv.signalled)
  Step-Signalled {p} (takes (r ∷ rs) e d) up inv = ground (arith, inv.signalled)
  Step-Signalled {p} (nexts [] e d) up inv = ground (arith, inv.signalled)
  Step-Signalled {p} (nexts (r ∷ rs) e d) up inv = ground (arith, inv.signalled)
  Step-Signalled {p} (shuts e) up inv = cc
  Step-Signalled {p} (stops free busy e f g) up inv = absurd (ground (arith, inv.steady))
  Step-Signalled {p} (joins s e d) up inv = ground (arith, inv.signalled)
  Step-Signalled {p} (enters s true lt e d) up inv =
      ground (arith, inv.signalled, total-update signs n p.pc s exited lt)
  Step-Signalled {p} (enters s false lt e d) up inv =
      ground (arith, inv.signalled, total-update signs n p.pc s entered lt)
  Step-Signalled {p} (grabs s none lt e d) up inv =
      ground (arith, inv.signalled, total-update signs n p.pc s asleep lt)
  Step-Signalled {p} (grabs s (some q) lt e d) up inv =
      ground (arith, inv.signalled, total-update signs n p.pc s (handling q) lt)
  Step-Signalled {p} (wakes s true o lt e d f) up inv =
      ground (arith, inv.signalled, total-update signs n p.pc s exited lt)
  Step-Signalled {p} (wakes s false none lt e d f) up inv =
      ground (arith, inv.signalled, total-update signs n p.pc s asleep lt)
  Step-Signalled {p} (wakes s false (some q) lt e d f) up inv =
      ground (arith, inv.signalled, total-update signs n p.pc s (handling q) lt)
  Step-Signalled {p} (handles s q lt e) up inv =
      ground (arith, inv.signalled, total-update signs n p.pc s (handled (handle q)) lt)
  Step-Signalled {p} (puts s q true lt e d) up inv =
      ground (arith, inv.signalled, total-update signs n p.pc s signalling lt)
  Step-Signalled {p} (puts s q false lt e d) up inv =
      ground (arith, inv.signalled, total-update signs n p.pc s signalling lt)
  Step-Signalled {p} (signals s lt e) up inv =
      ground (arith, inv.signalled, total-update signs n p.pc s top lt)

  pub Step-Watched :
      {p p' : Pool} → 0 < n → Step n size handle p p' → p'.shutdown ≡ false → Inv n p → Watched n p'
  unfolding query_new query_assign query_wait query_hand read_pipe take_reply next_waiting shut_down
      joined worker_enter worker_grab worker_woken worker_handle worker_put worker_signal
  Step-Watched {p} pos (accepts q e) up inv = λ h. ground (arith, inv.watched)
  Step-Watched {p} pos (assigns q [] e d) up inv =
      λ h. ground (arith, inv.watched, inv.listed 0, count-nil 0, count-le-length 0 p.busy_list)
  Step-Watched {p} pos (assigns q (s ∷ ts) e d) up inv =
      λ h. ground (arith, list_add-length p.busy_list s)
  Step-Watched {p} pos (waits q e) up inv = λ h. ground (arith, inv.watched)
  Step-Watched {p} pos (hands q s e) up inv = λ h. ground (
    arith,
    inv.watched,
    inv.single s,
    thread_lt s inv,
    count-le-length s p.busy_list,
    signs-signal (p.pc s),
    total-update signs n p.pc s (signal (p.pc s)),
  )
  Step-Watched {p} pos (reads e h) up inv = λ h. ground (arith, inv.watched)
  Step-Watched {p} pos (takes [] e d) up inv = λ h. ground (arith, inv.watched)
  Step-Watched {p} pos (takes (r ∷ rs) e d) up inv = λ h. ground (arith, inv.watched)
  Step-Watched {p} pos (nexts [] e d) up inv = λ h. ground (arith, inv.watched)
  Step-Watched {p} pos (nexts (r ∷ rs) e d) up inv = λ h. ground (arith, inv.watched)
  Step-Watched {p} pos (shuts e) up inv = λ h. cc
  Step-Watched {p} pos (stops free busy e f g) up inv = λ h. absurd (ground (arith, inv.steady))
  Step-Watched {p} pos (joins s e d) up inv = λ h. ground (arith, inv.watched)
  Step-Watched {p} pos (enters s true lt e d) up inv =
      λ h. ground (arith, inv.watched, total-update signs n p.pc s exited lt)
  Step-Watched {p} pos (enters s false lt e d) up inv =
      λ h. ground (arith, inv.watched, total-update signs n p.pc s entered lt)
  Step-Watched {p} pos (grabs s none lt e d) up inv =
      λ h. ground (arith, inv.watched, total-update signs n p.pc s asleep lt)
  Step-Watched {p} pos (grabs s (some q) lt e d) up inv =
      λ h. ground (arith, inv.watched, total-update signs n p.pc s (handling q) lt)
  Step-Watched {p} pos (wakes s true o lt e d f) up inv =
      λ h. ground (arith, inv.watched, total-update signs n p.pc s exited lt)
  Step-Watched {p} pos (wakes s false none lt e d f) up inv =
      λ h. ground (arith, inv.watched, total-update signs n p.pc s asleep lt)
  Step-Watched {p} pos (wakes s false (some q) lt e d f) up inv =
      λ h. ground (arith, inv.watched, total-update signs n p.pc s (handling q) lt)
  Step-Watched {p} pos (handles s q lt e) up inv =
      λ h. ground (arith, inv.watched, total-update signs n p.pc s (handled (handle q)) lt)
  Step-Watched {p} pos (puts s q true lt e d) up inv =
      λ h. ground (arith, inv.watched, total-update signs n p.pc s signalling lt)
  Step-Watched {p} pos (puts s q false lt e d) up inv =
      λ h. ground (arith, inv.watched, total-update signs n p.pc s signalling lt)
  Step-Watched {p} pos (signals s lt e) up inv =
      λ h. ground (arith, inv.watched, total-update signs n p.pc s top lt)
