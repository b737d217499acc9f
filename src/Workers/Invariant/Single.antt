-- ===== src/Workers/Invariant/Single.antt =====
-- The query of each thread, and where the dispatcher is, at each step: src/gp_workers.c.
use gssproxy.Prelude.{ℕ, ◌+◌, ◌≡◌, refl, [], ◌∷◌, none, some, true, false, arith}
use gssproxy.Workers.Family.{count, count-list_add, count-list_del}
use gssproxy.Workers.State.{Query, Pc, asleep, Pool}
use gssproxy.Workers.Step.{
  query_new, query_assign, query_wait, signal, query_hand, read_pipe, take_reply, next_waiting,
  shut_down, joined, worker_enter, worker_grab, worker_woken, worker_handle, worker_put,
  worker_signal, Step, accepts, assigns, waits, hands, reads, takes, nexts, shuts, stops, joins,
  enters, grabs, wakes, handles, puts, signals,
}
use gssproxy.Workers.Invariant.{Inv, has_query, works, hands_to, downs}
use gssproxy.Workers.Invariant.Lists.{put_busy}

works-signal : (c : Pc) → works (signal c) ≡ works c
unfolding signal
works-signal asleep = refl
works-signal c = refl

abbrev pub Single : Pool → Type 0
Single p =
    (t : ℕ) → has_query (p.query t) + works (p.pc t) + hands_to p.dispatcher t ≡ count t p.busy_list

module _ {n size : ℕ} {handle : Query → Query} where
  pub Step-Single :
      {p p' : Pool} → Step n size handle p p' → p'.shutdown ≡ false → Inv n p → Single p'
  unfolding query_new query_assign query_wait query_hand read_pipe take_reply next_waiting shut_down
      joined worker_enter worker_grab worker_woken worker_handle worker_put worker_signal
  Step-Single {p} (accepts q e) up inv t = ground (arith, inv.single t)
  Step-Single {p} (assigns q [] e d) up inv t = ground (arith, inv.single t)
  Step-Single {p} (assigns q (s ∷ ts) e d) up inv t =
      ground (arith, inv.single t, count-list_add t p.busy_list s)
  Step-Single {p} (waits q e) up inv t = ground (arith, inv.single t)
  Step-Single {p} (hands q s e) up inv t =
      ground (arith, inv.single t, inv.single s, inv.listed t, works-signal (p.pc s))
  Step-Single {p} (reads e h) up inv t = ground (arith, inv.single t)
  Step-Single {p} (takes [] e d) up inv t = ground (arith, inv.single t)
  Step-Single {p} (takes (r ∷ rs) e d) up inv t = ground (arith, inv.single t)
  Step-Single {p} (nexts [] e d) up inv t = ground (arith, inv.single t)
  Step-Single {p} (nexts (r ∷ rs) e d) up inv t = ground (arith, inv.single t)
  Step-Single {p} (shuts e) up inv t = cc
  Step-Single {p} (stops free busy e f g) up inv t = absurd (ground (arith, inv.steady))
  Step-Single {p} (joins s e d) up inv t = ground (arith, inv.single t)
  Step-Single {p} (enters s true lt e d) up inv t = ground (arith, inv.single t)
  Step-Single {p} (enters s false lt e d) up inv t = ground (arith, inv.single t)
  Step-Single {p} (grabs s none lt e d) up inv t = ground (arith, inv.single t)
  Step-Single {p} (grabs s (some q) lt e d) up inv t = ground (arith, inv.single t)
  Step-Single {p} (wakes s true o lt e d f) up inv t = ground (arith, inv.single t)
  Step-Single {p} (wakes s false none lt e d f) up inv t = ground (arith, inv.single t)
  Step-Single {p} (wakes s false (some q) lt e d f) up inv t = ground (arith, inv.single t)
  Step-Single {p} (handles s q lt e) up inv t = ground (arith, inv.single t)
  Step-Single {p} (puts s q true lt e d) up inv t = ground (arith, inv.single t)
  Step-Single {p} (puts s q false lt e d) up inv t =
      ground (arith, inv.single t, count-list_del t p.busy_list s, put_busy s q inv e)
  Step-Single {p} (signals s lt e) up inv t = ground (arith, inv.single t)

  pub Step-steady :
      {p p' : Pool}
      → Step n size handle p p'
      → p'.shutdown ≡ false
      → Inv n p
      → downs p'.dispatcher ≡ 0
  unfolding query_new query_assign query_wait query_hand read_pipe take_reply next_waiting shut_down
      joined worker_enter worker_grab worker_woken worker_handle worker_put worker_signal
  Step-steady (accepts q e) up inv = ground (arith, inv.steady)
  Step-steady (assigns q [] e d) up inv = ground (arith, inv.steady)
  Step-steady (assigns q (s ∷ ts) e d) up inv = ground (arith, inv.steady)
  Step-steady (waits q e) up inv = ground (arith, inv.steady)
  Step-steady (hands q s e) up inv = ground (arith, inv.steady)
  Step-steady (reads e h) up inv = ground (arith, inv.steady)
  Step-steady (takes [] e d) up inv = ground (arith, inv.steady)
  Step-steady (takes (r ∷ rs) e d) up inv = ground (arith, inv.steady)
  Step-steady (nexts [] e d) up inv = ground (arith, inv.steady)
  Step-steady (nexts (r ∷ rs) e d) up inv = ground (arith, inv.steady)
  Step-steady (shuts e) up inv = cc
  Step-steady (stops free busy e f g) up inv = absurd (ground (arith, inv.steady))
  Step-steady (joins s e d) up inv = absurd (ground (arith, inv.steady))
  Step-steady (enters s true lt e d) up inv = ground (arith, inv.steady)
  Step-steady (enters s false lt e d) up inv = ground (arith, inv.steady)
  Step-steady (grabs s none lt e d) up inv = ground (arith, inv.steady)
  Step-steady (grabs s (some q) lt e d) up inv = ground (arith, inv.steady)
  Step-steady (wakes s true o lt e d f) up inv = ground (arith, inv.steady)
  Step-steady (wakes s false none lt e d f) up inv = ground (arith, inv.steady)
  Step-steady (wakes s false (some q) lt e d f) up inv = ground (arith, inv.steady)
  Step-steady (handles s q lt e) up inv = ground (arith, inv.steady)
  Step-steady (puts s q true lt e d) up inv = ground (arith, inv.steady)
  Step-steady (puts s q false lt e d) up inv = ground (arith, inv.steady)
  Step-steady (signals s lt e) up inv = ground (arith, inv.steady)
