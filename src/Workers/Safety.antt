-- ===== src/Workers/Safety.antt =====
-- What holds of every reachable state of the pool of src/gp_workers.c before its shutdown.
use gssproxy.Prelude.{
  ℕ, zero, suc, ◌<◌, ◌≡◌, refl, [], ◌∷◌, none, some, true, false, ltb, if◌then◌else◌, arith,
}
use gssproxy.Workers.Family.{count, total-constant}
use gssproxy.Workers.State.{Query, top, handing, Pool, threads, workers_init}
use gssproxy.Workers.Step.{
  query_new, query_assign, query_wait, query_hand, read_pipe, take_reply, next_waiting, shut_down,
  stop_next, joined, worker_enter, worker_grab, worker_woken, worker_handle, worker_put,
  worker_signal, Step, accepts, assigns, waits, hands, reads, takes, nexts, shuts, stops, joins,
  enters, grabs, wakes, handles, puts, signals, Reach, start, next,
}
use gssproxy.Workers.Invariant.{Inv, works, signs}
use gssproxy.Workers.Invariant.Lists.{Step-Listed}
use gssproxy.Workers.Invariant.Single.{Step-Single, Step-steady}
use gssproxy.Workers.Invariant.Signals.{Step-Signalled, Step-Watched}

count-threads : (t n : ℕ) → count t (threads n) ≡ (if ltb t n then 1 else 0)
unfolding count
count-threads t zero = ground arith
count-threads t (suc n) = ground (arith, count-threads t n)

workers_init-Inv : (n : ℕ) → Inv n (workers_init n)
unfolding workers_init count
workers_init-Inv n = record {
  running = refl;
  steady = refl;
  listed = λ t. ground (arith, count-threads t n);
  single = λ t. refl;
  signalled = omega (arith, total-constant signs n top refl);
  watched = λ h. absurd (omega arith);
}

module _ {n size : ℕ} {handle : Query → Query} where
  -- A shutdown is for good.
  pub Step-running :
      {p p' : Pool} → Step n size handle p p' → p'.shutdown ≡ false → p.shutdown ≡ false
  unfolding query_new query_assign query_wait query_hand read_pipe take_reply next_waiting shut_down
      stop_next joined worker_enter worker_grab worker_woken worker_handle worker_put worker_signal
  Step-running (assigns q [] e d) up = up
  Step-running (assigns q (s ∷ ts) e d) up = up
  Step-running (takes [] e d) up = up
  Step-running (takes (r ∷ rs) e d) up = up
  Step-running (nexts [] e d) up = up
  Step-running (nexts (r ∷ rs) e d) up = up
  Step-running (stops [] [] e f g) up = up
  Step-running (stops [] (t ∷ ts) e f g) up = up
  Step-running (stops (t ∷ ts) busy e f g) up = up
  Step-running (enters s true lt e d) up = up
  Step-running (enters s false lt e d) up = up
  Step-running (grabs s none lt e d) up = up
  Step-running (grabs s (some q) lt e d) up = up
  Step-running (wakes s true o lt e d f) up = up
  Step-running (wakes s false none lt e d f) up = up
  Step-running (wakes s false (some q) lt e d f) up = up
  Step-running (puts s q true lt e d) up = up
  Step-running (puts s q false lt e d) up = up
  Step-running (signals s lt e) up = ground arith
  Step-running (accepts q e) up = up
  Step-running (waits q e) up = up
  Step-running (hands q s e) up = up
  Step-running (reads e h) up = up
  Step-running (shuts e) up = cc
  Step-running (joins s e d) up = up
  Step-running (handles s q lt e) up = up

  pub Reach-Inv : {p : Pool} → 0 < n → Reach n size handle p → p.shutdown ≡ false → Inv n p
  Reach-Inv pos start up = workers_init-Inv n
  Reach-Inv pos (next r s) up =
      let inv = Reach-Inv pos r (Step-running s up) in
      record {
        running = up;
        steady = Step-steady s up inv;
        listed = Step-Listed s up inv;
        single = Step-Single s up inv;
        signalled = Step-Signalled s up inv;
        watched = Step-Watched pos s up inv;
      }

  -- In a pool of at least one thread, before the shutdown, a thread that the dispatcher is about to
  -- hand a query to has no other: the store in t->query overwrites nothing.
  pub handing_overwrites_nothing :
      {p : Pool} (q : Query) (t : ℕ)
      → 0 < n
      → Reach n size handle p
      → p.shutdown ≡ false
      → p.dispatcher ≡ handing q t
      → (p.query t ≡ none) × (works (p.pc t) ≡ 0)
  handing_overwrites_nothing {p} q t pos r up e =
      let inv = Reach-Inv pos r up in
      let one = inv.single t in let once = inv.listed t in (ground arith, ground arith)
