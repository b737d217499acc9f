-- ===== src/Workers/Shutdown.antt =====
-- The shutdown of src/gp_workers.c: gp_workers_free signals a thread once, and a thread that is past
-- its test of shutdown and not yet in pthread_cond_wait misses the signal. Threads are modelled without
-- the spurious wakeups that POSIX allows.
use gssproxy.Prelude.{ℕ, suc, ◌≡◌, refl, [], ◌∷◌, none, some, true, false, arith}
use gssproxy.Workers.Family.{list_del}
use gssproxy.Workers.State.{Query, asleep, joining, Pool, threads, workers_init}
use gssproxy.Workers.Step.{
  query_new, query_assign, query_wait, signal, query_hand, read_pipe, take_reply, next_waiting,
  shut_down, stop_next, joined, worker_enter, worker_grab, worker_woken, worker_handle, worker_put,
  worker_signal, Step, accepts, assigns, waits, hands, reads, takes, nexts, shuts, stops, joins,
  enters, grabs, wakes, handles, puts, signals, Reach, start, next,
}

-- Any number of steps.
pub data Steps (n size : ℕ) (handle : Query → Query) (p : Pool) : Pool → Type 0 where
  done : Steps n size handle p p
  more :
      {p' p'' : Pool}
      → Steps n size handle p p'
      → Step n size handle p' p''
      → Steps n size handle p p''

-- The dispatcher waits for a thread that nobody will wake.
abbrev pub Hangs : ℕ → Pool → Type 0
Hangs t p = (p.dispatcher ≡ joining t) × (p.pc t ≡ asleep)

module _ {n size : ℕ} {handle : Query → Query} where
  Step-Hangs : {t : ℕ} {p p' : Pool} → Step n size handle p p' → Hangs t p → Hangs t p'
  unfolding query_new query_assign query_wait query_hand read_pipe take_reply next_waiting shut_down
      stop_next joined worker_enter worker_grab worker_woken worker_handle worker_put worker_signal
  Step-Hangs {t} (accepts q e) (j, a) = ground arith
  Step-Hangs {t} (assigns q [] e d) (j, a) = ground arith
  Step-Hangs {t} (assigns q (s ∷ ts) e d) (j, a) = ground arith
  Step-Hangs {t} (waits q e) (j, a) = ground arith
  Step-Hangs {t} (hands q s e) (j, a) = ground arith
  Step-Hangs {t} (reads e h) (j, a) = ground arith
  Step-Hangs {t} (takes [] e d) (j, a) = ground arith
  Step-Hangs {t} (takes (x ∷ xs) e d) (j, a) = ground arith
  Step-Hangs {t} (nexts [] e d) (j, a) = ground arith
  Step-Hangs {t} (nexts (x ∷ xs) e d) (j, a) = ground arith
  Step-Hangs {t} (shuts e) (j, a) = ground arith
  Step-Hangs {t} (stops [] [] e g d) (j, a) = ground arith
  Step-Hangs {t} (stops [] (s ∷ ts) e g d) (j, a) = ground arith
  Step-Hangs {t} (stops (s ∷ ts) busy e g d) (j, a) = ground arith
  Step-Hangs {t} (joins s e d) (j, a) = ground arith
  Step-Hangs {t} (enters s true lt e d) (j, a) = ground arith
  Step-Hangs {t} (enters s false lt e d) (j, a) = ground arith
  Step-Hangs {t} (grabs s none lt e d) (j, a) = ground arith
  Step-Hangs {t} (grabs s (some q) lt e d) (j, a) = ground arith
  Step-Hangs {t} (wakes s true o lt e d g) (j, a) = ground arith
  Step-Hangs {t} (wakes s false none lt e d g) (j, a) = ground arith
  Step-Hangs {t} (wakes s false (some q) lt e d g) (j, a) = ground arith
  Step-Hangs {t} (handles s q lt e) (j, a) = ground arith
  Step-Hangs {t} (puts s q true lt e d) (j, a) = ground arith
  Step-Hangs {t} (puts s q false lt e d) (j, a) = ground arith
  Step-Hangs {t} (signals s lt e) (j, a) = ground arith

  Steps-Hangs : {t : ℕ} {p p' : Pool} → Steps n size handle p p' → Hangs t p → Hangs t p'
  Steps-Hangs done h = h
  Steps-Hangs (more ss s) h = Step-Hangs s (Steps-Hangs ss h)

module _ (m size : ℕ) (handle : Query → Query) where
  -- Thread m has passed its test of shutdown; the others have not run.
  abbrev tested : Pool
  tested = worker_enter m false (workers_init (suc m))

  abbrev signalled_early : Pool
  signalled_early = stop_next (threads (suc m)) [] (shut_down tested)

  abbrev pub hung : Pool
  hung = worker_grab m none signalled_early

  hung-Reach : Reach (suc m) size handle hung
  unfolding workers_init worker_enter shut_down stop_next worker_grab signal list_del
  hung-Reach =
      next
        (next (next (next start (enters m false (omega arith) refl refl)) (shuts refl))
          (stops (threads (suc m)) [] refl refl refl))
        (grabs m none (omega arith) (ground arith) refl)

  hung-Hangs : Hangs m hung
  unfolding workers_init worker_enter shut_down stop_next worker_grab signal
  hung-Hangs = (refl, ground arith)

  -- A pool of m + 1 threads can reach a state of its shutdown in which gp_workers_free waits in
  -- pthread_join for thread m, which sleeps in pthread_cond_wait, and from which every later state is
  -- one too: the shutdown hangs for ever.
  pub shutdown_may_hang :
      (p : Pool) × Reach (suc m) size handle p
      × ((p' : Pool) → Steps (suc m) size handle p p' → Hangs m p')
  shutdown_may_hang = (hung, hung-Reach, λ p' ss. Steps-Hangs ss hung-Hangs)
