-- ===== src/Workers/Step.antt =====
-- The dispatcher and the workers of src/gp_workers.c, one atomic action at a time: between two
-- actions any other thread may run.
use gssproxy.Prelude.{
  ℕ, ◌+◌, ◌-◌, ◌<◌, ◌≡◌, List, [], ◌∷◌, Option, none, some, Bool, true, false, ltb, if◌then◌else◌,
}
use gssproxy.Workers.Family.{update, list_add, list_del}
use gssproxy.Workers.State.{
  Query, Pc, top, entered, asleep, woken, handling, handled, signalling, exited, idle, assigning,
  queueing, handing, taking, nexting, stopping, joining, stopped, Pool, workers_init,
}

-- gp_query_new, up to its call of gp_query_assign.
unfoldable pub query_new : Query → Pool → Pool
query_new q p = record p { dispatcher = assigning q; accepted = q ∷ p.accepted }

-- gp_query_assign under the pool lock, on the free list.
unfoldable pub query_assign : Query → List ℕ → Pool → Pool
query_assign q [] p = record p { dispatcher = queueing q }
query_assign q (t ∷ ts) p = record p {
  free_list = list_del p.free_list t;
  busy_list = list_add p.busy_list t;
  dispatcher = handing q t;
}

-- All threads are busy: store in the wait list.
unfoldable pub query_wait : Query → Pool → Pool
query_wait q p = record p { wait_list = q ∷ p.wait_list; dispatcher = idle }

-- pthread_cond_signal wakes a thread that waits, and is lost on any other.
unfoldable pub signal : Pc → Pc
signal asleep = woken
signal pc = pc

-- Hand over the query, under the mutex of the thread.
unfoldable pub query_hand : Query → ℕ → Pool → Pool
unfolding signal
query_hand q t p = record p {
  query = update p.query t (some q);
  pc = update p.pc t (signal (p.pc t));
  dispatcher = idle;
}

-- gp_handle_reply: one byte of the pipe, one reply, one waiting query.
unfoldable pub read_pipe : Pool → Pool
read_pipe p = record p { pipe = p.pipe - 1; dispatcher = taking }

unfoldable pub take_reply : List Query → Pool → Pool
take_reply [] p = record p { dispatcher = nexting }
take_reply (q ∷ qs) p = record p { reply_list = qs; replied = q ∷ p.replied; dispatcher = nexting }

unfoldable pub next_waiting : List Query → Pool → Pool
next_waiting [] p = record p { dispatcher = idle }
next_waiting (q ∷ qs) p = record p { wait_list = qs; dispatcher = assigning q }

-- gp_workers_free.
unfoldable pub shut_down : Pool → Pool
shut_down p = record p { shutdown = true; dispatcher = stopping }

-- The two loops of gp_workers_free, on the free list and the busy list.
unfoldable pub stop_next : List ℕ → List ℕ → Pool → Pool
unfolding signal
stop_next [] [] p = record p { dispatcher = stopped }
stop_next [] (t ∷ ts) p = record p {
  busy_list = list_del p.busy_list t;
  pc = update p.pc t (signal (p.pc t));
  dispatcher = joining t;
}
stop_next (t ∷ ts) busy p = record p {
  free_list = list_del p.free_list t;
  pc = update p.pc t (signal (p.pc t));
  dispatcher = joining t;
}

unfoldable pub joined : Pool → Pool
joined p = record p { dispatcher = stopping }

-- gp_worker_main: the test of the outer loop, on shutdown.
unfoldable pub worker_enter : ℕ → Bool → Pool → Pool
worker_enter t true p = record p { pc = update p.pc t exited }
worker_enter t false p = record p { pc = update p.pc t entered }

-- The test of the inner loop, on t->query, under the mutex of the thread.
unfoldable pub worker_grab : ℕ → Option Query → Pool → Pool
worker_grab t none p = record p { pc = update p.pc t asleep }
worker_grab t (some q) p = record p {
  query = update p.query t none;
  pc = update p.pc t (handling q);
}

-- After pthread_cond_wait: the test of shutdown, and then that of t->query.
unfoldable pub worker_woken : ℕ → Bool → Option Query → Pool → Pool
unfolding worker_grab
worker_woken t true o p = record p { pc = update p.pc t exited }
worker_woken t false o p = worker_grab t o p

unfoldable pub worker_handle : (Query → Query) → ℕ → Query → Pool → Pool
worker_handle handle t q p = record p { pc = update p.pc t (handled (handle q)) }

-- Under the pool lock: the reply, and the thread back on the free list but in a shutdown.
unfoldable pub worker_put : ℕ → Query → Bool → Pool → Pool
worker_put t q true p = record p { reply_list = q ∷ p.reply_list; pc = update p.pc t signalling }
worker_put t q false p = record p {
  reply_list = q ∷ p.reply_list;
  busy_list = list_del p.busy_list t;
  free_list = list_add p.free_list t;
  pc = update p.pc t signalling;
}

-- The write to the pipe, which does not block: it fails on a full pipe.
unfoldable pub worker_signal : ℕ → ℕ → Pool → Pool
worker_signal size t p =
    if ltb p.pipe size
    then record p { pipe = p.pipe + 1; pc = update p.pc t top }
    else record p { lost = p.lost + 1; pc = update p.pc t top }

-- `n` threads, a pipe of `size` bytes, and gp_handle_query as `handle`.
module _ (n size : ℕ) (handle : Query → Query) where
  pub data Step (p : Pool) : Pool → Type 0 where
    accepts : (q : Query) → p.dispatcher ≡ idle → Step p (query_new q p)
    assigns :
        (q : Query) (free : List ℕ)
        → p.dispatcher ≡ assigning q
        → p.free_list ≡ free
        → Step p (query_assign q free p)
    waits : (q : Query) → p.dispatcher ≡ queueing q → Step p (query_wait q p)
    hands : (q : Query) (t : ℕ) → p.dispatcher ≡ handing q t → Step p (query_hand q t p)
    reads : p.dispatcher ≡ idle → 0 < p.pipe → Step p (read_pipe p)
    takes :
        (replies : List Query)
        → p.dispatcher ≡ taking
        → p.reply_list ≡ replies
        → Step p (take_reply replies p)
    nexts :
        (waiting : List Query)
        → p.dispatcher ≡ nexting
        → p.wait_list ≡ waiting
        → Step p (next_waiting waiting p)
    shuts : p.dispatcher ≡ idle → Step p (shut_down p)
    stops :
        (free busy : List ℕ)
        → p.dispatcher ≡ stopping
        → p.free_list ≡ free
        → p.busy_list ≡ busy
        → Step p (stop_next free busy p)
    joins : (t : ℕ) → p.dispatcher ≡ joining t → p.pc t ≡ exited → Step p (joined p)
    enters :
        (t : ℕ) (down : Bool)
        → t < n
        → p.pc t ≡ top
        → p.shutdown ≡ down
        → Step p (worker_enter t down p)
    grabs :
        (t : ℕ) (o : Option Query)
        → t < n
        → p.pc t ≡ entered
        → p.query t ≡ o
        → Step p (worker_grab t o p)
    wakes :
        (t : ℕ) (down : Bool) (o : Option Query)
        → t < n
        → p.pc t ≡ woken
        → p.shutdown ≡ down
        → p.query t ≡ o
        → Step p (worker_woken t down o p)
    handles :
        (t : ℕ) (q : Query) → t < n → p.pc t ≡ handling q → Step p (worker_handle handle t q p)
    puts :
        (t : ℕ) (q : Query) (down : Bool)
        → t < n
        → p.pc t ≡ handled q
        → p.shutdown ≡ down
        → Step p (worker_put t q down p)
    signals : (t : ℕ) → t < n → p.pc t ≡ signalling → Step p (worker_signal size t p)

  pub data Reach : Pool → Type 0 where
    start : Reach (workers_init n)
    next : {p p' : Pool} → Reach p → Step p p' → Reach p'
