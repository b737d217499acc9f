-- ===== src/Workers/State.antt =====
-- The state of src/gp_workers.c: struct gp_workers with its threads, where each thread and the
-- dispatcher stand in their code, and what has left the pool.
use gssproxy.Prelude.{
  arith, ◌<◌, ◌==◌, if◌then◌else◌, ℕ, List, [], Option, none, Bool, false, zero, suc, ◌∷◌,
}

-- GP_QUERY_IN, GP_QUERY_OUT and GP_QUERY_ERR
pub data Status : Type 0 where
  query_in query_out query_err : Status

-- struct gp_query, without its link: a list of queries is a List.
pub record Query : Type 0 where
  pub conn : ℕ
  pub buffer : List ℕ
  pub status : Status

-- Where a worker stands in gp_worker_main.
pub data Pc : Type 0 where
  top : Pc  -- at the test of the outer loop
  entered : Pc  -- past that test, before the test of t->query
  asleep : Pc  -- in pthread_cond_wait
  woken : Pc  -- signalled, before the test of shutdown
  handling : Query → Pc  -- before gp_handle_query
  handled : Query → Pc  -- before the pool lock
  signalling : Pc  -- before the write to sig_pipe
  exited : Pc

-- Where the dispatcher stands.
pub data Dispatcher : Type 0 where
  idle : Dispatcher  -- in the event loop
  assigning : Query → Dispatcher  -- at the start of gp_query_assign
  queueing : Query → Dispatcher  -- no thread was free, before the store in wait_list
  handing : Query → ℕ → Dispatcher  -- a thread was taken, before the store in t->query
  taking : Dispatcher  -- in gp_handle_reply, past the read of the pipe
  nexting : Dispatcher  -- there, before the look at wait_list
  stopping : Dispatcher  -- in a loop of gp_workers_free
  joining : ℕ → Dispatcher  -- in pthread_join
  stopped : Dispatcher

pub record Pool : Type 0 where
  pub shutdown : Bool
  pub wait_list : List Query
  pub reply_list : List Query
  pub free_list : List ℕ
  pub busy_list : List ℕ
  pub pipe : ℕ  -- bytes in sig_pipe
  pub query : ℕ → Option Query  -- t->query
  pub pc : ℕ → Pc
  pub dispatcher : Dispatcher
  pub accepted : List Query  -- all that gp_query_new was given
  pub replied : List Query  -- all that gp_handle_reply has sent or closed
  pub lost : ℕ  -- writes to sig_pipe that failed

-- LIST_ADD of the threads 0 to n - 1 in turn.
abbrev pub threads : ℕ → List ℕ
threads zero = []
threads (suc n) = n ∷ threads n

-- DEFAULT_WORKER_THREADS_NUM
abbrev pub default_worker_threads_num : ℕ
default_worker_threads_num = 5

-- The number of threads for config->num_workers, of which every number that is not positive is 0 here.
unfoldable pub num_threads : ℕ → ℕ
num_threads num_workers = if num_workers == 0 then default_worker_threads_num else num_workers

-- There is always a thread, as what is proved of a pool asks.
pub num_threads_positive : (num_workers : ℕ) → 0 < num_threads num_workers
unfolding num_threads
num_threads_positive num_workers = ground arith

-- gp_workers_init, where every call that it makes succeeds: all threads are free.
unfoldable pub workers_init : ℕ → Pool
workers_init n = record {
  shutdown = false;
  wait_list = [];
  reply_list = [];
  free_list = threads n;
  busy_list = [];
  pipe = 0;
  query = λ t. none;
  pc = λ t. top;
  dispatcher = idle;
  accepted = [];
  replied = [];
  lost = 0;
}
