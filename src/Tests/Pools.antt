-- ===== src/Tests/Pools.antt =====
-- A pool of one thread at work, and its shutdown.
use gssproxy.Prelude.{ℕ, ◌+◌, ◌≡◌, refl, [], ◌∷◌, none, some, false, arith}
use gssproxy.Workers.Family.{list_add, list_del}
use gssproxy.Workers.State.{
  num_threads, num_threads_positive, query_in, query_out, Query, Pool, workers_init,
}
use gssproxy.Workers.Step.{
  query_new, query_assign, query_wait, signal, query_hand, worker_enter, worker_grab, worker_handle,
  worker_put, accepts, assigns, waits, hands, enters, grabs, handles, puts, Reach, start, next,
}
use gssproxy.Workers.Invariant.{works}
use gssproxy.Workers.Safety.{handing_overwrites_nothing}
use gssproxy.Workers.Conservation.{sum_of, inside, queries_conserved}
use gssproxy.Workers.Shutdown.{Steps, Hangs, shutdown_may_hang}

abbrev pipe_size : ℕ
pipe_size = 65536

-- A handler that answers with an empty buffer.
abbrev answer : Query → Query
answer q = record { conn = q.conn; buffer = []; status = query_out }

abbrev first : Query
first = record { conn = 3; buffer = 1 ∷ []; status = query_in }

abbrev second : Query
second = record { conn = 4; buffer = 2 ∷ []; status = query_in }

-- The thread is about to get the first query.
unfoldable assigned : Pool
unfolding workers_init query_new query_assign
assigned = query_assign first (0 ∷ []) (query_new first (workers_init 1))

assigned-Reach : Reach 1 pipe_size answer assigned
unfolding assigned workers_init query_new query_assign
assigned-Reach = next (next start (accepts first refl)) (assigns first (0 ∷ []) refl refl)

-- The second query waits for it.
unfoldable waiting : Pool
unfolding query_wait query_assign query_new query_hand
waiting =
    query_wait second (query_assign second [] (query_new second (query_hand first 0 assigned)))

waiting-Reach : Reach 1 pipe_size answer waiting
unfolding waiting assigned query_wait query_assign query_new query_hand list_del list_add
    workers_init
waiting-Reach =
    next
      (next (next (next assigned-Reach (hands first 0 refl)) (accepts second refl))
        (assigns second [] refl refl))
      (waits second refl)

-- The thread has put its reply and will write to the pipe.
unfoldable answered : Pool
unfolding worker_put worker_handle worker_grab worker_enter
answered =
    worker_put 0 (answer first) false
      (worker_handle answer 0 first (worker_grab 0 (some first) (worker_enter 0 false waiting)))

answered-Reach : Reach 1 pipe_size answer answered
unfolding answered waiting assigned worker_put worker_handle worker_grab worker_enter query_wait
    query_assign query_new query_hand signal list_del list_add workers_init
answered-Reach =
    next
      (next
        (next (next waiting-Reach (enters 0 false (omega arith) refl refl))
          (grabs 0 (some first) (omega arith) refl refl))
        (handles 0 first (omega arith) refl))
      (puts 0 (answer first) false (omega arith) refl refl)

handing_overwrites_nothing_example : (assigned.query 0 ≡ none) × (works (assigned.pc 0) ≡ 0)
unfolding assigned query_assign query_new workers_init
handing_overwrites_nothing_example =
    handing_overwrites_nothing first 0 (omega arith) assigned-Reach refl refl

-- The weight of a query that counts the queries of one connection.
abbrev of_connection : Query → ℕ
of_connection q = q.conn

queries_conserved_example :
    sum_of of_connection answered.accepted
    ≡ inside of_connection 1 answered + sum_of of_connection answered.replied
unfolding num_threads
queries_conserved_example =
    queries_conserved of_connection (λ q. refl) (num_threads_positive 1) answered-Reach

shutdown_may_hang_example :
    (p : Pool) × Reach 5 pipe_size answer p
    × ((p' : Pool) → Steps 5 pipe_size answer p p' → Hangs 4 p')
shutdown_may_hang_example = shutdown_may_hang 4 pipe_size answer
