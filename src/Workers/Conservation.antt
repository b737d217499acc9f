-- ===== src/Workers/Conservation.antt =====
-- No query of src/gp_workers.c is lost or doubled: what was accepted is in the pool or was replied to.
use gssproxy.Prelude.{
  ℕ, zero, suc, ◌+◌, ◌<◌, ◌≡◌, refl, List, [], ◌∷◌, Option, none, some, true, false, arith,
  Bool-cases, inl, inr,
}
use gssproxy.Workers.Family.{total, update, total-update, total-constant}
use gssproxy.Workers.State.{
  Query, Pc, top, entered, asleep, handling, handled, signalling, exited, Dispatcher, assigning,
  queueing, handing, Pool, workers_init,
}
use gssproxy.Workers.Step.{
  query_new, query_assign, query_wait, signal, query_hand, read_pipe, take_reply, next_waiting,
  shut_down, stop_next, joined, worker_enter, worker_grab, worker_woken, worker_handle, worker_put,
  worker_signal, Step, accepts, assigns, waits, hands, reads, takes, nexts, shuts, stops, joins,
  enters, grabs, wakes, handles, puts, signals, Reach, start, next,
}
use gssproxy.Workers.Invariant.{downs}
use gssproxy.Workers.Safety.{Reach-Inv, handing_overwrites_nothing}
use gssproxy.Workers.Invariant.Signals.{thread_lt}

module _ (weight : Query → ℕ) where
  pub sum_of : List Query → ℕ
  sum_of [] = 0
  sum_of (q ∷ qs) = weight q + sum_of qs

  abbrev pub in_slot : Option Query → ℕ
  in_slot none = 0
  in_slot (some q) = weight q

  abbrev pub in_work : Pc → ℕ
  in_work (handling q) = weight q
  in_work (handled q) = weight q
  in_work _ = 0

  abbrev pub in_hand : Dispatcher → ℕ
  in_hand (assigning q) = weight q
  in_hand (queueing q) = weight q
  in_hand (handing q t) = weight q
  in_hand _ = 0

  in_work-signal : (c : Pc) → in_work (signal c) ≡ in_work c
  unfolding signal
  in_work-signal asleep = refl
  in_work-signal c = refl

  -- A signal to a thread, of the pool or not, changes no query.
  total-signal :
      (n : ℕ) (pc : ℕ → Pc) (t : ℕ)
      → total in_work n (update pc t (signal (pc t))) ≡ total in_work n pc
  unfolding total
  total-signal zero pc t = refl
  total-signal (suc n) pc t = ground (arith, total-signal n pc t, in_work-signal (pc t))

  -- The queries in the pool: waiting, with the dispatcher, given to a thread, in work, or replies.
  pub inside : ℕ → Pool → ℕ
  inside n p =
      sum_of p.wait_list
      + in_hand p.dispatcher
      + total in_slot n p.query
      + total in_work n p.pc
      + sum_of p.reply_list

  abbrev pub Conserved : ℕ → Pool → Type 0
  Conserved n p = sum_of p.accepted ≡ inside n p + sum_of p.replied

-- The thread that a query is handed to is one of the pool, and has no query.
record Hand (n : ℕ) (p : Pool) (t : ℕ) : Type 0 where
  lt : t < n
  empty : p.query t ≡ none

module _ {n size : ℕ} {handle : Query → Query} where
  -- In a shutdown the dispatcher is in gp_workers_free.
  Step-down :
      {p p' : Pool}
      → Step n size handle p p'
      → (p.shutdown ≡ true → downs p.dispatcher ≡ 1)
      → p'.shutdown ≡ true
      → downs p'.dispatcher ≡ 1
  unfolding query_new query_assign query_wait query_hand read_pipe take_reply next_waiting shut_down
      stop_next joined worker_enter worker_grab worker_woken worker_handle worker_put worker_signal
  Step-down (accepts q e) old down = ground (arith, old)
  Step-down (assigns q [] e d) old down = ground (arith, old)
  Step-down (assigns q (s ∷ ts) e d) old down = ground (arith, old)
  Step-down (waits q e) old down = ground (arith, old)
  Step-down (hands q s e) old down = ground (arith, old)
  Step-down (reads e h) old down = ground (arith, old)
  Step-down (takes [] e d) old down = ground (arith, old)
  Step-down (takes (x ∷ xs) e d) old down = ground (arith, old)
  Step-down (nexts [] e d) old down = ground (arith, old)
  Step-down (nexts (x ∷ xs) e d) old down = ground (arith, old)
  Step-down (shuts e) old down = ground (arith, old)
  Step-down (stops [] [] e g d) old down = ground (arith, old)
  Step-down (stops [] (s ∷ ts) e g d) old down = ground (arith, old)
  Step-down (stops (s ∷ ts) busy e g d) old down = ground (arith, old)
  Step-down (joins s e d) old down = ground (arith, old)
  Step-down (enters s true lt e d) old down = ground (arith, old)
  Step-down (enters s false lt e d) old down = ground (arith, old)
  Step-down (grabs s none lt e d) old down = ground (arith, old)
  Step-down (grabs s (some q) lt e d) old down = ground (arith, old)
  Step-down (wakes s true o lt e d g) old down = ground (arith, old)
  Step-down (wakes s false none lt e d g) old down = ground (arith, old)
  Step-down (wakes s false (some q) lt e d g) old down = ground (arith, old)
  Step-down (handles s q lt e) old down = ground (arith, old)
  Step-down (puts s q true lt e d) old down = ground (arith, old)
  Step-down (puts s q false lt e d) old down = ground (arith, old)
  Step-down (signals s lt e) old down = ground (arith, old)

  Reach-down : {p : Pool} → Reach n size handle p → p.shutdown ≡ true → downs p.dispatcher ≡ 1
  unfolding workers_init
  Reach-down start down = cc
  Reach-down (next r s) down = Step-down s (Reach-down r) down

  hand :
      {p : Pool} (q : Query) (t : ℕ)
      → 0 < n
      → Reach n size handle p
      → p.dispatcher ≡ handing q t
      → Hand n p t
  hand {p} q t pos r e = elim (Bool-cases p.shutdown) [
    | inl down ↦ absurd (ground (arith, Reach-down r down))
    | inr up ↦
        let inv = Reach-Inv pos r up in
        record {
          lt = ground (arith, inv.single t, thread_lt t inv);
          empty = (handing_overwrites_nothing q t pos r up e).0;
        }
  ]

  module _ (weight : Query → ℕ) (same : (q : Query) → weight (handle q) ≡ weight q) where
    Step-Conserved :
        {p p' : Pool}
        → 0 < n
        → Reach n size handle p
        → Step n size handle p p'
        → Conserved weight n p
        → Conserved weight n p'
    unfolding inside sum_of query_new query_assign query_wait query_hand read_pipe take_reply
        next_waiting shut_down stop_next joined worker_enter worker_grab worker_woken worker_handle
        worker_put worker_signal
    Step-Conserved {p} pos r (accepts q e) c = ground (arith, c)
    Step-Conserved {p} pos r (assigns q [] e d) c = ground (arith, c)
    Step-Conserved {p} pos r (assigns q (s ∷ ts) e d) c = ground (arith, c)
    Step-Conserved {p} pos r (waits q e) c = ground (arith, c)
    Step-Conserved {p} pos r (hands q s e) c =
        let h = hand q s pos r e in
        ground (
          arith,
          c,
          h.empty,
          in_work-signal weight (p.pc s),
          total-update (in_slot weight) n p.query s (some q) h.lt,
          total-update (in_work weight) n p.pc s (signal (p.pc s)) h.lt,
        )
    Step-Conserved {p} pos r (reads e h) c = ground (arith, c)
    Step-Conserved {p} pos r (takes [] e d) c = ground (arith, c)
    Step-Conserved {p} pos r (takes (x ∷ xs) e d) c = ground (arith, c)
    Step-Conserved {p} pos r (nexts [] e d) c = ground (arith, c)
    Step-Conserved {p} pos r (nexts (x ∷ xs) e d) c = ground (arith, c)
    Step-Conserved {p} pos r (shuts e) c = ground (arith, c)
    Step-Conserved {p} pos r (stops [] [] e g d) c = ground (arith, c)
    Step-Conserved {p} pos r (stops [] (s ∷ ts) e g d) c =
        ground (arith, c, in_work-signal weight (p.pc s), total-signal weight n p.pc s)
    Step-Conserved {p} pos r (stops (s ∷ ts) busy e g d) c =
        ground (arith, c, in_work-signal weight (p.pc s), total-signal weight n p.pc s)
    Step-Conserved {p} pos r (joins s e d) c = ground (arith, c)
    Step-Conserved {p} pos r (enters s true lt e d) c =
        ground (arith, c, total-update (in_work weight) n p.pc s exited lt)
    Step-Conserved {p} pos r (enters s false lt e d) c =
        ground (arith, c, total-update (in_work weight) n p.pc s entered lt)
    Step-Conserved {p} pos r (grabs s none lt e d) c =
        ground (arith, c, total-update (in_work weight) n p.pc s asleep lt)
    Step-Conserved {p} pos r (grabs s (some q) lt e d) c = ground (
      arith,
      c,
      total-update (in_slot weight) n p.query s none lt,
      total-update (in_work weight) n p.pc s (handling q) lt,
    )
    Step-Conserved {p} pos r (wakes s true o lt e d g) c =
        ground (arith, c, total-update (in_work weight) n p.pc s exited lt)
    Step-Conserved {p} pos r (wakes s false none lt e d g) c =
        ground (arith, c, total-update (in_work weight) n p.pc s asleep lt)
    Step-Conserved {p} pos r (wakes s false (some q) lt e d g) c = ground (
      arith,
      c,
      total-update (in_slot weight) n p.query s none lt,
      total-update (in_work weight) n p.pc s (handling q) lt,
    )
    Step-Conserved {p} pos r (handles s q lt e) c =
        ground (arith, c, same q, total-update (in_work weight) n p.pc s (handled (handle q)) lt)
    Step-Conserved {p} pos r (puts s q true lt e d) c =
        ground (arith, c, total-update (in_work weight) n p.pc s signalling lt)
    Step-Conserved {p} pos r (puts s q false lt e d) c =
        ground (arith, c, total-update (in_work weight) n p.pc s signalling lt)
    Step-Conserved {p} pos r (signals s lt e) c =
        ground (arith, c, total-update (in_work weight) n p.pc s top lt)

    -- What was accepted is in the pool or was replied to, and nothing else is: whatever is counted of
    -- the queries that handling does not change, such as those of one connection, or the number of
    -- all, the count of what was accepted is that of what is in the pool and of what was replied to.
    -- This holds of every reachable state, of a shutdown too.
    pub queries_conserved :
        {p : Pool}
        → 0 < n
        → Reach n size handle p
        → sum_of weight p.accepted ≡ inside weight n p + sum_of weight p.replied
    unfolding sum_of inside workers_init
    queries_conserved pos start = omega (
      arith,
      total-constant (in_slot weight) n none refl,
      total-constant (in_work weight) n top refl,
    )
    queries_conserved pos (next r s) = Step-Conserved pos r s (queries_conserved pos r)
