-- ===== src/Workers/Invariant.antt =====
-- What holds of the pool of src/gp_workers.c at any moment before its shutdown.
pub mod Lists
pub mod Single
pub mod Signals
use gssproxy.Prelude.{
  ℕ, ◌+◌, ◌<◌, ◌≡◌, Option, none, some, Bool, false, length, ltb, ◌==◌, if◌then◌else◌,
}
use gssproxy.Workers.Family.{count, total}
use gssproxy.Workers.State.{
  Query, Pc, handling, handled, signalling, Dispatcher, assigning, queueing, handing, taking,
  nexting, stopping, joining, stopped, Pool,
}

abbrev pub has_query : Option Query → ℕ
has_query none = 0
has_query (some q) = 1

abbrev pub works : Pc → ℕ
works (handling q) = 1
works (handled q) = 1
works _ = 0

abbrev pub signs : Pc → ℕ
signs signalling = 1
signs _ = 0

-- The dispatcher is about to hand a query to this thread.
abbrev pub hands_to : Dispatcher → ℕ → ℕ
hands_to (handing q t) u = if t == u then 1 else 0
hands_to _ u = 0

abbrev pub taken : Dispatcher → ℕ
taken taking = 1
taken _ = 0

abbrev pub queued : Dispatcher → ℕ
queued (queueing q) = 1
queued _ = 0

-- The dispatcher will look at the wait list, or comes from there.
abbrev pub looking : Dispatcher → ℕ
looking taking = 1
looking nexting = 1
looking (assigning q) = 1
looking _ = 0

abbrev pub downs : Dispatcher → ℕ
downs stopping = 1
downs (joining t) = 1
downs stopped = 1
downs _ = 0

pub record Inv (n : ℕ) (p : Pool) : Type 0 where
  pub running : p.shutdown ≡ false
  pub steady : downs p.dispatcher ≡ 0
  -- Each thread of the pool stands once in one of the two lists.
  pub listed : (t : ℕ) → count t p.free_list + count t p.busy_list ≡ (if ltb t n then 1 else 0)
  -- A busy thread has one query: given to it, in work, or on its way. A free thread has none.
  pub single :
      (t : ℕ)
      → has_query (p.query t) + works (p.pc t) + hands_to p.dispatcher t ≡ count t p.busy_list
  -- Each reply has a signal: to be written, in the pipe, read, or lost.
  pub signalled : length p.reply_list ≡ p.pipe + total signs n p.pc + taken p.dispatcher + p.lost
  -- While a query waits, something will make the dispatcher look at the wait list.
  pub watched :
      0 < length p.wait_list + queued p.dispatcher
      → 0 < length p.busy_list + total signs n p.pc + p.pipe + looking p.dispatcher + p.lost
