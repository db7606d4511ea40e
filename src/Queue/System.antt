-- ===== src/Queue/System.antt =====
-- src/queue.rs: all threads over one queue, interleaved in any order.
--
-- The threads from 0 to `num_workers - 1` are the workers of the pool, the others are foreign.
pub mod Invariant
pub mod Wake
pub mod Handover
pub mod Moved
pub mod Preserve
pub mod Safety
pub mod Alive
pub mod Liveness
pub mod Closing
pub mod Joined
pub mod Scope
use affinitypool.Base.{
  ℕ, List, [], ◌∷◌, ◌++◌, Option, none, some, ◌≡◌, Bool, true, false, ltb, if◌then◌else◌,
}
use affinitypool.Base.Family.{update}
use affinitypool.Queue.{Queue, new, ◌>>=◌}
use affinitypool.Queue.Threads.{
  asleep, woken, starting, running, Thread, Signal, sends, delivers, drops, wakes_one, wakes_all,
  Effect, Env,
}
use affinitypool.Queue.Turns.{Action, act}

-- The queue, the threads, and the logs of all runnables sent, of those that workers were given, and of
-- those that were dropped with a deque.
pub record System (Task : Type 0) : Type 0 where
  pub queue : Queue Task
  pub threads : ℕ → Thread Task
  pub sent : List Task
  pub delivered : List Task
  pub dropped : List Task

module _ {Task : Type 0} where
  abbrev pub sleeps : Thread Task → Bool
  sleeps t = elim t.pc [ asleep ↦ true | _ ↦ false ]

  abbrev pub wake : Thread Task → Thread Task
  wake t = record t { pc = woken }

  abbrev pub log_sent : Signal Task → List Task → List Task
  log_sent (sends r) log = r ∷ log
  log_sent _ log = log

  abbrev pub log_delivered : Signal Task → List Task → List Task
  log_delivered (delivers r) log = r ∷ log
  log_delivered _ log = log

  abbrev pub log_dropped : Signal Task → List Task → List Task
  log_dropped (drops rs) log = rs ++ log
  log_dropped _ log = log

  abbrev pub wake_chosen : Option ℕ → (ℕ → Thread Task) → ℕ → Thread Task
  wake_chosen none ts = ts
  wake_chosen (some v) ts = update ts v (wake (ts v))

  abbrev pub wake_sleepers : (ℕ → Thread Task) → ℕ → Thread Task
  wake_sleepers ts j = if sleeps (ts j) then wake (ts j) else ts j

module _ {Task : Type 0} (env : Env Task) (bound : ℕ) where
  open env use {crossbeam, condvar}

  abbrev pub wakes : Signal Task → condvar.Choice → (ℕ → Thread Task) → ℕ → Thread Task
  wakes wakes_one c ts = wake_chosen (condvar.notify_one c bound (λ j. sleeps (ts j))) ts
  wakes wakes_all c ts = wake_sleepers ts
  wakes _ c ts = ts

  abbrev pub after : System Task → ℕ → condvar.Choice → Effect Task → System Task
  after s i c e = record {
    queue = e.queue;
    threads = wakes e.signal c (update s.threads i e.thread);
    sent = log_sent e.signal s.sent;
    delivered = log_delivered e.signal s.delivered;
    dropped = log_dropped e.signal s.dropped;
  }

  -- A turn of thread `i` in the whole system of `bound` threads.
  unfoldable pub step : System Task → ℕ → Action crossbeam → condvar.Choice → Option (System Task)
  unfolding act
  step s i a c =
      if ltb i bound
      then (act env (s.threads i).pc a i s.queue (s.threads i) >>= λ e. some (after s i c e))
      else none

-- The workers start, and the other threads run their own code.
abbrev pub init_thread : {Task : Type 0} → ℕ → ℕ → Thread Task
init_thread num_workers i = record {
  pc = if ltb i num_workers then starting else running;
  rng = 1;
  current_worker = none;
  route = none;
}

abbrev pub init : {Task : Type 0} → Queue Task → System Task
init q = record {
  queue = q;
  threads = init_thread q.num_workers;
  sent = [];
  delivered = [];
  dropped = [];
}

-- The states that `bound` threads can reach over a new queue.
pub data Reach {Task : Type 0} (env : Env Task) (bound num_workers : ℕ) (shards : Option ℕ)
    : System Task → Type 0 where
  start :
      {q : Queue Task}
      → new num_workers shards ≡ some q
      → Reach env bound num_workers shards (init q)
  later :
      {s s' : System Task} (i : ℕ) (a : Action env.crossbeam) (c : env.condvar.Choice)
      → Reach env bound num_workers shards s
      → step env bound s i a c ≡ some s'
      → Reach env bound num_workers shards s'
