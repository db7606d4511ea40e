-- ===== src/Queue/Order.antt =====
-- src/queue.rs: a pool of one worker, and the order of what the other threads push to it.
pub mod Scans
pub mod Turns
pub mod Line
use affinitypool.Base.{ℕ, ◌≤◌, ◌≡◌, Option, some, List, [], ◌∷◌, ◌++◌}
use affinitypool.Queue.{Queue, new}
use affinitypool.Queue.Scan.{Crossbeam, success}
use affinitypool.Queue.Threads.{Signal, sends, delivers, drops, Env}
use affinitypool.Queue.Turns.{Action, pushes}
use affinitypool.Queue.Turns.Balance.{in_hand}
use affinitypool.Queue.System.{System, init, step}

-- The injectors and the deques are queues: a steal takes the oldest runnable, and moves those behind it
-- in their order.
abbrev pub Ordered : {Task : Type 0} → Crossbeam Task → Type 0
Ordered {Task} cb =
    (c : cb.Choice) (rs : List Task) (r : Task)
    → (cb.steal_batch_and_pop c rs).result ≡ success r
    → rs ≡ r ∷ ((cb.steal_batch_and_pop c rs).moved ++ (cb.steal_batch_and_pop c rs).left)

module _ {Task : Type 0} where
  -- A log, which has the newest entry first, from its oldest entry on.
  abbrev pub oldest_first : List Task → List Task
  oldest_first [] = []
  oldest_first (r ∷ log) = oldest_first log ++ (r ∷ [])

  -- The runnables that wait in the deque of the worker and behind them in the one shard.
  abbrev pub waiting : Queue Task → List Task
  waiting q = q.deques 0 ++ q.injectors 0

  -- All runnables that have not been delivered, the next one first.
  abbrev pub line : System Task → List Task
  line s = in_hand (s.threads 0).pc ++ waiting s.queue

  -- The line after a signal, with what it sends, and the line before it, with what it takes out.
  abbrev pub arrived : Signal Task → List Task → List Task
  arrived (sends r) rs = rs ++ (r ∷ [])
  arrived _ rs = rs

  abbrev pub departed : Signal Task → List Task → List Task
  departed (delivers r) rs = r ∷ rs
  departed (drops ts) rs = ts ++ rs
  departed _ rs = rs

-- The states that a pool of one worker reaches while its runnables push nothing.
pub data Served {Task : Type 0} (env : Env Task) (bound : ℕ) (shards : Option ℕ)
    : System Task → Type 0 where
  opens : {q : Queue Task} → new 1 shards ≡ some q → Served env bound shards (init q)
  serves :
      {s s' : System Task} (i : ℕ) (a : Action env.crossbeam) (c : env.condvar.Choice)
      → Served env bound shards s
      → ((r : Task) → a ≡ pushes r → 1 ≤ i)
      → step env bound s i a c ≡ some s'
      → Served env bound shards s'
