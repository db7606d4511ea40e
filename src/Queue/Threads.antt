-- ===== src/Queue/Threads.antt =====
-- src/queue.rs: where a thread stands in `push`, `pop_blocking` and `shutdown`, its thread-local
-- cells, and what the queue takes from outside.
--
-- `parking_lot`'s mutex is the field `park` of the queue; which sleeper its `notify_one` wakes is the
-- parameter `Condvar`. `std`'s hash of a thread's id is a number for each thread.
use affinitypool.Base.{List, ℕ, ◌<◌, ◌≡◌, Option, none, some, Bool, true, false}
use affinitypool.Cpu.{ProducerRoute}
use affinitypool.Queue.{Queue}
use affinitypool.Queue.Scan.{Crossbeam, Stage}

-- What `pop_blocking` scans for: phase 1, a round of phase 1b, or the re-scan of phase 2.
pub data Phase : Type 0 where
  first : Phase
  spin : (round : ℕ) → Phase
  armed : Phase

-- How phase 2 ends: with a runnable, with `None`, or with another turn of the loop.
pub data Exit (Task : Type 0) : Type 0 where
  took : Task → Exit Task
  quit again : Exit Task

-- Where a thread stands.
pub data Pc (Task : Type 0) : Type 0 where
  -- a worker thread before it has registered
  starting : Pc Task
  -- `scan` in `pop_blocking`
  scanning : Phase → Stage → (contended : Bool) → Pc Task
  -- before `self.park.lock()`, and behind it, before `parked.fetch_add`
  arming locked_in : Pc Task
  -- after a re-scan that found nothing
  check_shutdown : Pc Task
  -- in `notify.wait`, and woken in it, before it has the mutex again
  asleep woken : Pc Task
  -- the exit of phase 2: before the update of `notified`, before that of `parked`, before the unlock
  settle unpark unlock : Exit Task → Pc Task
  exited : Pc Task
  -- inside a runnable, or in any code of a foreign thread
  running : Pc Task
  -- `push`: after the push, after the load of `parked`, before the lock, behind it, before
  -- `notify_one`, before the unlock
  pushed : Pc Task
  peeked : (parked : ℕ) → Pc Task
  notifying checking raised released : Pc Task
  -- `shutdown`: after the store, and behind the lock
  closing broadcasting : Pc Task

-- A thread: its place, its generator, and its two thread-local cells. `current_worker` is the index
-- of the deque in `CURRENT_WORKER` if the cell holds a handle to this queue, and `none` if it is empty
-- or holds one to another queue: the result of the `ptr::eq` check of `push`.
pub record Thread (Task : Type 0) : Type 0 where
  pub pc : Pc Task
  pub rng : ℕ
  pub current_worker : Option ℕ
  pub route : Option ProducerRoute

-- What a turn does beyond its own thread and the queue.
pub data Signal (Task : Type 0) : Type 0 where
  quiet : Signal Task
  sends delivers : Task → Signal Task
  drops : List Task → Signal Task
  wakes_one wakes_all : Signal Task

pub record Effect (Task : Type 0) : Type 0 where
  pub queue : Queue Task
  pub thread : Thread Task
  pub signal : Signal Task

-- `notify_one` wakes a sleeping thread if there is one.
pub record Condvar : Type 1 where
  pub Choice : Type 0
  pub notify_one : Choice → (bound : ℕ) → (ℕ → Bool) → Option ℕ
  pub wakes_sleeper :
      (c : Choice) (bound : ℕ) (sleeps : ℕ → Bool) (v : ℕ)
      → notify_one c bound sleeps ≡ some v
      → (v < bound) × (sleeps v ≡ true)
  pub wakes_none :
      (c : Choice) (bound : ℕ) (sleeps : ℕ → Bool) (v : ℕ)
      → notify_one c bound sleeps ≡ none
      → v < bound
      → sleeps v ≡ false

pub record Env (Task : Type 0) : Type 1 where
  pub crossbeam : Crossbeam Task
  pub condvar : Condvar
  pub hash_thread_id : ℕ → ℕ
