-- ===== src/Future.antt =====
-- src/local.rs, and `JoinHandle`, `spawn` and `spawn_local` of src/lib.rs: the futures that callers
-- hold.
--
-- `async_task` and the workers are outside: a poll of the task is given its answer, and what a future
-- does to its runnable and its task is a list of events, in order.
pub mod Lifecycle
pub mod Awaiting
pub mod Parking
pub mod Borrows
use affinitypool.Base.{ℕ, zero, suc, List, [], ◌∷◌, ◌++◌, Option, none, some}

pub data Poll (A : Type 0) : Type 0 where
  ready : A → Poll A
  pending : Poll A

-- What the closure gave: its value, or the payload of its panic.
pub data Caught (R Payload : Type 0) : Type 0 where
  ok : R → Caught R Payload
  err : Payload → Caught R Payload

-- How a poll ends: with a poll result, by resuming the panic of the closure, or by a panic of its own.
pub data Ends (R Payload : Type 0) : Type 0 where
  returns : Poll R → Ends R Payload
  resumes_unwind : Payload → Ends R Payload
  panics : Ends R Payload

pub data Event (Runnable Task : Type 0) : Type 0 where
  schedules drops_runnable : Runnable → Event Runnable Task
  drops_task cancels : Task → Event Runnable Task

pub record SpawnFuture (Runnable Task : Type 0) : Type 0 where
  pub runnable : Option Runnable
  pub task : Option Task

pub record JoinHandle (Task : Type 0) : Type 0 where
  pub task : Task

module _ {R Payload : Type 0} where
  -- `JoinHandle::poll`, from the answer of its task.
  unfoldable pub poll_handle : Poll (Caught R Payload) → Ends R Payload
  poll_handle (ready (ok v)) = returns (ready v)
  poll_handle (ready (err p)) = resumes_unwind p
  poll_handle pending = returns pending

  abbrev pub resolved : Caught R Payload → Ends R Payload
  resolved (ok v) = returns (ready v)
  resolved (err p) = resumes_unwind p

pub record Polled (Runnable Task R Payload : Type 0) : Type 0 where
  pub future : SpawnFuture Runnable Task
  pub events : List (Event Runnable Task)
  pub ends : Ends R Payload

module _ {Runnable Task : Type 0} where
  -- `SpawnFuture::new`.
  abbrev pub new_future : Runnable → Task → SpawnFuture Runnable Task
  new_future r t = record { runnable = some r; task = some t }

  -- `Threadpool::spawn_local`: nothing is scheduled yet.
  abbrev pub spawn_local : Runnable → Task → SpawnFuture Runnable Task
  spawn_local r t = new_future r t

  -- `Threadpool::spawn`: the runnable is scheduled at once, and a `JoinHandle` holds the task.
  abbrev pub spawn : Runnable → Task → JoinHandle Task × List (Event Runnable Task)
  spawn r t = (record { task = t }, schedules r ∷ [])

  -- A `JoinHandle` is dropped with its task.
  abbrev pub drop_handle : JoinHandle Task → List (Event Runnable Task)
  drop_handle h = drops_task h.task ∷ []

  abbrev pub scheduled : Option Runnable → List (Event Runnable Task)
  scheduled none = []
  scheduled (some r) = schedules r ∷ []

  abbrev pub drop_task : Option Task → List (Event Runnable Task)
  drop_task none = []
  drop_task (some t) = drops_task t ∷ []

  abbrev pub cancel_task : Option Task → List (Event Runnable Task)
  cancel_task none = []
  cancel_task (some t) = cancels t ∷ []

  abbrev pub drop_parts : Option Runnable → Option Task → List (Event Runnable Task)
  drop_parts (some r) task = drops_runnable r ∷ drop_task task
  drop_parts none task = cancel_task task

  -- `SpawnFuture::drop`. `cancels` is `block_on_cancel`.
  unfoldable pub drop : SpawnFuture Runnable Task → List (Event Runnable Task)
  drop f = drop_parts f.runnable f.task

module _ {Runnable Task R Payload : Type 0} where
  -- The second half of `SpawnFuture::poll`: the task is polled, and dropped if it is ready.
  abbrev pub poll_task :
      Poll (Caught R Payload)
      → Option Task
      → List (Event Runnable Task)
      → Polled Runnable Task R Payload
  poll_task answer none before = record {
    future = record { runnable = none; task = none };
    events = before;
    ends = panics;
  }
  poll_task (ready result) (some t) before = record {
    future = record { runnable = none; task = none };
    events = before ++ (drops_task t ∷ []);
    ends = resolved result;
  }
  poll_task pending (some t) before = record {
    future = record { runnable = none; task = some t };
    events = before;
    ends = returns pending;
  }

  -- `SpawnFuture::poll`, with the answer of the task to its poll.
  unfoldable pub poll :
      Poll (Caught R Payload) → SpawnFuture Runnable Task → Polled Runnable Task R Payload
  poll answer f = poll_task answer f.task (scheduled f.runnable)

-- Return, or park and poll again.
