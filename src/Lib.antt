-- ===== src/Lib.antt =====
-- affinitypool: a thread pool with a sharded, work-stealing queue (src/*.rs of the repository).
--
-- A `Threadpool` (src/lib.rs) holds `Data` (src/data.rs) with one `Queue` (src/queue.rs) that all of
-- its workers share. `Threadpool::spawn` and the futures of `spawn_local` (src/local.rs) push
-- runnables of `async_task` to the queue: a worker to its own deque, any other thread to an injector
-- that `route_shard` (src/cpu.rs) chooses. Each worker scans its deque, the injectors and its peers
-- in `scan`, and parks in `pop_blocking` on one mutex and one condition variable, which `push` wakes
-- by a handshake over two counters, `parked` and `notified`.
--
-- Files and what they model:
-- - Base: library names passed on, Boolean tests, machine words, families over an index and sums.
-- - Cpu, Cpu/Route, Cpu/Spill: src/cpu.rs. `route_shard` takes the hash and the cached route of the
--   thread and returns the shard and the new route.
-- - Queue, Queue/Shards: the record `Queue` and `Queue::new` of src/queue.rs. Injectors and deques are
--   lists, oldest first, in families over the index; `park` is the thread that holds the mutex.
-- - Queue/Rng, Queue/Victims: `next_rand`, `fast_reduce`, and the victims of the two loops of `scan`;
--   Queue/Victims/Rounds is about those of a cheap and of a strict pass.
-- - Queue/Scan and below: `scan`, `steal_injector` and the attempts on peers, one access to shared
--   memory at a time. `scan_step` makes one access at a `Stage` of a pass.
-- - Queue/Scan/Whole, Nearer, Returns and Finds, Queue/Fifo: a whole scan by a worker that no other
--   thread gets in the way of, on fuel, and the order in which a worker is given its own pushes.
-- - Queue/Threads, Queue/Turns and below: `push`, `pop_blocking`, `shutdown`, `register_worker`,
--   `enter_worker_scope` and the worker loop, as the turns of one thread. A `Pc` is the place of a
--   thread between two accesses; `act` is its next turn, `none` where it has to wait. What one turn
--   does to the counters, the mutex, the roles and the shards stands in a file each.
-- - Queue/System and below: all threads over one queue, in any order. `step` is a turn of any thread
--   with the wake-ups it asks for, `Reach` the states that turns lead to, and `sent`, `delivered` and
--   `dropped` log the runnables. Invariant is the invariant, Wake, Handover, Moved and Preserve are
--   about a turn's effect on it, Safety is about the reachable states. Alive and Liveness are about
--   threads that go on, Scope about `CURRENT_WORKER`, Closing and Joined about the drop of a pool,
--   from its `shutdown` on.
-- - Queue/Channel and below: the specification of the queue as a bag, a quotient of lists by order,
--   with `put`, and the `view` of a state as the bag of its pending runnables. Joined is about what the
--   drop of a pool leaves in it.
-- - Queue/Fence and below: the handshake of `push` and `pop_blocking` over `parked` alone, each with
--   the fence between its write and its read, on a machine where writes wait in store buffers.
-- - Queue/Order and below: a pool of one worker whose runnables push nothing, with the `line` of the
--   runnables that have not been handed out yet.
-- - Queue/Drain and below: the turns of all threads while nothing is pushed. Each turn takes from the
--   `energy` of its thread, `potential` is that of all threads and of the pending runnables; Rest is
--   about the state that such a `Run` ends in, and Ends about what has become of the runnables there.
-- - Queue/Alone and below: `pop_blocking` after `shutdown`, by a worker that runs alone, and `push` by
--   any thread that does, with the wake-up of its handshake in Queue/Alone/Pushes.
-- - Pool and below: `Threadpool::new`, its drop, `spin_up`, the sentry (src/sentry.rs),
--   src/builder.rs, `build_global`, and the functions `spawn` and `spawn_local` of the crate. Each
--   value of `Data` is the shared data at one moment. Running is about a pool that `build` has made,
--   Global about calls of `build_global` whose accesses to `THREADPOOL` come in any order.
-- - Pool/Dropping and below: the drop again, as a thread among those of the pool, between the turns of
--   the workers and of the sentries. Tracked is about where the handle of a worker is, Joins about what
--   holds when the drop has returned, Unbroken about a pool of which no worker panics, Winding and
--   Returns about the way of the drop to its return.
-- - Future, Future/Lifecycle, Future/Awaiting: `JoinHandle` and `spawn` of src/lib.rs
--   and `SpawnFuture` of src/local.rs, as the events they bring about.
-- - Future/Parking: `block_on_cancel`, as a thread that parks while another ends its task.
-- - Future/Borrows and below: a `SpawnFuture` and its closure over the turns of its caller, up to the end
--   of its drop, and of a worker.
-- - Tests: concrete runs of all of these.
--
-- Numbers are natural numbers with the wrap-around of `u32`, `u64` and of a 64-bit `usize` written
-- out. The number of threads is any `bound` below `usize::MAX`. Loops of the queue are places of a
-- thread, so they need no fuel. `spin_up` runs on fuel: it may run for ever if no thread can be
-- created, and the theorems say how much fuel is enough otherwise. A whole scan has one unit of fuel
-- for each access, and a thread alone one for each turn. A `Run` has any number of tame turns: a turn
-- is tame if it pushes nothing, does not call `shutdown`, and does not meet another thread in an
-- attempt to steal. `Winds` has these and the moves of the drop and of the sentries.
--
-- Parameters, with what is relied on as fields: `Crossbeam` (an attempt to steal loses and duplicates
-- nothing, says `Empty` of an empty queue only, and changes nothing when it says `Retry`), `Condvar`
-- (`notify_one` wakes a sleeper if there is one), `Os` (the creation of threads), the hash of a
-- thread's id, the answers of `async_task` to polls, `Cancellation` (the end of a task calls the waker
-- that a pending poll of its cancellation has left), and `AsyncTask` (the runnable takes its closure
-- with it, and a poll or a cancellation is ready only once the closure is gone). Only Queue/Order
-- relies on the order in which `crossbeam_deque` hands out, `Ordered`.
--
-- A worker that panics is taken to be replaced: its deque stays as it is until the new worker
-- registers, and the thread of the sentry is created. Pool/Dropping ends with the return of the drop,
-- behind which a sentry may find the data of the pool gone.
--
-- A worker in a runnable may push, call `shutdown` (the runnable may drop the last owner of the
-- pool), return, or panic, and may also take no turn at all, as one that blocks. `potential` and
-- `remaining` count on its return; for a pool that one worker keeps waiting for ever they say
-- nothing. Of `CURRENT_WORKER` a thread has the handle to this queue, as the index of its deque,
-- and none if the cell is empty or holds a handle to another queue, which `push` does not go by.
--
-- The drop of a pool owns it, so that no other thread can push through it by then: `Closed`, and in
-- Pool/Dropping `Owns` and `is_allowed`, take this from the code's types, for a drop by a thread that is
-- no worker. `parking_lot` says of its condition variable that it does not wake threads without a
-- reason.
--
-- Not modelled: memory orders weaker than sequential consistency but for the store buffers of
-- Queue/Fence, a worker that is not replaced after a panic, a guard of a stealer's slot that is held
-- while the slot changes (the load of the slot, `is_empty` and the steal are one step), and the
-- benchmarks, tests and examples, which only call the library.
pub mod Base
pub mod Cpu
pub mod Queue
pub mod Pool
pub mod Future
pub mod Tests
