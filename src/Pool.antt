-- ===== src/Pool.antt =====
-- src/lib.rs, src/data.rs, src/sentry.rs and src/global.rs: the making of a pool, its
-- worker threads and their sentries, the drop of the pool, and the global pool.
--
-- The threads of the operating system are the parameter `Os`: `spawn` says of each attempt to create
-- a thread whether it gives a handle. A closure that is not run is dropped, and the sentry in it too.
pub mod Spinning
pub mod Making
pub mod Builder
pub mod Global
pub mod Running
pub mod Dropping
pub mod Ending
use affinitypool.Base.{
  ℕ, zero, suc, List, [], ◌∷◌, ◌++◌, Option, none, some, Bool, true, false, if◌then◌else◌,
}
use affinitypool.Queue.{Queue, max_threads, clamp, new, ◌>>=◌}
use affinitypool.Queue.Turns.{fetch_add}

-- `num_cpus::get`, and `std::thread::Builder::spawn` at its `n`-th call, with the name and the stack
-- size of the thread.
pub record Os (Name : Type 0) : Type 1 where
  pub Handle : Type 0
  pub num_cpus : ℕ
  pub spawn : (n : ℕ) → Option Name → Option ℕ → Option Handle

-- A sentry watches the worker with its index, over a weak reference to the data.
pub record Sentry : Type 0 where
  pub active : Bool
  pub index : ℕ

-- `Sentry::new` and `Sentry::cancel`, after which the sentry is dropped.
abbrev pub new_sentry : ℕ → Sentry
new_sentry index = record { active = true; index = index }

abbrev pub cancel : Sentry → Sentry
cancel sentry = record sentry { active = false }

module _ {Name : Type 0} (os : Os Name) (Task : Type 0) where
  open os use {Handle}

  -- `attempts` counts the calls of `std::thread::Builder::spawn`.
  pub record Data : Type 0 where
    pub name : Option Name
    pub stack_size : Option ℕ
    pub num_threads : ℕ
    pub thread_count : ℕ
    pub queue : Queue Task
    pub thread_handles : List Handle
    pub attempts : ℕ

module _ {Name : Type 0} (os : Os Name) {Task : Type 0} where
  open os use {Handle}

  -- The counter goes up, and a sentry is made, before the thread is.
  abbrev pub counted : Data os Task → Data os Task
  counted d = record d { thread_count = fetch_add d.thread_count; attempts = suc d.attempts }

  abbrev pub stored : Handle → Data os Task → Data os Task
  stored h d = record d { thread_handles = d.thread_handles ++ (h ∷ []) }

  -- The thread's handle is stored. Where no thread is created, the closure is dropped with its
  -- sentry, which is active and spins up again.
  abbrev pub after_spawn :
      Option Handle → (again : Option (Data os Task)) → Data os Task → Option (Data os Task)
  after_spawn none again d = again
  after_spawn (some h) again d = some (stored h d)

  -- `Threadpool::spin_up`.
  unfoldable pub spin_up : (fuel : ℕ) → Data os Task → Option (Data os Task)
  spin_up zero d = none
  spin_up (suc fuel) d =
      after_spawn (os.spawn d.attempts d.name d.stack_size) (spin_up fuel (counted d)) (counted d)

  abbrev pub replace_if : Bool → (fuel : ℕ) → Data os Task → Option (Option (Data os Task))
  replace_if false fuel d = some (some d)
  replace_if true fuel d = spin_up fuel d >>= λ d'. some (some d')

  -- `Sentry::drop`. The data is `none` once the pool and all who held it are gone: then the weak
  -- reference cannot be upgraded.
  unfoldable pub drop_sentry :
      (fuel : ℕ) → Sentry → Option (Data os Task) → Option (Option (Data os Task))
  unfolding spin_up
  drop_sentry fuel sentry none = some none
  drop_sentry fuel sentry (some d) = replace_if sentry.active fuel d

  -- The loop that spawns the workers.
  unfoldable pub spin_up_all : (fuel workers : ℕ) → Data os Task → Option (Data os Task)
  unfolding spin_up
  spin_up_all fuel zero d = some d
  spin_up_all fuel (suc workers) d = do d' ← spin_up fuel d; spin_up_all fuel workers d'

  abbrev pub initial : Option Name → Option ℕ → ℕ → Queue Task → Data os Task
  initial name stack_size workers queue = record {
    name = name;
    stack_size = stack_size;
    num_threads = workers;
    thread_count = 0;
    queue = queue;
    thread_handles = [];
    attempts = 0;
  }

  -- `Threadpool::new`.
  unfoldable pub new_pool : (fuel workers : ℕ) → Option (Data os Task)
  unfolding spin_up_all
  new_pool fuel workers = do
    count ← clamp workers 1 max_threads
    queue ← new count none
    spin_up_all fuel count (initial none none count queue)

  -- `Threadpool::default`.
  unfoldable pub default_pool : (fuel : ℕ) → Option (Data os Task)
  unfolding new_pool
  default_pool fuel = new_pool fuel os.num_cpus

  -- `Threadpool::drop`: shut the queue down, take and join all handles, reset the counter. The result
  -- holds the handles that are joined.
  unfoldable pub drop_pool : Data os Task → List Handle × Data os Task
  drop_pool d = (
    d.thread_handles,
    record d { queue = record d.queue { shutdown = true }; thread_handles = []; thread_count = 0 },
  )

-- `THREADPOOL`, a `OnceLock`, and `Threadpool::build_global`.
pub data GlobalError : Type 0 where
  global_threadpool_exists : GlobalError

-- A call of `build_global` by its pool: before the check, between the check and `get_or_init`, or back.
pub data GlobalCall (Pool : Type 0) : Type 0 where
  unchecked checked : Pool → GlobalCall Pool
  answered : Option GlobalError → GlobalCall Pool

-- One access of a call to `THREADPOOL`.
unfoldable pub build_global :
    {Pool : Type 0} → Option Pool → GlobalCall Pool → Option Pool × GlobalCall Pool
build_global (some old) (unchecked pool) = (some old, answered (some global_threadpool_exists))
build_global none (unchecked pool) = (none, checked pool)
build_global (some old) (checked pool) = (some old, answered none)
build_global none (checked pool) = (some pool, answered none)
build_global (some old) (answered result) = (some old, answered result)
build_global none (answered result) = (none, answered result)

-- Where a closure runs: as a task of a pool, at once or when the future is polled first, or at once on
-- the thread that polls.
pub data RunsOn (Pool Func : Type 0) : Type 0 where
  pool_task lazy_task : Pool → Func → RunsOn Pool Func
  caller : Func → RunsOn Pool Func

-- The functions `spawn` and `spawn_local` of the crate.
unfoldable pub global_spawn : {Pool Func : Type 0} → Option Pool → Func → RunsOn Pool Func
global_spawn (some threadpool) func = pool_task threadpool func
global_spawn none func = caller func

unfoldable pub global_spawn_local : {Pool Func : Type 0} → Option Pool → Func → RunsOn Pool Func
global_spawn_local (some threadpool) func = lazy_task threadpool func
global_spawn_local none func = caller func
