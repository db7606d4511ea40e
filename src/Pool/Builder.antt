-- ===== src/Pool/Builder.antt =====
-- src/builder.rs: the settings of a pool, and `build`.
use affinitypool.Base.{ℕ, Option, none, some, Bool, true, false}
use affinitypool.Queue.{max_threads, clamp, new, ◌>>=◌}
use affinitypool.Pool.{Os, Data, initial, spin_up_all}

pub record Builder (Name : Type 0) : Type 0 where
  pub num_threads : Option ℕ
  pub thread_name : Option Name
  pub thread_stack_size : Option ℕ
  pub thread_per_core : Bool
  pub shards : Option ℕ

module _ {Name : Type 0} where
  abbrev pub empty : Builder Name
  empty = record {
    num_threads = none;
    thread_name = none;
    thread_stack_size = none;
    thread_per_core = false;
    shards = none;
  }

  abbrev pub worker_threads : ℕ → Builder Name → Builder Name
  worker_threads n b = record b { num_threads = some n }

  abbrev pub thread_name : Name → Builder Name → Builder Name
  thread_name n b = record b { thread_name = some n }

  abbrev pub thread_stack_size : ℕ → Builder Name → Builder Name
  thread_stack_size n b = record b { thread_stack_size = some n }

  abbrev pub thread_per_core : Bool → Builder Name → Builder Name
  thread_per_core on b = record b { thread_per_core = on }

  abbrev pub shards : ℕ → Builder Name → Builder Name
  shards n b = record b { shards = some n }

-- The number of threads that `build` spawns.
unfoldable pub threads_of : (num_cpus : ℕ) → Option ℕ → Bool → Option ℕ
threads_of num_cpus (some n) per_core = clamp n 1 max_threads
threads_of num_cpus none true = clamp num_cpus 1 max_threads
threads_of num_cpus none false = some 2

module _ {Name : Type 0} (os : Os Name) {Task : Type 0} where
  -- `Builder::build`.
  unfoldable pub build : (fuel : ℕ) → Builder Name → Option (Data os Task)
  unfolding spin_up_all
  build fuel b = do
    threads ← threads_of os.num_cpus b.num_threads b.thread_per_core
    queue ← new threads b.shards
    spin_up_all os fuel threads (initial os b.thread_name b.thread_stack_size threads queue)
