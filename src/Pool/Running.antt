-- ===== src/Pool/Running.antt =====
-- src/builder.rs, src/lib.rs and src/queue.rs: a pool from its `build` to the end of its drop.
use affinitypool.Base.{ℕ, suc, ◌≤◌, ◌<◌, ◌≡◌, ◌≢◌, some, none, usize_max, ◌++◌, length}
use affinitypool.Queue.{max_threads}
use affinitypool.Queue.Threads.{Env, exited}
use affinitypool.Pool.{Os, Data, drop_pool}
use affinitypool.Pool.Builder.{Builder, build}
use affinitypool.Pool.Making.{build-new}
use affinitypool.Base.Family.{SameTasks}
use affinitypool.Queue.System.{System}
use affinitypool.Queue.System.Closing.{Closed}
use affinitypool.Queue.Channel.Joined.{joined-SameTasks}
use affinitypool.Queue.System.Safety.{IsPool}
use mathlib.Core.Path.{subst}

module _ {Name : Type 0} (os : Os Name) {Task : Type 0} where
  -- A pool that was built is one, and its drop joins all its workers.
  built-IsPool :
      (fuel bound : ℕ) (b : Builder Name) (d : Data os Task)
      → ((n : ℕ) → os.spawn n b.thread_name b.thread_stack_size ≢ none)
      → build os (suc fuel) b ≡ some d
      → d.num_threads ≤ bound
      → bound < usize_max
      → (length (drop_pool os d).0 ≡ d.num_threads) × IsPool bound d.num_threads
  unfolding drop_pool
  built-IsPool fuel bound b d works built wide fits =
      let (d', made, pos, small, queue, workers, count, handles) =
        build-new os {Task = Task} fuel b works in
      let (pos', small', handles') = subst Sized (same_pool d' made) (pos, small, handles) in
      (
        handles',
        record { some_worker = pos'; not_too_many = small'; among = wide; countable = fits },
      )
    where
      Sized : Data os Task → Type 0
      Sized x =
          (0 < x.num_threads)
          × (x.num_threads ≤ max_threads)
          × (length x.thread_handles ≡ x.num_threads)

      same_pool : (d' : Data os Task) → build os (suc fuel) b ≡ some d' → d' ≡ d
      same_pool d' made = cc (made, built)

module _ {Name : Type 0} (os : Os Name) {Task : Type 0} (env : Env Task) where
  -- For a pool that `build` has made with any settings, where every attempt to create a thread
  -- with the name and the stack size of the builder succeeds, with its workers among fewer than
  -- `usize::MAX` threads: its drop joins as many handles as it has workers. In every state that
  -- the threads reach over its queue where `shutdown` was called while every thread but the
  -- workers was in its own code, no thread but the workers has pushed since, and every worker
  -- has exited, the runnables that were pushed are, with their multiplicity, those that
  -- `pop_blocking` has returned and those that were dropped with the deque of a worker that
  -- panicked.
  pub build-joined :
      (fuel bound : ℕ) (b : Builder Name) (d : Data os Task)
      → ((n : ℕ) → os.spawn n b.thread_name b.thread_stack_size ≢ none)
      → build os (suc fuel) b ≡ some d
      → d.num_threads ≤ bound
      → bound < usize_max
      → (s : System Task) → Closed env bound d.num_threads b.shards s
      → ((w : ℕ) → w < d.num_threads → (s.threads w).pc ≡ exited)
      → (length (drop_pool os d).0 ≡ d.num_threads) × SameTasks s.sent (s.delivered ++ s.dropped)
  build-joined fuel bound b d works built wide fits s closed joined =
      let (handles, pool) = built-IsPool os fuel bound b d works built wide fits in
      (handles, joined-SameTasks env bound d.num_threads b.shards pool s closed joined)
