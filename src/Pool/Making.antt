-- ===== src/Pool/Making.antt =====
-- src/lib.rs and src/builder.rs: the pools that `Threadpool::new` and `Builder::build` make.
use affinitypool.Base.{
  true, length-append, inl, inr, ℕ, zero, suc, ◌+◌, ◌≤◌, ◌<◌, ◌≡◌, ◌≢◌, refl, sym, ◌∙◌, ap, [], ◌∷◌,
  Option, none, some, arith, length, usize_max, Option-cases, Bool, false,
}
use affinitypool.Pool.{default_pool, Os, Data, counted, stored, spin_up_all, new_pool, initial}
use affinitypool.Pool.Builder.{thread_per_core, Builder, empty, worker_threads, threads_of, build}
use affinitypool.Queue.{Queue, ◌>>=◌, clamp, max_threads, new, fresh}
use affinitypool.Queue.Shards.{num_shards-IsShardCount}
use affinitypool.Pool.Spinning.{Reliable, spin_up_step, counted_up}
use Prim.Native.Nat.{min, max}

clamp_threads : (n : ℕ) → (t : ℕ) × (clamp n 1 max_threads ≡ some t) × (0 < t) × (t ≤ max_threads)
unfolding clamp
clamp_threads n = (min (max n 1) max_threads, ground arith, omega arith, omega arith)

-- Whatever the settings, `build` asks for at least one thread and at most `MAX_THREADS`.
threads_of-bounds :
    (num_cpus : ℕ) (chosen : Option ℕ) (per_core : Bool)
    → (t : ℕ) × (threads_of num_cpus chosen per_core ≡ some t) × (0 < t) × (t ≤ max_threads)
unfolding threads_of
threads_of-bounds num_cpus (some n) per_core = clamp_threads n
threads_of-bounds num_cpus none true = clamp_threads num_cpus
threads_of-bounds num_cpus none false = (2, refl, omega arith, omega arith)

new-workers :
    {Task : Type 0} (n : ℕ) (shards : Option ℕ)
    → 0 < n
    → n ≤ max_threads
    → (q : Queue Task) × (new n shards ≡ some q) × (q.num_workers ≡ n)
unfolding new
new-workers n shards pos small =
    let (count, chosen, good) = num_shards-IsShardCount n shards pos small in
    (fresh n count, rw chosen refl, refl)

module _ {Name : Type 0} (os : Os Name) {Task : Type 0} where
  -- With threads to be had, one attempt suffices for each worker.
  spin_up_all-Reliable :
      (fuel workers : ℕ) (d : Data os Task)
      → Reliable os d
      → d.thread_count + workers < usize_max
      → (d' : Data os Task) × (spin_up_all os (suc fuel) workers d ≡ some d')
        × (d'.thread_count ≡ d.thread_count + workers)
        × (length d'.thread_handles ≡ length d.thread_handles + workers)
        × (d'.num_threads ≡ d.num_threads)
        × (d'.queue ≡ d.queue)
  unfolding spin_up_all
  spin_up_all-Reliable fuel zero d works fits = (d, refl, omega arith, omega arith, refl, refl)
  spin_up_all-Reliable fuel (suc n) d works fits =
      elim (Option-cases (os.spawn d.attempts d.name d.stack_size)) [
        | inl fails ↦ absurd (works d.attempts fails)
        | inr (h, e) ↦
            let one = stored os h (counted os d) in
            let up = counted_up os d (omega arith) in
            let (d', returns, count, handles, same, q) =
              spin_up_all-Reliable fuel n one works (omega (arith, up)) in
            (
              d',
              ap (λ o. o >>= λ d''. spin_up_all os (suc fuel) n d'') (spin_up_step os fuel d h e)
                  ∙ returns,
              omega (arith, count, up),
              omega (arith, handles, length-append d.thread_handles (h ∷ [])),
              same,
              q,
            )
      ]

  -- The pool that `build` returns, and the making of its queue.
  pub build-new :
      (fuel : ℕ) (b : Builder Name)
      → ((n : ℕ) → os.spawn n b.thread_name b.thread_stack_size ≢ none)
      → (d : Data os Task) × (build os (suc fuel) b ≡ some d)
        × (0 < d.num_threads)
        × (d.num_threads ≤ max_threads)
        × (new d.num_threads b.shards ≡ some d.queue)
        × (d.queue.num_workers ≡ d.num_threads)
        × (d.thread_count ≡ d.num_threads)
        × (length d.thread_handles ≡ d.num_threads)
  unfolding build
  build-new fuel b works =
      let (t, asked, pos, small) = threads_of-bounds os.num_cpus b.num_threads b.thread_per_core in
      let (q, made, workers) = new-workers {Task = Task} t b.shards pos small in
      let (d, returns, count, handles, same, queue) =
        spin_up_all-Reliable fuel t (initial os b.thread_name b.thread_stack_size t q) works
          (omega (arith, small)) in
      (
        d,
        ap
              (λ o. o >>= λ t'. new t' b.shards >>= λ q'.
                spin_up_all os (suc fuel) t' (initial os b.thread_name b.thread_stack_size t' q'))
              asked
            ∙ ap
                (λ o. o >>= λ q'.
                  spin_up_all os (suc fuel) t (initial os b.thread_name b.thread_stack_size t q'))
                made
            ∙ returns,
        omega (arith, same),
        omega (arith, same),
        ap (λ m. new m b.shards) same ∙ made ∙ ap some (sym queue),
        omega (arith, same, workers, ap (λ (x : Queue Task). x.num_workers) queue),
        omega (arith, same, count),
        omega (arith, same, handles),
      )

  -- If every attempt to create a thread with the name and the stack size of the builder
  -- succeeds, `build` returns with any settings and any positive fuel: the pool has between one
  -- and `MAX_THREADS` workers, and its queue, `num_threads`, `thread_count` and the stored
  -- handles agree on their number.
  pub build-agrees :
      (fuel : ℕ) (b : Builder Name)
      → ((n : ℕ) → os.spawn n b.thread_name b.thread_stack_size ≢ none)
      → (d : Data os Task) × (build os (suc fuel) b ≡ some d)
        × (0 < d.num_threads)
        × (d.num_threads ≤ max_threads)
        × (d.queue.num_workers ≡ d.num_threads)
        × (d.thread_count ≡ d.num_threads)
        × (length d.thread_handles ≡ d.num_threads)
  build-agrees fuel b works =
      let (d, made, pos, small, queue, workers, count, handles) = build-new fuel b works in
      (d, made, pos, small, workers, count, handles)

  -- `Threadpool::new` makes the pool that a new builder makes with this number of worker
  -- threads, and `Threadpool::default` the one that it makes with one thread per core.
  pub new_pool-build :
      (fuel n : ℕ)
      → (new_pool os fuel n ≡ build os {Task = Task} fuel (worker_threads n empty))
        × (default_pool os fuel ≡ build os {Task = Task} fuel (thread_per_core true empty))
  unfolding new_pool default_pool build threads_of
  new_pool-build fuel n = (refl, refl)
