-- ===== src/Pool/Spinning.antt =====
-- src/lib.rs: `spin_up`, when threads can be created and when they cannot.
use affinitypool.Base.{
  ℕ, zero, suc, ◌+◌, ◌≤◌, ◌<◌, ◌≡◌, ◌≢◌, refl, ◌∙◌, [], ◌∷◌, ◌++◌, Option, none, some, arith,
  length, length-append, usize_max,
}
use affinitypool.Pool.{Os, Data, counted, stored, after_spawn, spin_up}
use mathlib.Core.Path.{subst}

add_suc : (m n : ℕ) → m + suc n ≡ suc m + n
add_suc m n = omega arith

module _ {Name : Type 0} (os : Os Name) {Task : Type 0} where
  -- What the creation of `workers` threads leaves of the data, and what it counts.
  record HasSpawned (workers : ℕ) (d d' : Data os Task) : Type 0 where
    pub queue : d'.queue ≡ d.queue
    pub num_threads : d'.num_threads ≡ d.num_threads
    pub handles : length d'.thread_handles ≡ length d.thread_handles + workers
    pub attempts : d.attempts + workers ≤ d'.attempts
    pub counted_attempts : d'.thread_count + d.attempts ≡ d.thread_count + d'.attempts

  -- The calls of `std::thread::Builder::spawn` for the data give threads.
  abbrev pub Reliable : Data os Task → Type 0
  Reliable d = (n : ℕ) → os.spawn n d.name d.stack_size ≢ none

  pub spin_up_step :
      (fuel : ℕ) (d : Data os Task) (h : os.Handle)
      → os.spawn d.attempts d.name d.stack_size ≡ some h
      → spin_up os (suc fuel) d ≡ some (stored os h (counted os d))
  unfolding spin_up
  spin_up_step fuel d h e = rw (spin_up, e) refl

  spin_up_again :
      (fuel : ℕ) (d : Data os Task)
      → os.spawn d.attempts d.name d.stack_size ≡ none
      → spin_up os (suc fuel) d ≡ spin_up os fuel (counted os d)
  unfolding spin_up
  spin_up_again fuel d e = rw (spin_up, e) refl

  pub counted_up :
      (d : Data os Task)
      → d.thread_count < usize_max
      → (counted os d).thread_count ≡ suc d.thread_count
  counted_up d h = ground arith

  -- If the next `failures` attempts to create a thread fail, the one after gives a handle and
  -- `thread_count` does not wrap, then `spin_up` returns with more fuel than `failures`: it has
  -- stored the handle, `thread_count` has gone up once for each attempt, and the queue is as
  -- before.
  spin_up_retries :
      (failures fuel : ℕ) (d : Data os Task) (h : os.Handle)
      → failures < fuel
      → ((k : ℕ) → k < failures → os.spawn (d.attempts + k) d.name d.stack_size ≡ none)
      → os.spawn (d.attempts + failures) d.name d.stack_size ≡ some h
      → d.thread_count + failures < usize_max
      → (d' : Data os Task) × (spin_up os fuel d ≡ some d')
        × (d'.thread_handles ≡ d.thread_handles ++ (h ∷ []))
        × (d'.thread_count ≡ d.thread_count + suc failures)
        × (d'.queue ≡ d.queue)
  spin_up_retries n zero d h lt fail works fits = absurd (omega arith)
  spin_up_retries zero (suc fuel) d h lt fail works fits = (
    stored os h (counted os d),
    spin_up_step fuel d h
        (subst (λ m. os.spawn m d.name d.stack_size ≡ some h) (omega arith) works),
    refl,
    counted_up d (omega arith) ∙ omega arith,
    refl,
  )
  spin_up_retries (suc n) (suc fuel) d h lt fail works fits =
      let (d', returns, kept, count, q) =
        spin_up_retries n fuel (counted os d) h (omega arith)
          (λ k less.
            subst (λ m. os.spawn m d.name d.stack_size ≡ none) (add_suc d.attempts k)
              (fail (suc k) (omega arith)))
          (subst (λ m. os.spawn m d.name d.stack_size ≡ some h) (add_suc d.attempts n) works)
          (omega (arith, counted_up d (omega arith))) in
      (
        d',
        spin_up_again fuel d (
              subst (λ m. os.spawn m d.name d.stack_size ≡ none) (omega arith)
                (fail 0 (omega arith)))
            ∙ returns,
        kept,
        omega (arith, count, counted_up d (omega arith)),
        q,
      )

  -- If every attempt to create a thread fails, `spin_up` returns with no fuel at all.
  pub spin_up_diverges :
      (fuel : ℕ) (d : Data os Task)
      → ((n : ℕ) → os.spawn n d.name d.stack_size ≡ none)
      → spin_up os fuel d ≡ none
  unfolding spin_up
  spin_up_diverges zero d fail = refl
  spin_up_diverges (suc fuel) d fail =
      rw (spin_up, fail d.attempts) (spin_up_diverges fuel (counted os d) fail)

  -- If `spin_up` returns and `thread_count` cannot wrap, it has stored one handle more, left the
  -- queue and `num_threads` as they were, made at least one attempt, and raised `thread_count`
  -- by the number of its attempts.
  spin_up-HasSpawned :
      (fuel : ℕ) (d d' : Data os Task)
      → d.thread_count + fuel < usize_max
      → spin_up os fuel d ≡ some d'
      → HasSpawned 1 d d'
  unfolding spin_up
  spin_up-HasSpawned zero d d' fits eq = absurd (cc eq)
  spin_up-HasSpawned (suc fuel) d d' fits eq =
      by_attempt (os.spawn d.attempts d.name d.stack_size)
        (λ e.
          spin_up-HasSpawned fuel (counted os d) d' (omega (arith, counted_up d (omega arith))) e)
        eq
    where
      up : (counted os d).thread_count ≡ suc d.thread_count
      up = counted_up d (omega arith)

      at_once : (h : os.Handle) → HasSpawned 1 d (stored os h (counted os d))
      at_once h = record {
        queue = refl;
        num_threads = refl;
        handles = length-append d.thread_handles (h ∷ []);
        attempts = omega arith;
        counted_attempts = omega (arith, up);
      }

      later : HasSpawned 1 (counted os d) d' → HasSpawned 1 d d'
      later r = record {
        queue = r.queue;
        num_threads = r.num_threads;
        handles = r.handles;
        attempts = omega (arith, r.attempts);
        counted_attempts = omega (arith, r.counted_attempts, up);
      }

      by_attempt :
          (o : Option os.Handle)
          → (spin_up os fuel (counted os d) ≡ some d' → HasSpawned 1 (counted os d) d')
          → after_spawn os o (spin_up os fuel (counted os d)) (counted os d) ≡ some d'
          → HasSpawned 1 d d'
      by_attempt none again e = later (again e)
      by_attempt (some h) again e = subst (HasSpawned 1 d) (cc e) (at_once h)
