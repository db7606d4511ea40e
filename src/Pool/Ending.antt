-- ===== src/Pool/Ending.antt =====
-- src/lib.rs and src/sentry.rs: a pool whose worker panics, and the drop of a pool.
use affinitypool.Base.{
  ℕ, suc, ◌≡◌, ◌≢◌, refl, ◌∙◌, [], ◌∷◌, Option, none, some, true, arith, length, length-append,
  Option-cases, inl, inr,
}
use affinitypool.Pool.{
  Os, Data, counted, stored, drop_sentry, drop_pool, new_sentry, cancel, Sentry,
}
use affinitypool.Pool.Builder.{Builder, build}
use affinitypool.Pool.Spinning.{spin_up_step, counted_up}
use affinitypool.Pool.Making.{build-agrees}

module _ {Name : Type 0} (os : Os Name) {Task : Type 0} where
  -- If every attempt to create a thread succeeds, whatever its name and stack size: after
  -- `build`, with any settings and any positive fuel, the drop of one sentry that was not
  -- cancelled, as after a panic of its worker, starts a worker more: one handle more than
  -- `num_threads` is stored, and `thread_count` is one more than `num_threads`.
  pub build-drop_sentry :
      (fuel index : ℕ) (b : Builder Name)
      → ((n : ℕ) (name : Option Name) (stack_size : Option ℕ) → os.spawn n name stack_size ≢ none)
      → (d : Data os Task) × (d' : Data os Task) × (build os (suc fuel) b ≡ some d)
        × (drop_sentry os (suc fuel) (new_sentry index) (some d) ≡ some (some d'))
        × (d'.num_threads ≡ d.num_threads)
        × (d'.thread_count ≡ suc d.num_threads)
        × (length d'.thread_handles ≡ suc d.num_threads)
  unfolding drop_sentry
  build-drop_sentry fuel index b works =
      let (d, made, pos, small, workers, count, handles) =
        build-agrees os {Task = Task} fuel b (λ n. works n b.thread_name b.thread_stack_size) in
      elim (Option-cases (os.spawn d.attempts d.name d.stack_size)) [
        | inl fails ↦ absurd (works d.attempts d.name d.stack_size fails)
        | inr (h, e) ↦ (
          d,
          stored os h (counted os d),
          made,
          rw (spin_up_step os fuel d h e) refl,
          refl,
          counted_up os d (omega (arith, count, small)) ∙ omega (arith, count),
          length-append d.thread_handles (h ∷ []) ∙ omega (arith, handles),
        )
      ]

  -- A sentry that was cancelled starts no worker.
  drop_sentry-cancel :
      (fuel : ℕ) (sentry : Sentry) (d : Option (Data os Task))
      → drop_sentry os fuel (cancel sentry) d ≡ some d
  unfolding drop_sentry
  drop_sentry-cancel fuel sentry none = refl
  drop_sentry-cancel fuel sentry (some d) = refl

  -- If every attempt to create a thread with the name and the stack size of the builder
  -- succeeds: after `build`, with any settings and any positive fuel, the drop of the pool joins
  -- `num_threads` handles, keeps none, sets `shutdown` and leaves `thread_count` at 0.
  build-drop_pool :
      (fuel : ℕ) (b : Builder Name)
      → ((n : ℕ) → os.spawn n b.thread_name b.thread_stack_size ≢ none)
      → (d : Data os Task) × (build os (suc fuel) b ≡ some d)
        × (length (drop_pool os d).0 ≡ d.num_threads)
        × ((drop_pool os d).1.thread_count ≡ 0)
        × ((drop_pool os d).1.thread_handles ≡ [])
        × ((drop_pool os d).1.queue.shutdown ≡ true)
  unfolding drop_pool
  build-drop_pool fuel b works =
      let (d, made, pos, small, workers, count, handles) =
        build-agrees os {Task = Task} fuel b works in
      (d, made, handles, refl, refl, refl)
