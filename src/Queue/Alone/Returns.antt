-- ===== src/Queue/Alone/Returns.antt =====
-- src/queue.rs: the return of the worker.
use affinitypool.Base.{ℕ, zero, suc, ◌≤◌, ◌≡◌, refl, inl, inr, some, arith, if◌then◌else◌}
use affinitypool.Queue.{Queue}
use affinitypool.Queue.Scan.Nearer.{Uncontended}
use affinitypool.Queue.Threads.{Thread, Effect, Env}
use affinitypool.Queue.Alone.{has_ended, turns_left, IsAlone, Returned, Goes, pop_alone}
use affinitypool.Queue.Alone.Turns.{act-Next, turns_left-pos, Popping-goes_on, Returned-has_ended}

module _ {Task : Type 0} (env : Env Task) (choices : ℕ → env.crossbeam.Choice) (i : ℕ) where
  module _ (calm : (k : ℕ) → Uncontended env.crossbeam (choices k)) (mask n : ℕ) where
    -- For any `crossbeam_deque` that answers as documented: if no attempt to steal answers
    -- `Retry`, `shutdown` is set, and no other thread holds the `park` mutex, a worker that runs
    -- alone from its start or from a place of `pop_blocking` where it does not sleep is given a
    -- runnable or exits, within `turns_left` of its turns.
    pub pop_alone-Returned :
        (fuel : ℕ) (q : Queue Task) (t : Thread Task)
        → IsAlone mask n q t.pc
        → turns_left mask n t.pc ≤ fuel
        → (e : Effect Task) × (pop_alone env choices i fuel q t ≡ some e) × Returned e
    unfolding pop_alone
    pop_alone-Returned zero q t alone le = absurd (omega (arith, turns_left-pos env mask n i t.pc))
    pop_alone-Returned (suc fuel) q t alone le =
        let (e, acts, goes) =
          act-Next env mask n i t.pc (choices fuel) (calm fuel) q t refl alone in
        rw acts (from e goes (λ q' t' alone' less. pop_alone-Returned fuel q' t' alone' less))
      where
        from :
            (e : Effect Task)
            → Goes mask n (turns_left mask n t.pc) e
            → ((q' : Queue Task) (t' : Thread Task)
                → IsAlone mask n q' t'.pc
                → turns_left mask n t'.pc ≤ fuel
                → (e' : Effect Task) × (pop_alone env choices i fuel q' t' ≡ some e') × Returned e')
            → (e' : Effect Task) × ((if has_ended e.thread.pc
                  then some e
                  else pop_alone env choices i fuel e.queue e.thread)
                ≡ some e')
              × Returned e'
        from e (inl returned) rest =
            rw (Returned-has_ended env mask n i e returned) (e, refl, returned)
        from e (inr (alone', less)) rest =
            rw (Popping-goes_on env mask n i e.thread.pc alone'.popping)
              (rest e.queue e.thread alone' (omega arith))
