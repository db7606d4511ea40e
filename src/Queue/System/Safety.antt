-- ===== src/Queue/System/Safety.antt =====
-- src/queue.rs: what holds whatever the order in which the threads run.
use affinitypool.Base.{
  List-cases, dec_lt, ℕ, ◌≤◌, ◌<◌, ◌≡◌, ◌≢◌, refl, ◌⊎◌, inl, inr, List, [], Option, true, arith,
  usize_max,
}
use affinitypool.Base.Family.{total, total-le}
use affinitypool.Queue.{max_threads}
use affinitypool.Queue.Threads.{asleep, exited, running, raised, Env}
use affinitypool.Queue.Turns.Classes.{is_leaving, holds_lock, Drained, Agent}
use affinitypool.Queue.System.{System, Reach, start, later}
use affinitypool.Queue.System.Invariant.{
  parked_weight, signal_weight, AllLeft, SeenTo, Inv, init-Inv,
}
use affinitypool.Queue.System.Preserve.{step-Inv}
use affinitypool.Queue.System.Moved.{parked_small}
use mathlib.Core.Path.{subst}

-- The pool has workers, no more than `MAX_THREADS`, among `bound` threads in all.
pub record IsPool (bound num_workers : ℕ) : Type 0 where
  pub some_worker : 0 < num_workers
  pub not_too_many : num_workers ≤ max_threads
  pub among : num_workers ≤ bound
  pub countable : bound < usize_max

module _ {Task : Type 0} (env : Env Task) (bound num_workers : ℕ) (shards : Option ℕ)
    (pool : IsPool bound num_workers) where
  -- The invariant holds in every state that the threads reach.
  pub Reach-Inv :
      (s : System Task) → Reach env bound num_workers shards s → (e : ℕ) × Inv num_workers bound e s
  Reach-Inv _ (start {q = q} made) =
      init-Inv num_workers bound shards q pool.some_worker pool.not_too_many pool.among
        pool.countable made
  Reach-Inv s' (later i a c r eq) = let (e, inv) = Reach-Inv _ r in (e, step-Inv env i a c inv eq)

  module _ (s : System Task) (r : Reach env bound num_workers shards s) where
    -- The calling threads are in their own code.
    abbrev pub CallersOutside : Type 0
    CallersOutside = (i : ℕ) → num_workers ≤ i → (s.threads i).pc ≡ running

    -- The workers sleep, except those that have exited.
    abbrev pub WorkersAtRest : Type 0
    WorkersAtRest =
        (i : ℕ) → i < num_workers → ((s.threads i).pc ≡ asleep) ⊎ ((s.threads i).pc ≡ exited)

    resting-Agent :
        (mask i sh : ℕ)
        → CallersOutside
        → WorkersAtRest
        → Agent num_workers mask i sh (s.threads i).pc
        → ⊥
    resting-Agent mask i sh callers workers agent = elim (dec_lt i num_workers) [
      | yes lt ↦ (elim (workers i lt) [
        | inl e ↦ subst (Agent num_workers mask i sh) e agent
        | inr e ↦ subst (Agent num_workers mask i sh) e agent
      ])
      | no ge ↦ ge (subst (Agent num_workers mask i sh) (callers i (omega arith)) agent)
    ]

    still_here :
        (v : ℕ) → v < num_workers → (s.threads v).pc ≡ asleep → AllLeft num_workers s.threads → ⊥
    still_here v lt sleeping gone = elim (gone v lt) [
      | inl e ↦ cc (e, sleeping)
      | inr e ↦ cc (e, sleeping)
    ]

    resting_deque :
        (w : ℕ) (ts : List Task)
        → ((s.threads w).pc ≡ asleep) ⊎ ((s.threads w).pc ≡ exited)
        → Drained (s.threads w).pc ts
        → ts ≡ []
    resting_deque w ts (inl e) d = subst (λ p. Drained p ts) e d
    resting_deque w ts (inr e) d = subst (λ p. Drained p ts) e d

    -- For a pool of at least one and at most `MAX_THREADS` workers among fewer than `usize::MAX`
    -- threads, in every state that the threads reach over a new queue: for each shard that is
    -- not empty, some thread is at a place of `push`, of `pop_blocking` or in a runnable from
    -- which the shard is seen to, or every worker has exited or is about to.
    pub filled-SeenTo :
        (sh : ℕ)
        → sh < s.queue.num_injectors
        → s.queue.injectors sh ≢ []
        → SeenTo num_workers s.queue.mask sh s.threads
    filled-SeenTo sh hs filled =
        let (e, inv) = Reach-Inv s r in inv.seen sh (omega (arith, inv.num_injectors)) filled

    -- For a pool of at least one and at most `MAX_THREADS` workers among fewer than `usize::MAX`
    -- threads, in every state that the threads reach over a new queue: if every thread but the
    -- workers is outside of `push` and `shutdown`, every worker sleeps on the condition variable
    -- or has exited, and at least one sleeps, then every shard is empty.
    pub at_rest-shards :
        CallersOutside
        → WorkersAtRest
        → (v : ℕ) → v < num_workers
        → (s.threads v).pc ≡ asleep
        → (sh : ℕ) → sh < s.queue.num_injectors
        → s.queue.injectors sh ≡ []
    at_rest-shards callers workers v lt sleeping sh hs = elim (List-cases (s.queue.injectors sh)) [
      | inl vacant ↦ vacant
      | inr filled ↦ absurd (none_left (filled-SeenTo sh hs filled))
    ]
      where
        none_left : SeenTo num_workers s.queue.mask sh s.threads → ⊥
        none_left (inl (i, agent)) = resting-Agent s.queue.mask i sh callers workers agent
        none_left (inr gone) = still_here v lt sleeping gone

    -- For a pool of at least one and at most `MAX_THREADS` workers among fewer than `usize::MAX`
    -- threads, in every state that the threads reach over a new queue: if every worker sleeps on
    -- the condition variable or has exited, the deque of each worker is empty.
    pub at_rest-deques : WorkersAtRest → (w : ℕ) → w < num_workers → s.queue.deques w ≡ []
    at_rest-deques workers w lt =
        let (e, inv) = Reach-Inv s r in
        resting_deque w (s.queue.deques w) (workers w lt) (inv.drained w)

    -- For a pool of at least one and at most `MAX_THREADS` workers among fewer than `usize::MAX`
    -- threads, in every state that the threads reach over a new queue: two threads at places
    -- inside the `park` mutex are the same thread.
    pub mutual_exclusion :
        (i j : ℕ) → holds_lock (s.threads i).pc ≡ 1 → holds_lock (s.threads j).pc ≡ 1 → i ≡ j
    mutual_exclusion i j hi hj =
        let (e, inv) = Reach-Inv s r in ground (arith, inv.held i hi, inv.held j hj)

    -- For a pool of at least one and at most `MAX_THREADS` workers among fewer than `usize::MAX`
    -- threads, in every state that the threads reach over a new queue: `parked` is the number of
    -- threads between its two updates and below `usize::MAX`, and `notified` is at most the
    -- number of wake-ups under way.
    pub counters_exact :
        (s.queue.parked ≡ total parked_weight bound s.threads)
        × (s.queue.notified ≤ total signal_weight bound s.threads)
        × (s.queue.parked < usize_max)
    counters_exact =
        let (e, inv) = Reach-Inv s r in
        (
          inv.parked,
          inv.notified,
          omega (
            arith,
            inv.parked,
            inv.countable,
            total-le parked_weight bound s.threads parked_small,
          ),
        )

    -- For a pool of at least one and at most `MAX_THREADS` workers among fewer than `usize::MAX`
    -- threads, in every state that the threads reach over a new queue: if some thread has raised
    -- `notified` and not yet called `notify_one`, `notified` is positive and at most `parked`.
    raised-bounded :
        (i : ℕ)
        → (s.threads i).pc ≡ raised
        → (0 < s.queue.notified) × (s.queue.notified ≤ s.queue.parked)
    raised-bounded i at = let (e, inv) = Reach-Inv s r in inv.claimed i at

    -- For a pool of at least one and at most `MAX_THREADS` workers among fewer than `usize::MAX`
    -- threads, in every state that the threads reach over a new queue: if a thread is at its
    -- exit from the worker loop, `shutdown` is set.
    pub exit-shutdown : (i : ℕ) → (s.threads i).pc ≡ exited → s.queue.shutdown ≡ true
    exit-shutdown i at = let (e, inv) = Reach-Inv s r in inv.leaves i (rw (at, is_leaving) refl)
