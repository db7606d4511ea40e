-- ===== src/Queue/System/Liveness.antt =====
-- src/queue.rs: which threads can go on.
use affinitypool.Base.{ℕ, ◌<◌, ◌≡◌, ◌≢◌, refl, sym, ◌⊎◌, inl, inr, Option, some, true, arith, ltb}
use affinitypool.Queue.{Queue, new}
use affinitypool.Queue.Threads.{Thread, asleep, exited, running, closing, broadcasting, Env}
use affinitypool.Queue.Turns.{go}
use affinitypool.Queue.Turns.Waking.{act-CanAct, holder-CanAct, CanAct}
use affinitypool.Queue.System.{System, Reach, start, later, step, after, init}
use affinitypool.Queue.System.Alive.{Alive, Broadcasts, after-Alive}
use affinitypool.Queue.System.Invariant.{new-fresh}
use affinitypool.Queue.System.Preserve.{step-turn}
use affinitypool.Queue.System.Safety.{IsPool}
use mathlib.Core.Path.{subst}

pub ltb-true : (a b : ℕ) → a < b → ltb a b ≡ true
ltb-true a b h = ground arith

asleep_or_not : {Task : Type 0} (t : Thread Task) → (t.pc ≡ asleep) ⊎ (t.pc ≢ asleep)
asleep_or_not t = ground arith

Broadcasts-busy :
    {Task : Type 0} (t : Thread Task)
    → Broadcasts t.pc
    → (t.pc ≢ asleep) × (t.pc ≢ exited) × (t.pc ≢ running)
Broadcasts-busy t b = ground arith

module _ {Task : Type 0} (env : Env Task) (bound num_workers : ℕ) (shards : Option ℕ)
    (pool : IsPool bound num_workers) where
  start-Alive : (q : Queue Task) → new num_workers shards ≡ some q → Alive bound (init q)
  start-Alive q made =
      let (count, same) = new-fresh num_workers shards q made in
      subst (λ x. Alive bound (init x)) (sym same)
        (record { owner = λ j e. cc e; woken_up = λ shut v sleeping. cc shut })

  Reach-Alive : (s : System Task) → Reach env bound num_workers shards s → Alive bound s
  Reach-Alive _ (start {q} made) = start-Alive q made
  Reach-Alive s' (later {s = s} i a c r eq) =
      let (lt, eff, turn, same) = step-turn env bound s s' i a c eq in
      subst (Alive bound) (sym same) (after-Alive env (Reach-Alive s r) i lt a turn c)

  -- For a pool of at least one and at most `MAX_THREADS` workers among fewer than `usize::MAX`
  -- threads, in every state that the threads reach over a new queue: if no thread, a worker in a
  -- runnable among them, is in `shutdown` between the store of the flag and the end of
  -- `notify_all`, and `shutdown` is set, no thread sleeps on the condition variable.
  pub shutdown-awake :
      (s : System Task)
      → Reach env bound num_workers shards s
      → ((k : ℕ) → ((s.threads k).pc ≢ closing) × ((s.threads k).pc ≢ broadcasting))
      → s.queue.shutdown ≡ true
      → (v : ℕ) → (s.threads v).pc ≢ asleep
  shutdown-awake s r outside shut v sleeping =
      let (k, below, b) = (Reach-Alive s r).woken_up shut v sleeping in
      elim b [ inl closes ↦ (outside k).0 closes | inr broadcasts ↦ (outside k).1 broadcasts ]

  turn-step :
      (s : System Task) (k : ℕ) (c : env.crossbeam.Choice) (d : env.condvar.Choice)
      → k < bound
      → CanAct env k s.queue (s.threads k) (s.threads k).pc c
      → (s' : System Task) × (step env bound s k (go c) d ≡ some s')
  unfolding step
  turn-step s k c d lt (eff, turn) =
      (after env bound s k d eff, rw (ltb-true k bound lt, turn) refl)

  -- For a pool of at least one and at most `MAX_THREADS` workers among fewer than `usize::MAX`
  -- threads, in every state that the threads reach over a new queue: if a thread below `bound`
  -- is not asleep, not at its exit and not in its own code, then it, or the thread that holds
  -- the `park` mutex, has a turn.
  pub step-possible :
      (s : System Task) (i : ℕ) (c : env.crossbeam.Choice) (d : env.condvar.Choice)
      → Reach env bound num_workers shards s
      → i < bound
      → (s.threads i).pc ≢ asleep
      → (s.threads i).pc ≢ exited
      → (s.threads i).pc ≢ running
      → (k : ℕ) × (s' : System Task) × (step env bound s k (go c) d ≡ some s')
        × ((k ≡ i) ⊎ (s.queue.park ≡ some k))
  step-possible s i c d r lt sleeps exits runs =
      elim (act-CanAct env i s.queue (s.threads i) (s.threads i).pc c sleeps exits runs) [
        | inl can ↦ let (s', e) = turn-step s i c d lt can in (i, s', e, inl refl)
        | inr (holder, held) ↦
            let (below, inside) = (Reach-Alive s r).owner holder held in
            let (s', e) = turn-step s holder c d below (
              holder-CanAct env holder s.queue (s.threads holder) (s.threads holder).pc c inside) in
            (holder, s', e, inr held)
      ]

  -- For a pool of at least one and at most `MAX_THREADS` workers among fewer than `usize::MAX`
  -- threads, in every state that the threads reach over a new queue: if `shutdown` is set and
  -- some worker has not exited and is not in a runnable, then some thread has a turn.
  shutdown-possible :
      (s : System Task) (w : ℕ) (c : env.crossbeam.Choice) (d : env.condvar.Choice)
      → Reach env bound num_workers shards s
      → s.queue.shutdown ≡ true
      → w < num_workers
      → (s.threads w).pc ≢ exited
      → (s.threads w).pc ≢ running
      → (k : ℕ) × (s' : System Task) × (step env bound s k (go c) d ≡ some s')
  shutdown-possible s w c d r shut lt exits runs = elim (asleep_or_not (s.threads w)) [
    | inl sleeping ↦
        let (k, below, broadcasts) = (Reach-Alive s r).woken_up shut w sleeping in
        let (sleeps, exited', runs') = Broadcasts-busy (s.threads k) broadcasts in
        any_step (step-possible s k c d r below sleeps exited' runs')
    | inr awake ↦ any_step (step-possible s w c d r (omega (arith, pool.among)) awake exits runs)
  ]
    where
      any_step :
          {i : ℕ}
          → ((k : ℕ) × (s' : System Task) × (step env bound s k (go c) d ≡ some s')
              × ((k ≡ i) ⊎ (s.queue.park ≡ some k)))
          → (k : ℕ) × (s' : System Task) × (step env bound s k (go c) d ≡ some s')
      any_step (k, s', e, which) = (k, s', e)
