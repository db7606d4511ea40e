-- ===== src/Queue/Channel/Steps.antt =====
-- src/queue.rs: the queue and its threads as a bag of runnables, over every step.
use affinitypool.Base.{ℕ, ◌+◌, ◌<◌, ◌≡◌, sym, ap, [], ◌++◌, Option, some, arith, dec_lt}
use affinitypool.Base.Family.{total-zero, weight, weight-append, SameTasks}
use affinitypool.Queue.Scan.Weights.{queued}
use affinitypool.Queue.Threads.{asleep, Signal, Env}
use affinitypool.Queue.Turns.{Action}
use affinitypool.Queue.Turns.Balance.{sent_by, delivered_by, dropped_by, ScansWithin}
use affinitypool.Queue.System.{
  System, Reach, start, later, step, log_sent, log_delivered, log_dropped, init, init_thread,
}
use affinitypool.Queue.System.Invariant.{new-fresh}
use affinitypool.Queue.System.Preserve.{step-turn}
use affinitypool.Queue.System.Safety.{
  IsPool, Reach-Inv, CallersOutside, WorkersAtRest, at_rest-shards, at_rest-deques,
}
use affinitypool.Queue.Channel.{Changes, pending, view}
use mathlib.Core.Path.{subst}
use affinitypool.Queue.Channel.Weights.{
  hand_weight, pending-weight, fresh-weight, log_sent-weight, log_delivered-weight,
  log_dropped-weight, weights-Changes, after-ScansWithin, after-weight,
}

module _ {Task : Type 0} (env : Env Task) (bound num_workers : ℕ) (shards : Option ℕ)
    (pool : IsPool bound num_workers) where
  init-scans : (i : ℕ) → ScansWithin num_workers (init_thread {Task = Task} num_workers i).pc
  init-scans i = ground arith

  pub Reach-ScansWithin :
      (s : System Task)
      → Reach env bound num_workers shards s
      → (j : ℕ) → ScansWithin num_workers (s.threads j).pc
  Reach-ScansWithin _ (start {q} made) j =
      let (count, same) = new-fresh num_workers shards q made in
      subst (λ x. ScansWithin num_workers (init_thread {Task = Task} x.num_workers j).pc) (sym same)
        (init-scans j)
  Reach-ScansWithin s' (later {s = s} i a c r eq) j =
      let (e, inv) = Reach-Inv env bound num_workers shards pool s r in
      let (lt, eff, turn, same) = step-turn env bound s s' i a c eq in
      subst (λ x. ScansWithin num_workers (x.threads j).pc) (sym same)
        (after-ScansWithin env inv pool.not_too_many i lt a (Reach-ScansWithin s r) turn c j)

  step-weights :
      (s s' : System Task) (i : ℕ) (a : Action env.crossbeam) (c : env.condvar.Choice)
      → Reach env bound num_workers shards s
      → step env bound s i a c ≡ some s'
      → (sig : Signal Task) × (s'.sent ≡ log_sent sig s.sent)
        × (s'.delivered ≡ log_delivered sig s.delivered)
        × (s'.dropped ≡ log_dropped sig s.dropped)
        × ((w : Task → ℕ)
            → weight w (pending bound s') + weight w (delivered_by sig) + weight w (dropped_by sig)
              ≡ weight w (pending bound s) + weight w (sent_by sig))
  step-weights s s' i a c r eq =
      let (e, inv) = Reach-Inv env bound num_workers shards pool s r in
      let (lt, eff, turn, same) = step-turn env bound s s' i a c eq in
      (
        eff.signal,
        ap (λ (x : System Task). x.sent) same,
        ap (λ (x : System Task). x.delivered) same,
        ap (λ (x : System Task). x.dropped) same,
        subst
            (λ x.
              (w : Task → ℕ)
              → weight w (pending bound x)
                  + weight w (delivered_by eff.signal)
                  + weight w (dropped_by eff.signal)
                ≡ weight w (pending bound s) + weight w (sent_by eff.signal))
            (sym same)
            (after-weight env inv pool.not_too_many i lt a (Reach-ScansWithin s r) turn c),
      )

  -- For a pool of at least one and at most `MAX_THREADS` workers among fewer than `usize::MAX`
  -- threads, in every state that the threads reach over a new queue: each turn does to the bag
  -- of pending runnables and to the logs one of these: it puts a runnable in and logs it as
  -- sent, takes one out and logs it as delivered, takes a list out and logs it as dropped, or
  -- changes neither.
  pub step-Changes :
      (s s' : System Task) (i : ℕ) (a : Action env.crossbeam) (c : env.condvar.Choice)
      → Reach env bound num_workers shards s
      → step env bound s i a c ≡ some s'
      → (sig : Signal Task) × (s'.sent ≡ log_sent sig s.sent)
        × (s'.delivered ≡ log_delivered sig s.delivered)
        × (s'.dropped ≡ log_dropped sig s.dropped)
        × Changes sig (view bound s) (view bound s')
  unfolding view
  step-Changes s s' i a c r eq =
      let (sig, sent, delivered, dropped, weights) = step-weights s s' i a c r eq in
      (
        sig,
        sent,
        delivered,
        dropped,
        weights-Changes sig (pending bound s) (pending bound s') weights,
      )

  -- For a pool of at least one and at most `MAX_THREADS` workers among fewer than `usize::MAX`
  -- threads, in every state that the threads reach over a new queue: the runnables that were
  -- pushed are, with their multiplicity, those that `pop_blocking` has returned, those that were
  -- dropped with the deque of a worker that panicked, and those that are in a shard, in a deque,
  -- or in the hand of a worker that has found one and not returned from `pop_blocking` yet.
  pub Reach-SameTasks :
      (s : System Task)
      → Reach env bound num_workers shards s
      → SameTasks s.sent (s.delivered ++ (s.dropped ++ pending bound s))
  Reach-SameTasks _ (start {q} made) w =
      let (count, same) = new-fresh num_workers shards q made in
      subst (λ x. 0 ≡ weight w (pending bound (init x))) (sym same)
        (sym (fresh-weight w bound num_workers count))
  Reach-SameTasks s' (later {s = s} i a c r eq) w =
      let (sig, sent, delivered, dropped, weights) = step-weights s s' i a c r eq in
      omega (
        arith,
        weights w,
        Reach-SameTasks s r w,
        ap (weight w) sent,
        ap (weight w) delivered,
        ap (weight w) dropped,
        log_sent-weight w sig s.sent,
        log_delivered-weight w sig s.delivered,
        log_dropped-weight w sig s.dropped,
        weight-append w s'.delivered (s'.dropped ++ pending bound s'),
        weight-append w s'.dropped (pending bound s'),
        weight-append w s.delivered (s.dropped ++ pending bound s),
        weight-append w s.dropped (pending bound s),
      )

  -- With empty shards and deques, and no runnable in a hand, the bag is empty.
  pub rest-weight :
      (s : System Task) (w : Task → ℕ)
      → s.queue.num_workers ≡ num_workers
      → ((sh : ℕ) → sh < s.queue.num_injectors → s.queue.injectors sh ≡ [])
      → ((k : ℕ) → k < num_workers → s.queue.deques k ≡ [])
      → ((k : ℕ) → hand_weight w (s.threads k) ≡ 0)
      → weight w (pending bound s) ≡ 0
  unfolding queued
  rest-weight s w size vacant drained no_hand = omega (
    arith,
    pending-weight w bound s,
    total-zero (weight w) s.queue.num_injectors s.queue.injectors
        (λ sh hs. ap (weight w) (vacant sh hs)),
    total-zero (weight w) s.queue.num_workers s.queue.deques
        (λ k hk. ap (weight w) (drained k (omega (arith, size)))),
    total-zero (hand_weight w) bound s.threads (λ k below. no_hand k),
  )

  -- Then what was sent has been delivered or dropped.
  pub emptied-SameTasks :
      (s : System Task)
      → Reach env bound num_workers shards s
      → ((w : Task → ℕ) → weight w (pending bound s) ≡ 0)
      → SameTasks s.sent (s.delivered ++ s.dropped)
  emptied-SameTasks s r vacant w = omega (
    arith,
    Reach-SameTasks s r w,
    weight-append w s.delivered (s.dropped ++ pending bound s),
    weight-append w s.dropped (pending bound s),
    weight-append w s.delivered s.dropped,
    vacant w,
  )

  -- For a pool of at least one and at most `MAX_THREADS` workers among fewer than `usize::MAX`
  -- threads, in every state that the threads reach over a new queue: if every thread but the
  -- workers is outside of `push` and `shutdown`, every worker sleeps on the condition variable
  -- or has exited, and at least one sleeps, then the runnables that were pushed are, with their
  -- multiplicity, those that `pop_blocking` has returned and those that were dropped with the
  -- deque of a worker that panicked.
  pub at_rest-SameTasks :
      (s : System Task) (r : Reach env bound num_workers shards s)
      → CallersOutside env bound num_workers shards pool s r
      → WorkersAtRest env bound num_workers shards pool s r
      → (v : ℕ) → v < num_workers
      → (s.threads v).pc ≡ asleep
      → SameTasks s.sent (s.delivered ++ s.dropped)
  at_rest-SameTasks s r callers workers v lt sleeping =
      let (e, inv) = Reach-Inv env bound num_workers shards pool s r in
      emptied-SameTasks s r (λ w.
        rest-weight s w inv.num_workers
          (at_rest-shards env bound num_workers shards pool s r callers workers v lt sleeping)
          (at_rest-deques env bound num_workers shards pool s r workers) (no_hand w))
    where
      no_hand : (w : Task → ℕ) (k : ℕ) → hand_weight w (s.threads k) ≡ 0
      no_hand w k = elim (dec_lt k num_workers) [
        | yes worker ↦ ground (arith, workers k worker)
        | no caller ↦ ground (arith, callers k (omega arith))
      ]
