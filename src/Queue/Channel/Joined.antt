-- ===== src/Queue/Channel/Joined.antt =====
-- src/queue.rs and src/lib.rs: what the drop of a pool leaves of the runnables.
use affinitypool.Base.{ℕ, ◌≤◌, ◌<◌, ◌≡◌, ◌++◌, Option, inr, arith, dec_lt}
use affinitypool.Base.Family.{SameTasks}
use affinitypool.Queue.Threads.{exited, Thread, Env}
use affinitypool.Queue.Turns.Leaving.{IsOutside}
use affinitypool.Queue.System.{System, Reach}
use affinitypool.Queue.System.Safety.{IsPool, at_rest-deques}
use affinitypool.Queue.System.Closing.{Closed, Closed-Reach}
use affinitypool.Queue.System.Joined.{Closed-IsClosed, joined-shards}
use affinitypool.Queue.Channel.Weights.{hand_weight}
use affinitypool.Queue.Channel.Steps.{rest-weight, emptied-SameTasks}

module _ {Task : Type 0} where
  outside_hand : (w : Task → ℕ) (t : Thread Task) → IsOutside t.pc → hand_weight w t ≡ 0
  outside_hand w t h = ground arith

  exited_hand : (w : Task → ℕ) (t : Thread Task) → t.pc ≡ exited → hand_weight w t ≡ 0
  exited_hand w t h = ground arith

module _ {Task : Type 0} (env : Env Task) (bound num_workers : ℕ) (shards : Option ℕ)
    (pool : IsPool bound num_workers) where
  -- For a pool of at least one and at most `MAX_THREADS` workers among fewer than `usize::MAX`
  -- threads, in every state that the threads reach over a new queue: if `shutdown` was called
  -- while every thread but the workers was in its own code, no thread but the workers has pushed
  -- since, and every worker has exited, then the runnables that were pushed are, with their
  -- multiplicity, those that `pop_blocking` has returned and those that were dropped with the
  -- deque of a worker that panicked.
  pub joined-SameTasks :
      (s : System Task)
      → Closed env bound num_workers shards s
      → ((w : ℕ) → w < num_workers → (s.threads w).pc ≡ exited)
      → SameTasks s.sent (s.delivered ++ s.dropped)
  joined-SameTasks s d joined =
      let (e, closed) = Closed-IsClosed env bound num_workers shards pool s d in
      emptied-SameTasks env bound num_workers shards pool s r (λ w.
        rest-weight env bound num_workers shards pool s w closed.inv.num_workers
          (joined-shards env bound num_workers shards pool s d joined)
          (at_rest-deques env bound num_workers shards pool s r (λ k below. inr (joined k below)))
          (no_hand w closed.outside))
    where
      r : Reach env bound num_workers shards s
      r = Closed-Reach env bound num_workers shards s d

      no_hand :
          (w : Task → ℕ)
          → ((j : ℕ) → num_workers ≤ j → IsOutside (s.threads j).pc)
          → (k : ℕ) → hand_weight w (s.threads k) ≡ 0
      no_hand w outside k = elim (dec_lt k num_workers) [
        | yes worker ↦ exited_hand w (s.threads k) (joined k worker)
        | no caller ↦ outside_hand w (s.threads k) (outside k (omega arith))
      ]
