-- ===== src/Queue/Drain/Runs.antt =====
-- src/queue.rs and src/lib.rs: the runs of tame turns.
use affinitypool.Base.{ℕ, zero, suc, ◌+◌, ◌≤◌, ◌≡◌, refl, ◌∙◌, ap, Option, some, arith}
use affinitypool.Queue.Threads.{Env}
use affinitypool.Queue.Turns.{Action}
use affinitypool.Queue.System.{System, Reach, step, after, later}
use affinitypool.Queue.System.Moved.{guarded}
use affinitypool.Queue.System.Preserve.{step-turn}
use affinitypool.Queue.System.Safety.{IsPool, Reach-Inv}
use affinitypool.Queue.Channel.Steps.{Reach-ScansWithin}
use affinitypool.Queue.Drain.{Tame, potential, Run, stay, runs}
use affinitypool.Queue.Drain.Steps.{after-potential, after-unsent, after_shutdown}
use mathlib.Core.Path.{subst}

-- What a run from `s` to `s'` keeps, with the number of its steps taken from the potential.
pub record Spent {Task : Type 0} (env : Env Task) (bound num_workers : ℕ) (shards : Option ℕ)
    (s : System Task) (k : ℕ) (s' : System Task) : Type 0 where
  pub reached : Reach env bound num_workers shards s'
  pub same_mask : s'.queue.mask ≡ s.queue.mask
  pub spent :
      k + potential s.queue.mask num_workers bound s' ≤ potential s.queue.mask num_workers bound s
  pub unsent : s'.sent ≡ s.sent
  pub same_shutdown : s'.queue.shutdown ≡ s.queue.shutdown

module _ {Task : Type 0} (env : Env Task) (bound num_workers : ℕ) (shards : Option ℕ)
    (pool : IsPool bound num_workers) where
  step-Spent :
      (s : System Task) (k : ℕ) (s' s'' : System Task) (i : ℕ) (a : Action env.crossbeam)
      (c : env.condvar.Choice)
      → Spent env bound num_workers shards s k s'
      → Tame env.crossbeam a
      → step env bound s' i a c ≡ some s''
      → Spent env bound num_workers shards s (suc k) s''
  step-Spent s k s' s'' i a c sp tame eq =
      let (e, inv) = Reach-Inv env bound num_workers shards pool s' sp.reached in
      let (lt, eff, turn, same) = step-turn env bound s' s'' i a c eq in
      let within = Reach-ScansWithin env bound num_workers shards pool s' sp.reached in
      record {
        reached = later i a c sp.reached eq;
        same_mask =
            ap (λ (x : System Task). x.queue.mask) same
            ∙ (guarded env inv i lt a turn).mask
            ∙ sp.same_mask;
        spent = omega (
          arith,
          sp.spent,
          ap (potential s.queue.mask num_workers bound) same,
          subst
              (λ m.
                suc (potential m num_workers bound (after env bound s' i c eff))
                ≤ potential m num_workers bound s')
              sp.same_mask (after-potential env inv pool.not_too_many i lt a within tame turn c),
        );
        unsent =
            ap (λ (x : System Task). x.sent) same
            ∙ after-unsent env inv pool.not_too_many i lt a within tame turn c
            ∙ sp.unsent;
        same_shutdown =
            ap (λ (x : System Task). x.queue.shutdown) same
            ∙ after_shutdown env inv pool.not_too_many i lt a within tame turn c
            ∙ sp.same_shutdown;
      }

  pub run-Spent :
      (s : System Task) (k : ℕ) (s' : System Task)
      → Reach env bound num_workers shards s
      → Run env bound s k s'
      → Spent env bound num_workers shards s k s'
  run-Spent s zero s' r stay = record {
    reached = r;
    same_mask = refl;
    spent = omega arith;
    unsent = refl;
    same_shutdown = refl;
  }
  run-Spent s (suc k) s' r (runs {s' = mid} i a c run tame eq) =
      step-Spent s k mid s' i a c (run-Spent s k mid r run) tame eq

  -- For a pool of at least one and at most `MAX_THREADS` workers among fewer than `usize::MAX`
  -- threads, in every state that the threads reach over a new queue: of turns from there, in any
  -- order, with which nothing is pushed, `shutdown` is not called and no attempt to steal
  -- answers `Retry`, the number and the `potential` of the state that they lead to are together
  -- at most the `potential` of the state that they start from.
  pub run-bounded :
      (s : System Task) (k : ℕ) (s' : System Task)
      → Reach env bound num_workers shards s
      → Run env bound s k s'
      → k + potential s.queue.mask num_workers bound s' ≤ potential s.queue.mask num_workers bound s
  run-bounded s k s' r run = (run-Spent s k s' r run).spent
