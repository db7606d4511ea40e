-- ===== src/Queue/Drain/Ends.antt =====
-- src/queue.rs and src/lib.rs: what a pool has done with its runnables when all threads are at rest.
use affinitypool.Base.{
  ℕ, zero, suc, ◌<◌, ◌≡◌, ◌≢◌, dec_lt, sym, ◌∙◌, ap, inl, inr, ◌++◌, Option, some, true, false,
  arith,
}
use affinitypool.Base.Family.{SameTasks}
use affinitypool.Queue.{Queue}
use affinitypool.Queue.Scan.Nearer.{Uncontended}
use affinitypool.Queue.Threads.{Thread, asleep, exited, running, closing, broadcasting, Env}
use affinitypool.Queue.Turns.{Action, go, pushes, closes, act}
use affinitypool.Queue.Turns.Ensures.{Ensures, Ensures-some}
use affinitypool.Queue.System.{System, Reach, step}
use affinitypool.Queue.System.Moved.{guarded}
use affinitypool.Queue.System.Preserve.{step-turn}
use affinitypool.Queue.System.Safety.{IsPool, Reach-Inv, exit-shutdown}
use affinitypool.Queue.System.Liveness.{shutdown-awake}
use affinitypool.Queue.System.Closing.{Closed, shuts, goes, Closed-Reach}
use affinitypool.Queue.Channel.Steps.{at_rest-SameTasks}
use affinitypool.Queue.Channel.Joined.{joined-SameTasks}
use affinitypool.Queue.Drain.{Tame, Run, stay, runs}
use affinitypool.Queue.Drain.Runs.{run-Spent}
use affinitypool.Queue.Drain.Rest.{AtRest, stuck-AtRest, still-AtRest, AtRest-reached}
use mathlib.Core.Path.{subst}

-- From `s` to `s'` every worker has gone to sleep, and the runnables that were pushed by `s` are those
-- that workers were given and those that were dropped with a deque.
pub record IsIdle {Task : Type 0} (num_workers : ℕ) (s s' : System Task) : Type 0 where
  pub all_asleep : (w : ℕ) → w < num_workers → (s'.threads w).pc ≡ asleep
  pub same_tasks : SameTasks s.sent (s'.delivered ++ s'.dropped)

-- The same, and every worker has exited.
pub record IsJoined {Task : Type 0} (num_workers : ℕ) (s s' : System Task) : Type 0 where
  pub all_exited : (w : ℕ) → w < num_workers → (s'.threads w).pc ≡ exited
  pub same_tasks : SameTasks s.sent (s'.delivered ++ s'.dropped)

module _ {Task : Type 0} where
  Tame-silent :
      (env : Env Task) (a : Action env.crossbeam) (r : Task)
      → Tame env.crossbeam a
      → a ≡ pushes r
      → ⊥
  Tame-silent env a r tame e = subst (Tame env.crossbeam) e tame

  running-closes :
      (env : Env Task) (i : ℕ) (q : Queue Task) (t : Thread Task)
      → Ensures (λ x. x.queue.shutdown ≡ true) (act env running closes i q t)
  unfolding act
  running-closes env i q t = ground arith

module _ {Task : Type 0} (env : Env Task) (bound num_workers : ℕ) (shards : Option ℕ)
    (pool : IsPool bound num_workers) where
  Closed-shutdown :
      (s : System Task) → Closed env bound num_workers shards s → s.queue.shutdown ≡ true
  Closed-shutdown s' (shuts {s = s} i c r callers open' foreign eq) =
      let (lt, eff, turn, same) = step-turn env bound s s' i closes c eq in
      ap (λ (x : System Task). x.queue.shutdown) same
      ∙ Ensures-some (λ x. x.queue.shutdown ≡ true) _ turn
          (subst
            (λ p. Ensures (λ x. x.queue.shutdown ≡ true) (act env p closes i s.queue (s.threads i)))
            (sym (callers i foreign)) (running-closes env i s.queue (s.threads i)))
  Closed-shutdown s' (goes {s = s} i a c d silent eq) =
      let (e, inv) =
        Reach-Inv env bound num_workers shards pool s
          (Closed-Reach env bound num_workers shards s d) in
      let (lt, eff, turn, same) = step-turn env bound s s' i a c eq in
      ap (λ (x : System Task). x.queue.shutdown) same
      ∙ (guarded env inv i lt a turn).stays_shut (Closed-shutdown s d)

  Run-Closed :
      (k : ℕ) (s s' : System Task)
      → Closed env bound num_workers shards s
      → Run env bound s k s'
      → Closed env bound num_workers shards s'
  Run-Closed zero s s' d stay = d
  Run-Closed (suc k) s s' d (runs {s' = mid} i a c run tame eq) =
      goes i a c (Run-Closed k s mid d run) (λ r e. absurd (Tame-silent env a r tame e)) eq

  rested-IsIdle :
      (s : System Task) (k : ℕ) (s' : System Task)
      → Reach env bound num_workers shards s
      → s.queue.shutdown ≡ false
      → Run env bound s k s'
      → AtRest num_workers s'
      → IsIdle num_workers s s'
  rested-IsIdle s k s' r open' run rest =
      let sp = run-Spent env bound num_workers shards pool s k s' r run in
      let asleep_all : (w : ℕ) → w < num_workers → (s'.threads w).pc ≡ asleep = λ w lt.
        elim (rest.workers w lt) [
          | inl sleeps ↦ sleeps
          | inr left ↦ absurd (
              cc (
                exit-shutdown env bound num_workers shards pool s' sp.reached w left,
                sp.same_shutdown,
                open',
              ))
        ] in
      record {
        all_asleep = asleep_all;
        same_tasks =
            subst (λ log. SameTasks log (s'.delivered ++ s'.dropped)) sp.unsent
              (at_rest-SameTasks env bound num_workers shards pool s' sp.reached rest.callers
                rest.workers 0 pool.some_worker (asleep_all 0 pool.some_worker));
      }

  at_rest-outside :
      (s : System Task)
      → AtRest num_workers s
      → (k : ℕ) → ((s.threads k).pc ≢ closing) × ((s.threads k).pc ≢ broadcasting)
  at_rest-outside s rest k = elim (dec_lt k num_workers) [
    | yes worker ↦ (elim (rest.workers k worker) [
      | inl sleeps ↦ (λ e. cc (e, sleeps), λ e. cc (e, sleeps))
      | inr left ↦ (λ e. cc (e, left), λ e. cc (e, left))
    ])
    | no caller ↦ let own = rest.callers k (omega arith) in (λ e. cc (e, own), λ e. cc (e, own))
  ]

  pub rested-IsJoined :
      (s : System Task) (k : ℕ) (s' : System Task)
      → Closed env bound num_workers shards s
      → Run env bound s k s'
      → AtRest num_workers s'
      → IsJoined num_workers s s'
  rested-IsJoined s k s' closed run rest =
      let sp =
        run-Spent env bound num_workers shards pool s k s'
          (Closed-Reach env bound num_workers shards s closed) run in
      let closed' = Run-Closed k s s' closed run in
      let exited_all : (w : ℕ) → w < num_workers → (s'.threads w).pc ≡ exited = λ w lt.
        elim (rest.workers w lt) [
          | inl sleeps ↦ absurd (
              shutdown-awake env bound num_workers shards pool s' sp.reached
                (at_rest-outside s' rest) (Closed-shutdown s' closed') w sleeps)
          | inr left ↦ left
        ] in
      record {
        all_exited = exited_all;
        same_tasks =
            subst (λ log. SameTasks log (s'.delivered ++ s'.dropped)) sp.unsent
              (joined-SameTasks env bound num_workers shards pool s' closed' exited_all);
      }

  module _ (calm : env.crossbeam.Choice) (uncontended : Uncontended env.crossbeam calm)
      (d : env.condvar.Choice) where
    -- For any `crossbeam_deque` that answers as documented and may do so without `Retry`: for a
    -- pool of at least one and at most `MAX_THREADS` workers among fewer than `usize::MAX`
    -- threads, in every state that the threads reach over a new queue: if `shutdown` is not set,
    -- and turns from there, in any order, with which nothing is pushed, `shutdown` is not called
    -- and no attempt to steal answers `Retry`, lead to a state in which no worker is in a
    -- runnable, one that blocks among them, and, for one choice of `notify_one`, no thread has a
    -- turn of its own that is no contended steal, then every worker sleeps there on the
    -- condition variable, and the runnables that were pushed are, with their multiplicity, those
    -- that `pop_blocking` has returned and those that were dropped with the deque of a worker
    -- that panicked.
    pub stuck-IsIdle :
        (s : System Task) (k : ℕ) (s' : System Task)
        → Reach env bound num_workers shards s
        → s.queue.shutdown ≡ false
        → Run env bound s k s'
        → ((w : ℕ) → w < num_workers → (s'.threads w).pc ≢ running)
        → ((i : ℕ) (c : env.crossbeam.Choice) (s'' : System Task)
            → Uncontended env.crossbeam c
            → step env bound s' i (go c) d ≡ some s''
            → ⊥)
        → IsIdle num_workers s s'
    stuck-IsIdle s k s' r open' run idle stuck = rested-IsIdle s k s' r open' run (
        still-AtRest env bound num_workers shards pool calm uncontended d s'
          (run-Spent env bound num_workers shards pool s k s' r run).reached idle stuck)

    -- For any `crossbeam_deque` that answers as documented and may do so without `Retry`: for a
    -- pool of at least one and at most `MAX_THREADS` workers among fewer than `usize::MAX`
    -- threads, in every state that the threads reach over a new queue: if `shutdown` was called
    -- while every thread but the workers was in its own code, no thread but the workers has
    -- pushed since, and turns from there, in any order, with which nothing is pushed, `shutdown`
    -- is not called and no attempt to steal answers `Retry`, lead to a state in which, for one
    -- choice of `notify_one`, no thread has such a turn, then every worker has exited there, and
    -- the runnables that were pushed are, with their multiplicity, those that `pop_blocking` has
    -- returned and those that were dropped with the deque of a worker that panicked.
    stuck-IsJoined :
        (s : System Task) (k : ℕ) (s' : System Task)
        → Closed env bound num_workers shards s
        → Run env bound s k s'
        → ((i : ℕ) (a : Action env.crossbeam) (s'' : System Task)
            → Tame env.crossbeam a
            → step env bound s' i a d ≡ some s''
            → ⊥)
        → IsJoined num_workers s s'
    stuck-IsJoined s k s' closed run stuck = rested-IsJoined s k s' closed run (
        stuck-AtRest env bound num_workers shards pool calm uncontended d s'
          (Closed-Reach env bound num_workers shards s' (Run-Closed k s s' closed run)) stuck)

    -- For any `crossbeam_deque` that answers as documented and may do so without `Retry`: for a
    -- pool of at least one and at most `MAX_THREADS` workers among fewer than `usize::MAX`
    -- threads, in every state that the threads reach over a new queue: if `shutdown` is not set,
    -- some turns, with which nothing is pushed, `shutdown` is not called and no attempt to steal
    -- answers `Retry`, lead from there to a state where every worker sleeps on the condition
    -- variable, and the runnables that were pushed are, with their multiplicity, those that
    -- `pop_blocking` has returned and those that were dropped with the deque of a worker that
    -- panicked.
    IsIdle-reached :
        (s : System Task)
        → Reach env bound num_workers shards s
        → s.queue.shutdown ≡ false
        → (k : ℕ) × (s' : System Task) × Run env bound s k s' × IsIdle num_workers s s'
    IsIdle-reached s r open' =
        let (k, s', run, rest) =
          AtRest-reached env bound num_workers shards pool calm uncontended d s r in
        (k, s', run, rested-IsIdle s k s' r open' run rest)

    -- x
    pub IsJoined-reached :
        (s : System Task)
        → Closed env bound num_workers shards s
        → (k : ℕ) × (s' : System Task) × Run env bound s k s' × IsJoined num_workers s s'
    IsJoined-reached s closed =
        let (k, s', run, rest) =
          AtRest-reached env bound num_workers shards pool calm uncontended d s
            (Closed-Reach env bound num_workers shards s closed) in
        (k, s', run, rested-IsJoined s k s' closed run rest)
