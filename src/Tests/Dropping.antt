-- ===== src/Tests/Dropping.antt =====
-- The same worker and caller: the queue is shut down while the worker sleeps, or while a runnable waits
-- for it.
use affinitypool.Base.{
  ℕ, ℕ_discrete, true, suc, ◌<◌, ◌≤◌, ◌≡◌, ◌≢◌, refl, false, arith, zero, none, [], ◌∷◌,
}
use affinitypool.Queue.Scan.{steal_injector, steal_peer, scan_step}
use affinitypool.Queue.Threads.{exited, asleep, running, closing, broadcasting}
use affinitypool.Queue.Turns.{pushes, closes, act, foreign_push, finishes}
use affinitypool.Queue.System.{System, step, Reach}
use affinitypool.Queue.System.Liveness.{shutdown-awake}
use affinitypool.Cpu.{route_shard}
use affinitypool.Queue.{fresh}
use affinitypool.Pool.{Data, initial}
use affinitypool.Pool.Builder.{Builder, empty, worker_threads}
use affinitypool.Tests.Callers.{os}
use affinitypool.Tests.World.{
  env, turn, turns, turns-Reach, turns-running, turn-Reach, turn-running, turn-step, has_turn,
  turns-Closed, turn-Closed,
}
use affinitypool.Tests.Threads.{
  one_worker, at_rest, rest-Reach, caller_outside, sent, raising, raising-Reach,
}
use affinitypool.Queue.System.Closing.{Closed, shuts}

-- The queue is shut down while the worker sleeps.
abbrev shut_down : System ℕ
shut_down = turns 2 3 1 (turn 2 at_rest 1 closes)

shut_down-Reach : Reach env 2 1 none shut_down
shut_down-Reach = turns-Reach 2 1 3 1 _ (turn-Reach 2 1 at_rest 1 closes rest-Reach)

caller_done : (i : ℕ) → 1 ≤ i → (shut_down.threads i).pc ≡ running
unfolding step act scan_step steal_injector steal_peer foreign_push route_shard ℕ_discrete
caller_done zero le = absurd (omega arith)
caller_done (suc zero) le = refl
caller_done (suc (suc j)) le =
    turns-running 2 3 1 (suc (suc j)) (turn 2 at_rest 1 closes) (λ e. omega arith)
      (turn-running 2 at_rest 1 (suc (suc j)) closes (λ e. omega arith)
        (caller_outside (suc (suc j)) (omega arith)))

queue_shut : shut_down.queue.shutdown ≡ true
unfolding step act scan_step steal_injector steal_peer foreign_push route_shard ℕ_discrete
queue_shut = refl

not_in_shutdown :
    (k : ℕ) → ((shut_down.threads k).pc ≢ closing) × ((shut_down.threads k).pc ≢ broadcasting)
unfolding step act scan_step steal_injector steal_peer foreign_push route_shard ℕ_discrete
not_in_shutdown zero = (λ e. cc e, λ e. cc e)
not_in_shutdown (suc j) =
    let own = caller_done (suc j) (omega arith) in (λ e. cc (e, own), λ e. cc (e, own))

shutdown-awake_example : (shut_down.threads 0).pc ≢ asleep
shutdown-awake_example =
    shutdown-awake env 2 1 none one_worker shut_down shut_down-Reach not_in_shutdown queue_shut 0

-- The caller has returned from its push, and the worker has not run yet.
abbrev pub loaded : System ℕ
loaded = turns 2 2 1 raising

loaded-Reach : Reach env 2 1 none loaded
loaded-Reach = turns-Reach 2 1 2 1 raising raising-Reach

pub loaded_outside : (i : ℕ) → 1 ≤ i → (loaded.threads i).pc ≡ running
unfolding step act scan_step steal_injector steal_peer foreign_push route_shard ℕ_discrete
loaded_outside zero le = absurd (omega arith)
loaded_outside (suc zero) le = refl
loaded_outside (suc (suc j)) le =
    turns-running 2 2 1 (suc (suc j)) raising (λ e. omega arith)
      (turns-running 2 4 1 (suc (suc j)) sent (λ e. omega arith)
        (turn-running 2 at_rest 1 (suc (suc j)) (pushes 7) (λ e. omega arith)
          (caller_outside (suc (suc j)) (omega arith))))

loaded_open : loaded.queue.shutdown ≡ false
unfolding step act scan_step steal_injector steal_peer foreign_push route_shard ℕ_discrete
loaded_open = refl

pub closing_turn : has_turn (step env 2 loaded 1 closes tt) ≡ true
unfolding step act scan_step steal_injector steal_peer foreign_push route_shard ℕ_discrete
closing_turn = refl

abbrev pub closing_down : System ℕ
closing_down = turn 2 loaded 1 closes

pub closing-Closed : Closed env 2 1 none closing_down
closing-Closed =
    shuts 1 tt loaded-Reach loaded_outside loaded_open (omega arith)
      (turn-step 2 loaded 1 closes closing_turn)

-- The worker takes the runnable, runs it, and exits.
abbrev pub joined : System ℕ
joined = turns 2 60 0 (turn 2 (turns 2 60 0 (turns 2 3 1 closing_down)) 0 finishes)

joined-Closed : Closed env 2 1 none joined
joined-Closed = turns-Closed 2 1 60 0 _ (
    turn-Closed 2 1 _ 0 finishes (λ r e. absurd (cc e))
      (turns-Closed 2 1 60 0 _ (turns-Closed 2 1 3 1 closing_down closing-Closed)))

pub worker_joined : (w : ℕ) → w < 1 → (joined.threads w).pc ≡ exited
unfolding step act scan_step steal_injector steal_peer foreign_push route_shard ℕ_discrete
worker_joined zero lt = refl
worker_joined (suc j) lt = absurd (omega arith)

-- The pool of that worker.
abbrev one_thread : Builder ℕ
one_thread = worker_threads 1 empty

abbrev its_data : Data (os 0) ℕ
its_data = record (initial (os 0) none none 1 (fresh 1 1)) {
  thread_count = 1;
  attempts = 1;
  thread_handles = 0 ∷ [];
}
