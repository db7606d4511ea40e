-- ===== src/Tests/Delivery.antt =====
-- The same worker and caller: a runnable is taken, another is dropped after a panic, and the queue is
-- shut down.
use affinitypool.Base.{
  ℕ, ℕ_discrete, true, suc, ◌<◌, ◌≤◌, ◌≡◌, ◌≢◌, refl, ◌++◌, arith, ◌⊎◌, inl, zero, none, [], ◌∷◌,
}
use affinitypool.Base.Family.{SameTasks}
use affinitypool.Queue.Scan.{steal_injector, steal_peer, scan_step}
use affinitypool.Queue.Threads.{exited, asleep, running, Signal}
use affinitypool.Queue.Turns.{pushes, panics, act, foreign_push}
use affinitypool.Queue.System.{System, step, Reach, log_sent, log_delivered, log_dropped}
use affinitypool.Queue.Channel.{Changes, view, pending}
use affinitypool.Queue.Channel.Steps.{step-Changes, Reach-SameTasks, at_rest-SameTasks}
use affinitypool.Cpu.{route_shard}
use affinitypool.Tests.World.{
  env, turn, turns, turns-Reach, turns-running, turn-Reach, turn-running, turn-step, has_turn,
}
use affinitypool.Tests.Threads.{
  one_worker, at_rest, rest-Reach, caller_outside, sent, raising, raising-Reach,
}

pushing : has_turn (step env 2 at_rest 1 (pushes 7) tt) ≡ true
unfolding step act scan_step steal_injector steal_peer foreign_push route_shard ℕ_discrete
pushing = refl

step-Changes_example :
    (sig : Signal ℕ) × (sent.sent ≡ log_sent sig at_rest.sent)
    × (sent.delivered ≡ log_delivered sig at_rest.delivered)
    × (sent.dropped ≡ log_dropped sig at_rest.dropped)
    × Changes sig (view 2 at_rest) (view 2 sent)
step-Changes_example =
    step-Changes env 2 1 none one_worker at_rest sent 1 (pushes 7) tt rest-Reach
      (turn-step 2 at_rest 1 (pushes 7) pushing)

Reach-SameTasks_example :
    SameTasks raising.sent (raising.delivered ++ (raising.dropped ++ pending 2 raising))
Reach-SameTasks_example = Reach-SameTasks env 2 1 none one_worker raising raising-Reach

-- The worker takes the runnable, which pushes another and panics. The worker that replaces it sleeps.
abbrev taken : System ℕ
taken = turns 2 60 0 (turns 2 5 1 raising)

abbrev panicked : System ℕ
panicked = turn 2 (turns 2 5 0 (turn 2 taken 0 (pushes 8))) 0 panics

abbrev replaced : System ℕ
replaced = turns 2 60 0 panicked

replaced-Reach : Reach env 2 1 none replaced
replaced-Reach = turns-Reach 2 1 60 0 _ (
    turn-Reach 2 1 _ 0 panics (
      turns-Reach 2 1 5 0 _ (
        turn-Reach 2 1 _ 0 (pushes 8)
          (turns-Reach 2 1 60 0 _ (turns-Reach 2 1 5 1 raising raising-Reach)))))

replacement_sleeps : (replaced.threads 0).pc ≡ asleep
unfolding step act scan_step steal_injector steal_peer foreign_push route_shard ℕ_discrete
replacement_sleeps = refl

one_dropped : replaced.dropped ≡ 8 ∷ []
unfolding step act scan_step steal_injector steal_peer foreign_push route_shard ℕ_discrete
one_dropped = refl

-- A third thread, which has no turn, is in its own code all the time.
third_stays : (j : ℕ) → (replaced.threads (suc (suc j))).pc ≡ running
third_stays j =
    let not_worker : 0 ≢ suc (suc j) = λ e. omega arith in
    let not_caller : 1 ≢ suc (suc j) = λ e. omega arith in
    turns-running 2 60 0 (suc (suc j)) panicked not_worker (
      turn-running 2 _ 0 (suc (suc j)) panics not_worker (
        turns-running 2 5 0 (suc (suc j)) _ not_worker (
          turn-running 2 taken 0 (suc (suc j)) (pushes 8) not_worker (
            turns-running 2 60 0 (suc (suc j)) _ not_worker (
              turns-running 2 5 1 (suc (suc j)) raising not_caller (
                turns-running 2 4 1 (suc (suc j)) sent not_caller (
                  turn-running 2 at_rest 1 (suc (suc j)) (pushes 7) not_caller
                    (caller_outside (suc (suc j)) (omega arith)))))))))

caller_stays : (i : ℕ) → 1 ≤ i → (replaced.threads i).pc ≡ running
unfolding step act scan_step steal_injector steal_peer foreign_push route_shard ℕ_discrete
caller_stays zero le = absurd (omega arith)
caller_stays (suc zero) le = refl
caller_stays (suc (suc j)) le = third_stays j

worker_stays :
    (i : ℕ) → i < 1 → ((replaced.threads i).pc ≡ asleep) ⊎ ((replaced.threads i).pc ≡ exited)
worker_stays zero lt = inl replacement_sleeps
worker_stays (suc j) lt = absurd (omega arith)

at_rest-SameTasks_example : SameTasks replaced.sent (replaced.delivered ++ replaced.dropped)
at_rest-SameTasks_example =
    at_rest-SameTasks env 2 1 none one_worker replaced replaced-Reach caller_stays worker_stays 0
      (omega arith) replacement_sleeps
