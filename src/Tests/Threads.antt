-- ===== src/Tests/Threads.antt =====
-- One worker and one caller on one queue: the worker falls asleep, and the caller pushes.
use affinitypool.Base.{
  ℕ_discrete, usize_max, ℕ, zero, suc, ◌<◌, ◌≤◌, ◌≡◌, refl, [], none, arith, ◌⊎◌, inl,
}
use affinitypool.Queue.{fresh, new, num_shards, clamp, ceil_log2, next_power_of_two}
use affinitypool.Queue.Scan.{steal_injector, steal_peer, scan_step}
use affinitypool.Queue.Threads.{exited, asleep, running, raised}
use affinitypool.Queue.Turns.{pushes, act, foreign_push}
use affinitypool.Queue.System.{System, init, step, Reach, start}
use affinitypool.Queue.System.Safety.{IsPool, at_rest-shards, mutual_exclusion, counters_exact}
use affinitypool.Cpu.{route_shard}
use affinitypool.Base.Family.{total}
use affinitypool.Queue.Turns.Classes.{holds_lock}
use affinitypool.Queue.System.Invariant.{parked_weight, signal_weight}
use affinitypool.Tests.World.{env, turn, turns, turns-Reach, turns-running, turn-Reach}

abbrev pub at_start : System ℕ
at_start = init (fresh 1 1)

abbrev pub one_worker : IsPool 2 1
one_worker = record {
  some_worker = omega arith;
  not_too_many = omega arith;
  among = omega arith;
  countable = omega arith;
}

start-Reach : Reach env 2 1 none at_start
unfolding new num_shards clamp ceil_log2 next_power_of_two
start-Reach = start refl

-- The worker registers, scans seven times, arms, scans again and waits.
abbrev pub at_rest : System ℕ
at_rest = turns 2 44 0 at_start

worker_sleeps : (at_rest.threads 0).pc ≡ asleep
unfolding step act scan_step steal_injector steal_peer ℕ_discrete
worker_sleeps = refl

caller_runs : (i : ℕ) → 1 ≤ i → (at_start.threads i).pc ≡ running
caller_runs i le = ground arith

pub caller_outside : (i : ℕ) → 1 ≤ i → (at_rest.threads i).pc ≡ running
caller_outside i le = turns-running 2 44 0 i at_start (λ e. omega arith) (caller_runs i le)

worker_at_rest :
    (i : ℕ) → i < 1 → ((at_rest.threads i).pc ≡ asleep) ⊎ ((at_rest.threads i).pc ≡ exited)
worker_at_rest zero lt = inl worker_sleeps
worker_at_rest (suc j) lt = absurd (omega arith)

pub rest-Reach : Reach env 2 1 none at_rest
rest-Reach = turns-Reach 2 1 44 0 at_start start-Reach

at_rest-shards_example : at_rest.queue.injectors 0 ≡ []
unfolding step act scan_step steal_injector steal_peer ℕ_discrete
at_rest-shards_example =
    at_rest-shards env 2 1 none one_worker at_rest rest-Reach caller_outside worker_at_rest 0
      (omega arith) worker_sleeps 0 (omega arith)

-- The caller pushes while the worker sleeps.
abbrev pub sent : System ℕ
sent = turn 2 at_rest 1 (pushes 7)

pub sent-Reach : Reach env 2 1 none sent
sent-Reach = turn-Reach 2 1 at_rest 1 (pushes 7) rest-Reach

-- It loads `parked` and `notified`, locks, and raises `notified`.
abbrev pub raising : System ℕ
raising = turns 2 4 1 sent

pub raising-Reach : Reach env 2 1 none raising
raising-Reach = turns-Reach 2 1 4 1 sent sent-Reach

caller_raised : (raising.threads 1).pc ≡ raised
unfolding step act scan_step steal_injector steal_peer foreign_push route_shard ℕ_discrete
caller_raised = refl

mutual_exclusion_example : ◌≡◌ {A = ℕ} 1 1
mutual_exclusion_example =
    mutual_exclusion env 2 1 none one_worker raising raising-Reach 1 1
      (rw (caller_raised, holds_lock) refl) (rw (caller_raised, holds_lock) refl)

counters_exact_example :
    (raising.queue.parked ≡ total parked_weight 2 raising.threads)
    × (raising.queue.notified ≤ total signal_weight 2 raising.threads)
    × (raising.queue.parked < usize_max)
counters_exact_example = counters_exact env 2 1 none one_worker raising raising-Reach
