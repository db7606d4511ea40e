-- ===== src/Tests/Draining.antt =====
-- The same worker and caller: all threads come to rest after a push, and after the queue is shut down.
use affinitypool.Base.{
  ℕ, zero, suc, ℕ_discrete, ◌+◌, ◌≤◌, ◌<◌, ◌≡◌, ◌≢◌, arith, refl, inl, false, none,
}
use affinitypool.Cpu.{route_shard}
use affinitypool.Queue.Scan.{steal_injector, steal_peer, scan_step}
use affinitypool.Queue.Threads.{asleep, running}
use affinitypool.Queue.Turns.{go, closes, finishes, act, foreign_push}
use affinitypool.Queue.System.{System, step}
use affinitypool.Queue.System.Scope.{scope_of, current_worker-scope_of}
use affinitypool.Queue.Drain.{Run, stay, potential}
use affinitypool.Queue.Drain.Runs.{run-bounded}
use affinitypool.Queue.Drain.Ends.{IsIdle, stuck-IsIdle}
use affinitypool.Tests.World.{env, turn, turns}
use affinitypool.Tests.Runs.{calm, turn-Run, turns-Run, no_turn}
use affinitypool.Tests.Threads.{one_worker, sent, sent-Reach, raising, raising-Reach}
use affinitypool.Tests.Dropping.{loaded, joined}

-- The worker is woken, takes the runnable, runs it, and sleeps again.
abbrev idle : System ℕ
idle = turns 2 60 0 (turn 2 (turns 2 60 0 (turns 2 7 1 sent)) 0 finishes)

idle-Run : (k : ℕ) × Run env 2 sent k idle
idle-Run = turns-Run 2 60 0 sent _ (
    turn-Run 2 sent _ 0 finishes tt (turns-Run 2 60 0 sent _ (turns-Run 2 7 1 sent sent (0, stay))))

sent_open : sent.queue.shutdown ≡ false
unfolding step act scan_step steal_injector steal_peer foreign_push route_shard ℕ_discrete
sent_open = refl

worker_idle : (idle.threads 0).pc ≡ asleep
unfolding step act scan_step steal_injector steal_peer foreign_push route_shard ℕ_discrete
worker_idle = refl

caller_idle : (idle.threads 1).pc ≡ running
unfolding step act scan_step steal_injector steal_peer foreign_push route_shard ℕ_discrete
caller_idle = refl

caller_foreign : (idle.threads 1).current_worker ≡ none
unfolding step act scan_step steal_injector steal_peer foreign_push route_shard ℕ_discrete
caller_foreign = refl

run-bounded_example :
    idle-Run.0 + potential sent.queue.mask 1 2 idle ≤ potential sent.queue.mask 1 2 sent
run-bounded_example = run-bounded env 2 1 none one_worker sent idle-Run.0 idle sent-Reach idle-Run.1

no_runnable : (w : ℕ) → w < 1 → (idle.threads w).pc ≢ running
no_runnable zero lt e = absurd (cc (worker_idle, e))
no_runnable (suc w) lt e = absurd (omega (arith, lt))

stuck-IsIdle_example : IsIdle 1 sent idle
stuck-IsIdle_example =
    stuck-IsIdle env 2 1 none one_worker tt calm tt sent idle-Run.0 idle sent-Reach sent_open
      idle-Run.1 no_runnable
      (λ i c s' free e.
        no_turn idle (inl worker_idle) caller_idle caller_foreign i (go c) s' free e)

-- From the store of `shutdown` to the exit of the worker.
joined-Run : (k : ℕ) × Run env 2 (turn 2 loaded 1 closes) k joined
joined-Run = turns-Run 2 60 0 _ _ (
    turn-Run 2 _ _ 0 finishes tt
      (turns-Run 2 60 0 _ _ (turns-Run 2 3 1 _ (turn 2 loaded 1 closes) (0, stay))))

caller_returned : (joined.threads 1).pc ≡ running
unfolding step act scan_step steal_injector steal_peer foreign_push route_shard ℕ_discrete
caller_returned = refl

still_foreign : (joined.threads 1).current_worker ≡ none
unfolding step act scan_step steal_injector steal_peer foreign_push route_shard ℕ_discrete
still_foreign = refl

current_worker-scope_of_example :
    (raising.threads 0).current_worker ≡ scope_of 1 0 (raising.threads 0).pc
current_worker-scope_of_example =
    current_worker-scope_of env 2 1 none one_worker raising raising-Reach 0
