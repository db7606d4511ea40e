-- ===== src/Tests/Serving.antt =====
-- The same worker and caller: the worker is given two runnables in the order of their pushes.
use affinitypool.Base.{ℕ, ℕ_discrete, ◌≡◌, refl, [], ◌∷◌, ◌++◌, none, arith}
use affinitypool.Cpu.{route_shard}
use affinitypool.Queue.{new, num_shards, clamp, ceil_log2, next_power_of_two}
use affinitypool.Queue.Scan.{steal_injector, steal_peer, scan_step}
use affinitypool.Queue.Turns.{pushes, act, foreign_push}
use affinitypool.Queue.System.{System, step}
use affinitypool.Queue.Order.{oldest_first, line, Served, opens}
use affinitypool.Queue.Order.Line.{Served-line}
use affinitypool.Tests.World.{env, turn, turns}
use affinitypool.Tests.Runs.{turn-Served, turns-Served, fifo-Ordered}
use affinitypool.Tests.Threads.{at_start, one_worker}

-- The caller pushes three times before the worker starts, which is given the first of them.
abbrev served : System ℕ
served = turns 2 4 0 (
    turn 2 (turns 2 5 1 (turn 2 (turns 2 5 1 (turn 2 at_start 1 (pushes 7))) 1 (pushes 8))) 1
      (pushes 9))

served-Served : Served env 2 none served
unfolding new num_shards clamp ceil_log2 next_power_of_two
served-Served = turns-Served 2 4 0 _ (
    turn-Served 2 _ 1 (pushes 9) (λ r e. omega arith)
      (turns-Served 2 5 1 _ (
        turn-Served 2 _ 1 (pushes 8) (λ r e. omega arith)
          (turns-Served 2 5 1 _
            (turn-Served 2 at_start 1 (pushes 7) (λ r e. omega arith) (opens refl))))))

first_served : served.delivered ≡ 7 ∷ []
unfolding step act scan_step steal_injector steal_peer foreign_push route_shard ℕ_discrete
first_served = refl

all_kept : served.dropped ≡ []
unfolding step act scan_step steal_injector steal_peer foreign_push route_shard ℕ_discrete
all_kept = refl

Served-line_example : oldest_first served.sent ≡ oldest_first served.delivered ++ line served
Served-line_example = Served-line env 2 none one_worker served fifo-Ordered served-Served all_kept
