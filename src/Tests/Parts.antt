-- ===== src/Tests/Parts.antt =====
-- The routing of pushes, the shard count, the victims of a scan and the generator, on numbers.
use affinitypool.Base.{ℕ, ◌+◌, ◌<◌, ◌≡◌, ◌^◌, ◌-◌, refl, [], ◌∷◌, none, some, arith, false, true}
use affinitypool.Cpu.{route_shard}
use affinitypool.Cpu.Route.{shard_of_push, route_shard-lt}
use affinitypool.Cpu.Spill.{shard_of_push_covers, shard_of_push_saturated}
use affinitypool.Queue.{Queue, fresh, num_shards, strict, cheap}
use affinitypool.Queue.Shards.{IsShardCount, num_shards-IsShardCount}
use affinitypool.Queue.Rng.{IsState}
use affinitypool.Queue.Victims.{shard_victim, peer_victim}
use affinitypool.Queue.Victims.Rounds.{Walks, shard_victim-Walks, peer_victim-Walks}
use affinitypool.Queue.Scan.{own}
use affinitypool.Queue.Scan.Whole.{Scanned, scan}
use affinitypool.Queue.Scan.Returns.{scan-returns}
use affinitypool.Queue.Scan.Nearer.{Uncontended}
use affinitypool.Queue.Scan.Finds.{scan-finds}
use affinitypool.Queue.Fifo.{take_each, push_each, take_each-push_each}
use affinitypool.Tests.World.{fifo, steal_first-retry, env}
use affinitypool.Queue.Threads.{Thread, running, scanning, first, Effect}
use affinitypool.Queue.Alone.{pop_alone, Returned, scans}
use affinitypool.Queue.Alone.Returns.{pop_alone-Returned}

route_shard-lt_example : (route_shard 13 (2 ^ 3 - 1) none).0 < 2 ^ 3
route_shard-lt_example = route_shard-lt 3 13 none

shard_of_push_covers_example : (j : ℕ) × (j < 2 ^ 3) × (shard_of_push 13 (2 ^ 3 - 1) (20 + j) ≡ 2)
shard_of_push_covers_example =
    shard_of_push_covers 3 13 20 2 (omega arith) (omega arith) (omega arith) (omega arith)

shard_of_push_saturated_example :
    shard_of_push 13 (2 ^ 3 - 1) 4294967296 ≡ shard_of_push 13 (2 ^ 3 - 1) 4294967295
shard_of_push_saturated_example =
    shard_of_push_saturated 3 13 4294967295 (omega arith) (omega arith)

num_shards-IsShardCount_example :
    (shards : ℕ) × (num_shards 6 (some 5) ≡ some shards) × IsShardCount 6 (some 5) shards
num_shards-IsShardCount_example = num_shards-IsShardCount 6 (some 5) (omega arith) (omega arith)

one-IsState : IsState 1
one-IsState = record { fits = omega arith; nonzero = omega arith }

shard_victim-Walks_example : Walks (2 ^ 4) 5 cheap (shard_victim (2 ^ 4 - 1) 5 4)
shard_victim-Walks_example = shard_victim-Walks cheap 4 5 4 (omega arith) (omega arith)

peer_victim-Walks_example : Walks 12 2 cheap (peer_victim 12 2 3)
peer_victim-Walks_example = peer_victim-Walks cheap 12 2 3 (omega arith) (omega arith)

-- A queue with two shards, of which the second holds a runnable.
abbrev filled : Queue ℕ
filled = record (fresh 2 2) { injectors = λ s. 7 ∷ [] }

calm : (k : ℕ) → Uncontended fifo tt
calm k = steal_first-retry

scan-returns_example : (r : Scanned ℕ) × (scan fifo (λ k. tt) cheap 1 11 filled 1 ≡ some r)
scan-returns_example = scan-returns fifo (λ k. tt) calm 1 cheap 11 filled 1 (omega arith)

scan-finds_example :
    (r : Scanned ℕ) × (t : ℕ) × (scan fifo (λ k. tt) strict 0 11 filled 1 ≡ some r)
    × (r.task ≡ some t)
scan-finds_example =
    scan-finds fifo (λ k. tt) calm 0 11 1 1 filled 1 (omega arith)
      (record { mask_ones = refl; few = omega arith }) one-IsState (omega arith) (λ e. cc e)

abbrev at_work : Thread ℕ
at_work = record { pc = running; rng = 1; current_worker = some 0; route = none }

take_each-push_each_example :
    take_each fifo (λ k. tt) cheap 0 1 3 (push_each (5 ∷ 6 ∷ 7 ∷ []) 0 (fresh 2 2) at_work) 1
    ≡ 5 ∷ 6 ∷ 7 ∷ []
take_each-push_each_example =
    take_each-push_each fifo (λ k. tt) cheap 0 0 (5 ∷ 6 ∷ 7 ∷ []) (fresh 2 2) at_work 1 refl

abbrev shut_queue : Queue ℕ
shut_queue = record (fresh 1 1) { shutdown = true }

abbrev popper : Thread ℕ
popper = record { pc = scanning first own false; rng = 1; current_worker = some 0; route = none }

pop_alone-Returned_example :
    (e : Effect ℕ) × (pop_alone env (λ k. tt) 0 200 shut_queue popper ≡ some e) × Returned e
unfolding scans
pop_alone-Returned_example =
    pop_alone-Returned env (λ k. tt) 0 calm 0 1 200 shut_queue popper
      (record {
        same_mask = refl;
        same_workers = refl;
        shut = refl;
        free = λ e. refl;
        popping = tt;
      })
      (omega arith)
