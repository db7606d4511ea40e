-- ===== src/Tests/Fencing.antt =====
-- A producer and a worker in the handshake: the producer loads `parked` before the worker raises it.
use affinitypool.Base.{ℕ, ℕ_discrete, ◌≡◌, refl, true, Bool, arith}
use affinitypool.Base.Family.{update, total}
use affinitypool.Queue.Fence.{
  buffered_push, fenced_push, loaded, buffered_add, fenced_add, scanned, Machine, at_rest,
  push_turn, arm_turn, Buffered, starts, push_goes, push_drains, arm_goes, arm_drains,
}
use affinitypool.Queue.Fence.Seen.{loaded-scanned}

abbrev seen_pushes : ℕ → Bool
seen_pushes = update at_rest.pushes 0 true

-- The handshake of producer 0, then that of worker 0, each with its write out of the buffer.
abbrev handshake : Machine
handshake = record {
  producers = update (update (update at_rest.producers 0 buffered_push) 0 fenced_push) 0 (loaded 0);
  workers =
      update (update (update at_rest.workers 0 buffered_add) 0 fenced_add) 0 (scanned seen_pushes);
  pushes = seen_pushes;
  adds = update at_rest.adds 0 true;
}

handshake-Buffered : Buffered 1 handshake
unfolding push_turn arm_turn ℕ_discrete total
handshake-Buffered =
    arm_goes 0
      (arm_goes 0
        (arm_drains 0
          (arm_goes 0
            (push_goes 0 (push_goes 0 (push_drains 0 (push_goes 0 starts refl) (λ e. cc e)) refl)
              refl)
            refl)
          (λ e. cc e))
        refl)
      refl

producer_loaded : handshake.producers 0 ≡ loaded 0
unfolding ℕ_discrete
producer_loaded = refl

worker_scanned : handshake.workers 0 ≡ scanned seen_pushes
unfolding ℕ_discrete
worker_scanned = refl

loaded-scanned_example : seen_pushes 0 ≡ true
loaded-scanned_example =
    loaded-scanned 1 handshake 0 0 seen_pushes handshake-Buffered (omega arith) producer_loaded
      worker_scanned
