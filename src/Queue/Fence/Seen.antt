-- ===== src/Queue/Fence/Seen.antt =====
-- src/queue.rs: what a producer and a worker in the handshake see of the write of the other.
use affinitypool.Base.{ℕ, ◌≤◌, ◌<◌, ◌≡◌, refl, some, Bool, true, arith}
use affinitypool.Base.Family.{update, update_elim, le-total}
use affinitypool.Queue.Fence.{
  Pushing, before_push, buffered_push, fenced_push, loaded, Arming, before_add, buffered_add,
  fenced_add, scanned, Machine, bit, parked_in_memory, push_turn, arm_turn, Buffered, starts,
  push_goes, push_drains, arm_goes, arm_drains,
}
use mathlib.Core.Path.{subst}

-- Behind its fence, a write is seen.
abbrev PushSeen : Pushing → Bool → Type 0
PushSeen before_push drained = Unit
PushSeen buffered_push drained = Unit
PushSeen fenced_push drained = drained ≡ true
PushSeen (loaded p) drained = drained ≡ true

abbrev AddSeen : Arming → Bool → Type 0
AddSeen before_add drained = Unit
AddSeen buffered_add drained = Unit
AddSeen fenced_add drained = drained ≡ true
AddSeen (scanned seen) drained = drained ≡ true

-- A producer that loaded 0 was seen by the scan.
abbrev Met : (i : ℕ) → Pushing → Arming → Type 0
Met i (loaded parked) (scanned seen) = parked ≡ 0 → seen i ≡ true
Met i p w = Unit

record Fenced (bound : ℕ) (m : Machine) : Type 0 where
  push_seen : (i : ℕ) → PushSeen (m.producers i) (m.pushes i)
  add_seen : (j : ℕ) → AddSeen (m.workers j) (m.adds j)
  met : (i j : ℕ) → j < bound → Met i (m.producers i) (m.workers j)

push_turn-PushSeen :
    (p place : Pushing) (drained : Bool) (parked : ℕ)
    → push_turn p drained parked ≡ some place
    → PushSeen p drained
    → PushSeen place drained
unfolding push_turn
push_turn-PushSeen p place drained parked e h = ground arith

arm_turn-AddSeen :
    (w place : Arming) (drained : Bool) (pushes : ℕ → Bool)
    → arm_turn w drained pushes ≡ some place
    → AddSeen w drained
    → AddSeen place drained
unfolding arm_turn
arm_turn-AddSeen w place drained pushes e h = ground arith

-- A load of `parked` sees each worker whose scan is over.
push_turn-Met :
    (i : ℕ) (p place : Pushing) (w : Arming) (drained added : Bool) (parked : ℕ)
    → push_turn p drained parked ≡ some place
    → AddSeen w added
    → bit added ≤ parked
    → Met i p w
    → Met i place w
unfolding push_turn
push_turn-Met i p place w drained added parked e seen le h = ground arith

-- A scan sees each producer that has loaded `parked`.
arm_turn-Met :
    (i : ℕ) (p : Pushing) (w place : Arming) (drained : Bool) (pushes : ℕ → Bool)
    → arm_turn w drained pushes ≡ some place
    → PushSeen p (pushes i)
    → Met i p w
    → Met i p place
unfolding arm_turn
arm_turn-Met i p w place drained pushes e seen h = ground arith

PushSeen-true : (p : Pushing) → PushSeen p true
PushSeen-true p = ground arith

AddSeen-true : (w : Arming) → AddSeen w true
AddSeen-true w = ground arith

module _ (bound : ℕ) (m : Machine) (old : Fenced bound m) where
  push_goes-Fenced :
      (i : ℕ) (place : Pushing)
      → push_turn (m.producers i) (m.pushes i) (parked_in_memory bound m) ≡ some place
      → Fenced bound (record m { producers = update m.producers i place })
  push_goes-Fenced i place e = record {
    push_seen =
        update_elim (λ k p. PushSeen p (m.pushes k)) m.producers i place
          (push_turn-PushSeen (m.producers i) place (m.pushes i) (parked_in_memory bound m) e
            (old.push_seen i))
          (λ k ne. old.push_seen k);
    add_seen = old.add_seen;
    met = λ k j lt.
        update_elim (λ k p. Met k p (m.workers j)) m.producers i place
          (push_turn-Met i (m.producers i) place (m.workers j) (m.pushes i) (m.adds j)
            (parked_in_memory bound m) e (old.add_seen j) (le-total bit bound m.adds j lt)
            (old.met i j lt))
          (λ k ne. old.met k j lt) k;
  }

  arm_goes-Fenced :
      (j : ℕ) (place : Arming)
      → arm_turn (m.workers j) (m.adds j) m.pushes ≡ some place
      → Fenced bound (record m { workers = update m.workers j place })
  arm_goes-Fenced j place e = record {
    push_seen = old.push_seen;
    add_seen =
        update_elim (λ k w. AddSeen w (m.adds k)) m.workers j place
          (arm_turn-AddSeen (m.workers j) place (m.adds j) m.pushes e (old.add_seen j))
          (λ k ne. old.add_seen k);
    met = λ i k.
        update_elim (λ k w. k < bound → Met i (m.producers i) w) m.workers j place
          (λ lt.
            arm_turn-Met i (m.producers i) (m.workers j) place (m.adds j) m.pushes e
              (old.push_seen i) (old.met i j lt))
          (λ k ne. old.met i k) k;
  }

  push_drains-Fenced : (i : ℕ) → Fenced bound (record m { pushes = update m.pushes i true })
  push_drains-Fenced i = record {
    push_seen =
        update_elim (λ k d. PushSeen (m.producers k) d) m.pushes i true
          (PushSeen-true (m.producers i)) (λ k ne. old.push_seen k);
    add_seen = old.add_seen;
    met = old.met;
  }

  arm_drains-Fenced : (j : ℕ) → Fenced bound (record m { adds = update m.adds j true })
  arm_drains-Fenced j = record {
    push_seen = old.push_seen;
    add_seen =
        update_elim (λ k d. AddSeen (m.workers k) d) m.adds j true (AddSeen-true (m.workers j))
          (λ k ne. old.add_seen k);
    met = old.met;
  }

Buffered-Fenced : (bound : ℕ) (m : Machine) → Buffered bound m → Fenced bound m
Buffered-Fenced bound _ starts = record {
  push_seen = λ i. tt;
  add_seen = λ j. tt;
  met = λ i j lt. tt;
}
Buffered-Fenced bound _ (push_goes {m} i {place} b e) =
    push_goes-Fenced bound m (Buffered-Fenced bound m b) i place e
Buffered-Fenced bound _ (push_drains {m} i b written) =
    push_drains-Fenced bound m (Buffered-Fenced bound m b) i
Buffered-Fenced bound _ (arm_goes {m} j {place} b e) =
    arm_goes-Fenced bound m (Buffered-Fenced bound m b) j place e
Buffered-Fenced bound _ (arm_drains {m} j b written) =
    arm_drains-Fenced bound m (Buffered-Fenced bound m b) j

-- For any number of producers and `bound` workers that each go through the handshake once, with
-- writes that leave the store buffer of their thread at any moment, and in any order of their
-- turns: if a producer has loaded 0 from `parked`, its push was in memory at the scan of each
-- worker that has scanned behind its own fence.
pub loaded-scanned :
    (bound : ℕ) (m : Machine) (i j : ℕ) (seen : ℕ → Bool)
    → Buffered bound m
    → j < bound
    → m.producers i ≡ loaded 0
    → m.workers j ≡ scanned seen
    → seen i ≡ true
loaded-scanned bound m i j seen b lt at_load at_scan =
    subst (λ w. Met i (loaded 0) w) at_scan
      (subst (λ p. Met i p (m.workers j)) at_load ((Buffered-Fenced bound m b).met i j lt)) refl
