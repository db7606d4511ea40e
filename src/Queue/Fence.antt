-- ===== src/Queue/Fence.antt =====
-- src/queue.rs: the two fences of the handshake, on a machine where the writes of a thread wait in its
-- store buffer before the others see them.
--
-- A producer pushes, passes its fence and loads `parked`; a worker raises `parked`, passes its fence and
-- scans. A fence lets a thread on only when its buffer is empty.
pub mod Seen
use affinitypool.Base.{ℕ, ◌≡◌, ◌≢◌, Option, some, none, Bool, true, false}
use affinitypool.Base.Family.{update, total}

-- `push`: before it, with the push in the buffer, behind the fence, and with the `parked` that it loaded.
pub data Pushing : Type 0 where
  before_push buffered_push fenced_push : Pushing
  loaded : (parked : ℕ) → Pushing

-- `pop_blocking`: with the `fetch_add` in the buffer, behind the fence, and with the pushes that the
-- strict scan saw.
pub data Arming : Type 0 where
  before_add buffered_add fenced_add : Arming
  scanned : (seen : ℕ → Bool) → Arming

-- `pushes` and `adds` are the writes that have left the buffers.
pub record Machine : Type 0 where
  pub producers : ℕ → Pushing
  pub workers : ℕ → Arming
  pub pushes : ℕ → Bool
  pub adds : ℕ → Bool

abbrev pub bit : Bool → ℕ
bit true = 1
bit false = 0

-- The value of `parked` in memory, with `bound` workers.
abbrev pub parked_in_memory : ℕ → Machine → ℕ
parked_in_memory bound m = total bit bound m.adds

unfoldable pub push_turn : Pushing → (drained : Bool) → (parked : ℕ) → Option Pushing
push_turn before_push drained parked = some buffered_push
push_turn buffered_push true parked = some fenced_push
push_turn buffered_push false parked = none
push_turn fenced_push drained parked = some (loaded parked)
push_turn (loaded p) drained parked = none

unfoldable pub arm_turn : Arming → (drained : Bool) → (pushes : ℕ → Bool) → Option Arming
arm_turn before_add drained pushes = some buffered_add
arm_turn buffered_add true pushes = some fenced_add
arm_turn buffered_add false pushes = none
arm_turn fenced_add drained pushes = some (scanned pushes)
arm_turn (scanned seen) drained pushes = none

abbrev pub at_rest : Machine
at_rest = record {
  producers = λ _. before_push;
  workers = λ _. before_add;
  pushes = λ _. false;
  adds = λ _. false;
}

-- The states that any number of producers and workers reach, in any order; a write leaves its buffer at
-- any moment after it was made.
pub data Buffered (bound : ℕ) : Machine → Type 0 where
  starts : Buffered bound at_rest
  push_goes :
      {m : Machine} (i : ℕ) {place : Pushing}
      → Buffered bound m
      → push_turn (m.producers i) (m.pushes i) (parked_in_memory bound m) ≡ some place
      → Buffered bound (record m { producers = update m.producers i place })
  push_drains :
      {m : Machine} (i : ℕ)
      → Buffered bound m
      → m.producers i ≢ before_push
      → Buffered bound (record m { pushes = update m.pushes i true })
  arm_goes :
      {m : Machine} (j : ℕ) {place : Arming}
      → Buffered bound m
      → arm_turn (m.workers j) (m.adds j) m.pushes ≡ some place
      → Buffered bound (record m { workers = update m.workers j place })
  arm_drains :
      {m : Machine} (j : ℕ)
      → Buffered bound m
      → m.workers j ≢ before_add
      → Buffered bound (record m { adds = update m.adds j true })
