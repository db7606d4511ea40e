-- ===== src/Queue.antt =====
-- src/queue.rs: the sharded queue, its data and its construction.
--
-- A `Runnable` of `async_task` is an element of the type `Task`. An injector and a worker's deque
-- are the lists of the runnables in them, the oldest first. `deques` holds the buffer that worker
-- `idx` owns; a stealer is a second handle to that buffer, so `stealers idx` says only whether the
-- slot is filled. `park` is the thread that holds the mutex. A panic is `none`.
pub mod Shards
pub mod Rng
pub mod Victims
pub mod Scan
pub mod Threads
pub mod Turns
pub mod System
pub mod Channel
pub mod Fifo
pub mod Fence
pub mod Order
pub mod Alone
pub mod Drain
use affinitypool.Base.{
  ℕ, zero, suc, ◌+◌, ◌-◌, ◌*◌, ◌/◌, ◌%◌, ◌^◌, List, [], ◌∷◌, Option, none, some, Bool, false, leb,
  ltb, if◌then◌else◌, bit_or, u32_mod,
}

-- `lib.rs` and `queue.rs`: the constants.
abbrev pub max_threads : ℕ
max_threads = 512

abbrev pub max_shards : ℕ
max_shards = 8

abbrev pub cheap_scan_victims : ℕ
cheap_scan_victims = 8

abbrev pub spin_rounds : ℕ
spin_rounds = 6

pub data Probe : Type 0 where
  cheap strict : Probe

pub record Queue (Task : Type 0) : Type 0 where
  pub injectors : ℕ → List Task
  pub num_injectors : ℕ
  pub deques : ℕ → List Task
  pub stealers : ℕ → Bool
  pub num_workers : ℕ
  pub mask : ℕ
  pub park : Option ℕ
  pub parked : ℕ
  pub notified : ℕ
  pub shutdown : Bool
  pub foreign_pushes : ℕ

-- `Ord::clamp`, which panics if its bounds are out of order.
unfoldable pub clamp : ℕ → ℕ → ℕ → Option ℕ
clamp x lo hi =
    if leb lo hi then some (if ltb x lo then lo else if ltb hi x then hi else x) else none

-- The least exponent whose power of two is at least `n`.
unfoldable pub ceil_log2 : ℕ → ℕ → ℕ
ceil_log2 zero n = 0
ceil_log2 (suc fuel) n =
    let rest = suc (ceil_log2 fuel ((n + 1) / 2)) in if leb n 1 then 0 else rest

-- `usize::next_power_of_two`, which overflows above `1 << 63`.
unfoldable pub next_power_of_two : ℕ → Option ℕ
next_power_of_two n = if leb n (2 ^ 63) then some (2 ^ ceil_log2 n n) else none

infixl 5 ◌>>=◌
abbrev pub ◌>>=◌ : {A B : Type 0} → Option A → (A → Option B) → Option B
none >>= f = none
some a >>= f = f a

-- The shard count that `Queue::new` chooses.
unfoldable pub num_shards : ℕ → Option ℕ → Option ℕ
num_shards num_workers (some n) = do clamped ← clamp n 1 num_workers; next_power_of_two clamped
num_shards num_workers none = do rounded ← next_power_of_two num_workers; clamp rounded 1 max_shards

-- The record that `Queue::new` builds.
abbrev pub fresh : {Task : Type 0} → ℕ → ℕ → Queue Task
fresh num_workers shards = record {
  injectors = λ _. [];
  num_injectors = shards;
  deques = λ _. [];
  stealers = λ _. false;
  num_workers = num_workers;
  mask = shards - 1;
  park = none;
  parked = 0;
  notified = 0;
  shutdown = false;
  foreign_pushes = 0;
}

unfoldable pub new : {Task : Type 0} → ℕ → Option ℕ → Option (Queue Task)
new num_workers shard_override = do
  shards ← num_shards num_workers shard_override
  some (fresh num_workers shards)
