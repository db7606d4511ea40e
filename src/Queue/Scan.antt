-- ===== src/Queue/Scan.antt =====
-- src/queue.rs: `scan` and `steal_injector`, one access to shared memory at a time.
--
-- `crossbeam_deque` is the parameter `Crossbeam`. A `Choice` stands for what an attempt to steal
-- does not control: whether another thread gets in between, and how large a batch is taken.
pub mod Attempts
pub mod Pass
pub mod Coverage
pub mod Weights
pub mod Conserves
pub mod Whole
pub mod Nearer
pub mod Returns
pub mod Finds
use affinitypool.Base.{
  ℕ, suc, ◌+◌, ◌-◌, ◌≡◌, List, [], ◌∷◌, ◌++◌, Bool, true, false, ◌&&◌, ltb, if◌then◌else◌, bit_and,
}
use affinitypool.Base.Family.{update, SameTasks}
use affinitypool.Queue.{Queue, Probe, cheap, strict}
use affinitypool.Queue.Rng.{next_rand, fast_reduce}
use affinitypool.Queue.Victims.{probe_limit, shard_victim, peer_victim}

pub data Steal (Task : Type 0) : Type 0 where
  success : Task → Steal Task
  retry empty : Steal Task

-- One attempt: the answer, what stays in the source, and the batch that goes to the thief's deque.
pub record Attempt (Task : Type 0) : Type 0 where
  pub result : Steal Task
  pub left : List Task
  pub moved : List Task

-- What the code relies on: a successful steal neither loses nor duplicates a runnable, `Empty` is
-- said of an empty queue only, and a failed attempt changes nothing.
pub record Crossbeam (Task : Type 0) : Type 1 where
  pub Choice : Type 0
  pub steal_batch_and_pop : Choice → List Task → Attempt Task
  pub success_keeps :
      (c : Choice) (q : List Task) (r : Task)
      → (steal_batch_and_pop c q).result ≡ success r
      → SameTasks q (r ∷ (steal_batch_and_pop c q).moved ++ (steal_batch_and_pop c q).left)
  pub empty_only :
      (c : Choice) (q : List Task)
      → (steal_batch_and_pop c q).result ≡ empty
      → (q ≡ []) × ((steal_batch_and_pop c q).left ≡ []) × ((steal_batch_and_pop c q).moved ≡ [])
  pub retry_keeps :
      (c : Choice) (q : List Task)
      → (steal_batch_and_pop c q).result ≡ retry
      → ((steal_batch_and_pop c q).left ≡ q) × ((steal_batch_and_pop c q).moved ≡ [])

-- Where a pass of `scan` stands. In the two loops, the start of the rotation and the round.
pub data Stage : Type 0 where
  own preferred enter_others : Stage
  others : (start k : ℕ) → Stage
  enter_peers : Stage
  peers : (start k : ℕ) → Stage
  pass_end : Stage

-- After one access the pass goes on at a stage, with its `contended` flag, or it returns.
pub data Outcome (Task : Type 0) : Type 0 where
  next : Stage → Bool → Outcome Task
  found : Task → Outcome Task
  nothing : Outcome Task

pub record ScanStep (Task : Type 0) : Type 0 where
  pub queue : Queue Task
  pub rng : ℕ
  pub outcome : Outcome Task

abbrev pub is_cheap : Probe → Bool
is_cheap cheap = true
is_cheap strict = false

module _ {Task : Type 0} where
  abbrev pub is_empty : List Task → Bool
  is_empty [] = true
  is_empty (r ∷ rs) = false

  -- How a loop goes on after an attempt.
  abbrev pub on_steal : Steal Task → Stage → Bool → Outcome Task
  on_steal (success r) go contended = found r
  on_steal retry go contended = next go true
  on_steal empty go contended = next go contended

  -- `ctx.deque.pop()`, at the front of a FIFO deque.
  abbrev pub pop_own : Queue Task → ℕ → ℕ → List Task → ScanStep Task
  pop_own q idx rng [] = record { queue = q; rng = rng; outcome = next preferred false }
  pop_own q idx rng (r ∷ rest) = record {
    queue = record q { deques = update q.deques idx rest };
    rng = rng;
    outcome = found r;
  }

module _ {Task : Type 0} (cb : Crossbeam Task) where
  -- The attempt, and its effect on the injector and on the thief's deque.
  abbrev pub take_from_injector : Queue Task → ℕ → ℕ → Attempt Task → Queue Task
  take_from_injector q victim idx a = record q {
    injectors = update q.injectors victim a.left;
    deques = update q.deques idx (q.deques idx ++ a.moved);
  }

  unfoldable pub steal_injector : cb.Choice → Queue Task → ℕ → ℕ → Probe → Queue Task × Steal Task
  steal_injector c q victim idx probe =
      if is_cheap probe && is_empty (q.injectors victim)
      then (q, empty)
      else let a = cb.steal_batch_and_pop c (q.injectors victim) in
        (take_from_injector q victim idx a, a.result)

  abbrev pub take_from_peer : Queue Task → ℕ → ℕ → Attempt Task → Queue Task
  take_from_peer q victim idx a = record q {
    deques = update (update q.deques victim a.left) idx (q.deques idx ++ a.moved);
  }

  -- The body of the loop over the peers: an empty slot and, on a cheap pass, an empty deque are
  -- passed over.
  unfoldable pub steal_peer : cb.Choice → Queue Task → ℕ → ℕ → Probe → Queue Task × Steal Task
  steal_peer c q victim idx probe =
      if q.stealers victim
      then (if is_cheap probe && is_empty (q.deques victim)
          then (q, empty)
          else let a = cb.steal_batch_and_pop c (q.deques victim) in
            (take_from_peer q victim idx a, a.result))
      else (q, empty)

  abbrev pub my_shard : Queue Task → ℕ → ℕ
  my_shard q idx = bit_and idx q.mask

  abbrev pub goes : Queue Task → ℕ → Stage → Bool → ScanStep Task
  goes q rng stage contended = record { queue = q; rng = rng; outcome = next stage contended }

  abbrev pub after_steal : Queue Task × Steal Task → ℕ → Stage → Bool → ScanStep Task
  after_steal r rng stage contended = record {
    queue = r.0;
    rng = rng;
    outcome = on_steal r.1 stage contended;
  }

  -- One access of a pass of `scan` by worker `idx`.
  unfoldable pub scan_step : cb.Choice → Probe → ℕ → Queue Task → ℕ → Stage → Bool → ScanStep Task
  scan_step c probe idx q rng own contended = pop_own q idx rng (q.deques idx)
  scan_step c probe idx q rng preferred contended =
      after_steal (steal_injector c q (my_shard q idx) idx probe) rng enter_others contended
  scan_step c probe idx q rng enter_others contended =
      let rng' = next_rand rng in
      if ltb 1 (q.mask + 1)
      then goes q rng' (others (fast_reduce rng' q.mask) 0) contended
      else goes q rng enter_peers contended
  scan_step c probe idx q rng (others start k) contended =
      if ltb k (probe_limit q.mask probe)
      then after_steal (steal_injector c q (shard_victim q.mask (my_shard q idx) start k) idx probe)
          rng (others start (suc k)) contended
      else goes q rng enter_peers contended
  scan_step c probe idx q rng enter_peers contended =
      let rng' = next_rand rng in
      if ltb 1 q.num_workers
      then goes q rng' (peers (fast_reduce rng' (q.num_workers - 1)) 0) contended
      else goes q rng pass_end contended
  scan_step c probe idx q rng (peers start k) contended =
      if ltb k (probe_limit (q.num_workers - 1) probe)
      then after_steal (steal_peer c q (peer_victim q.num_workers idx start k) idx probe) rng
          (peers start (suc k)) contended
      else goes q rng pass_end contended
  scan_step c probe idx q rng pass_end contended =
      if contended then goes q rng own false else record { queue = q; rng = rng; outcome = nothing }
