-- ===== src/Queue/Scan/Whole.antt =====
-- src/queue.rs: `scan` as a whole, by a worker that no other thread gets in the way of.
use affinitypool.Base.{ℕ, zero, suc, ◌+◌, ◌-◌, Option, none, some, Bool, false}
use affinitypool.Queue.{Queue, Probe}
use affinitypool.Queue.Scan.{
  Crossbeam, Stage, own, preferred, enter_others, others, enter_peers, peers, pass_end, Outcome,
  next, found, nothing, scan_step,
}

-- What `scan` returns, and what it leaves.
pub record Scanned (Task : Type 0) : Type 0 where
  pub queue : Queue Task
  pub rng : ℕ
  pub task : Option Task

module _ {Task : Type 0} where
  -- The scan goes on, or returns.
  abbrev pub proceed :
      Queue Task
      → ℕ
      → Outcome Task
      → (Queue Task → ℕ → Stage → Bool → Option (Scanned Task))
      → Option (Scanned Task)
  proceed q rng (next st contended) rest = rest q rng st contended
  proceed q rng (found r) rest = some (record { queue = q; rng = rng; task = some r })
  proceed q rng nothing rest = some (record { queue = q; rng = rng; task = none })

module _ {Task : Type 0} (cb : Crossbeam Task) (choices : ℕ → cb.Choice) (probe : Probe)
    (idx : ℕ) where
  -- The steps from a stage on. The choices stand for what each attempt meets.
  unfoldable pub scan_from : (fuel : ℕ) → Queue Task → ℕ → Stage → Bool → Option (Scanned Task)
  scan_from zero q rng st contended = none
  scan_from (suc fuel) q rng st contended =
      let r = scan_step cb (choices fuel) probe idx q rng st contended in
      proceed r.queue r.rng r.outcome (scan_from fuel)

  unfoldable pub scan : (fuel : ℕ) → Queue Task → ℕ → Option (Scanned Task)
  unfolding scan_from
  scan fuel q rng = scan_from fuel q rng own false

-- The steps that are left at most, if no attempt meets another thread.
abbrev pub steps_left : (mask num_workers : ℕ) → Stage → ℕ
steps_left mask num_workers own = 8 + mask + num_workers
steps_left mask num_workers preferred = 7 + mask + num_workers
steps_left mask num_workers enter_others = 6 + mask + num_workers
steps_left mask num_workers (others start k) = 5 + num_workers + (mask - k)
steps_left mask num_workers enter_peers = 4 + num_workers
steps_left mask num_workers (peers start k) = 2 + (num_workers - 1 - k)
steps_left mask num_workers pass_end = 1
