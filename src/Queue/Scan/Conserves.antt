-- ===== src/Queue/Scan/Conserves.antt =====
-- src/queue.rs: the runnables before and after a step of a scan.
use affinitypool.Base.{
  ℕ, suc, ◌+◌, ◌-◌, ◌^◌, ◌≤◌, ◌<◌, ◌≡◌, refl, List, [], ◌∷◌, Bool, true, false, ltb, bit_and, arith,
  Bool-cases, inl, inr,
}
use affinitypool.Base.Mask.{bit_and-mask-lt}
use affinitypool.Queue.{Queue, Probe, max_threads}
use affinitypool.Queue.Rng.{next_rand, next_rand-IsState, fast_reduce-lt, IsState}
use affinitypool.Queue.Victims.{probe_limit, shard_victim, peer_victim, peer_victim-VisitsOthers}
use affinitypool.Queue.Scan.{
  Steal, Crossbeam, Stage, own, preferred, enter_others, others, enter_peers, peers, pass_end,
  scan_step, steal_peer, on_steal, pop_own,
}
use affinitypool.Queue.Scan.Attempts.{stolen}
use affinitypool.Queue.Scan.Coverage.{IsSharded}
use affinitypool.Queue.Scan.Weights.{
  queued, found_weight, on_steal-weight, StartsWithin, GoesWithin, on_steal-GoesWithin,
  probe_limit-le, steal_injector-weight, steal_peer-weight, pop_own-weight,
}

module _ {Task : Type 0} (cb : Crossbeam Task) (c : cb.Choice) (probe : Probe) (idx : ℕ)
    (q : Queue Task) where
  -- The rotation over the peers is started by `fast_reduce`.
  pub scan_step-GoesWithin :
      (rng : ℕ) (st : Stage) (contended : Bool)
      → IsState rng
      → q.num_workers ≤ max_threads
      → StartsWithin q.num_workers st
      → GoesWithin q.num_workers (scan_step cb c probe idx q rng st contended).outcome
  unfolding scan_step
  scan_step-GoesWithin rng own contended state few h = popped (q.deques idx)
    where
      popped : (ts : List Task) → GoesWithin q.num_workers (pop_own q idx rng ts).outcome
      popped [] = tt
      popped (r ∷ rest) = tt
  scan_step-GoesWithin rng preferred contended state few h =
      on_steal-GoesWithin _ _ enter_others contended tt
  scan_step-GoesWithin rng enter_others contended state few h =
      elim (Bool-cases (ltb 1 (q.mask + 1))) [ inl more ↦ rw more tt | inr one ↦ rw one tt ]
  scan_step-GoesWithin rng (others start k) contended state few h =
      elim (Bool-cases (ltb k (probe_limit q.mask probe))) [
        | inl more ↦ rw more (on_steal-GoesWithin _ _ (others start (suc k)) contended tt)
        | inr over ↦ rw over tt
      ]
  scan_step-GoesWithin rng enter_peers contended state few h =
      elim (Bool-cases (ltb 1 q.num_workers)) [
        | inl more ↦ rw more (
            fast_reduce-lt (next_rand rng) (q.num_workers - 1) (next_rand-IsState rng state).fits
              (ground arith) (omega (arith, few)))
        | inr one ↦ rw one tt
      ]
  scan_step-GoesWithin rng (peers start k) contended state few h =
      elim (Bool-cases (ltb k (probe_limit (q.num_workers - 1) probe))) [
        | inl more ↦ rw more (on_steal-GoesWithin _ _ (peers start (suc k)) contended h)
        | inr over ↦ rw over tt
      ]
  scan_step-GoesWithin rng pass_end true state few h = tt
  scan_step-GoesWithin rng pass_end false state few h = tt

  shard-lt :
      (e x : ℕ) → IsSharded e q → q.num_injectors ≡ 2 ^ e → bit_and x q.mask < q.num_injectors
  shard-lt e x sh count = rw sh.mask_ones (omega (arith, count, bit_and-mask-lt e x))

  victim-lt :
      (e start k : ℕ)
      → IsSharded e q
      → q.num_injectors ≡ 2 ^ e
      → shard_victim q.mask (bit_and idx q.mask) start k < q.num_injectors
  unfolding shard_victim
  victim-lt e start k sh count = shard-lt e _ sh count

  in_span : (k : ℕ) → ltb k (probe_limit (q.num_workers - 1) probe) ≡ true → k < q.num_workers - 1
  in_span k more = ground (arith, probe_limit-le (q.num_workers - 1) probe)

  stolen_from :
      (start k : ℕ)
      → idx < q.num_workers
      → start < q.num_workers - 1
      → k < q.num_workers - 1
      → let r = steal_peer cb c q (peer_victim q.num_workers idx start k) idx probe in
        (w : Task → ℕ) → queued w r.0 + stolen w r.1 ≡ queued w q
  stolen_from start k hi hs hk w =
      let visits = peer_victim-VisitsOthers q.num_workers idx start hi hs in
      steal_peer-weight cb c w idx q _ probe (visits.in_range k hk) (visits.not_me k hk) hi

  after :
      (w : Task → ℕ) (r : Queue Task × Steal Task) (st : Stage) (contended : Bool)
      → queued w r.0 + stolen w r.1 ≡ queued w q
      → queued w r.0 + found_weight w (on_steal r.1 st contended) ≡ queued w q
  after w r st contended h = omega (arith, h, on_steal-weight w r.1 st contended)

  -- A step of a scan neither loses nor duplicates a runnable.
  pub scan_step-weight :
      (w : Task → ℕ) (e rng : ℕ) (st : Stage) (contended : Bool)
      → IsSharded e q
      → q.num_injectors ≡ 2 ^ e
      → idx < q.num_workers
      → StartsWithin q.num_workers st
      → let r = scan_step cb c probe idx q rng st contended in
        queued w r.queue + found_weight w r.outcome ≡ queued w q
  unfolding scan_step
  scan_step-weight w e rng own contended sh count hi h =
      pop_own-weight cb c w idx q rng (q.deques idx) hi refl
  scan_step-weight w e rng preferred contended sh count hi h =
      after w _ enter_others contended
        (steal_injector-weight cb c w idx q _ probe (shard-lt e _ sh count) hi)
  scan_step-weight w e rng enter_others contended sh count hi h =
      elim (Bool-cases (ltb 1 (q.mask + 1))) [
        | inl more ↦ rw more (omega arith)
        | inr one ↦ rw one (omega arith)
      ]
  scan_step-weight w e rng (others start k) contended sh count hi h =
      elim (Bool-cases (ltb k (probe_limit q.mask probe))) [
        | inl more ↦ rw more (
            after w _ (others start (suc k)) contended
              (steal_injector-weight cb c w idx q _ probe (victim-lt e start k sh count) hi))
        | inr over ↦ rw over (omega arith)
      ]
  scan_step-weight w e rng enter_peers contended sh count hi h =
      elim (Bool-cases (ltb 1 q.num_workers)) [
        | inl more ↦ rw more (omega arith)
        | inr one ↦ rw one (omega arith)
      ]
  scan_step-weight w e rng (peers start k) contended sh count hi h =
      elim (Bool-cases (ltb k (probe_limit (q.num_workers - 1) probe))) [
        | inl more ↦ rw more (
            after w _ (peers start (suc k)) contended (stolen_from start k hi h (in_span k more) w))
        | inr over ↦ rw over (omega arith)
      ]
  scan_step-weight w e rng pass_end true sh count hi h = omega arith
  scan_step-weight w e rng pass_end false sh count hi h = omega arith
