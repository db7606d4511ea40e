-- ===== src/Queue/Scan/Returns.antt =====
-- src/queue.rs: how many accesses `scan` takes.
use affinitypool.Base.{ℕ, zero, suc, ◌+◌, ◌≤◌, ◌≡◌, refl, sym, some, true, false, arith}
use affinitypool.Queue.{Queue, Probe}
use affinitypool.Queue.Scan.{Crossbeam, Stage, own, Outcome, next, found, nothing, scan_step}
use affinitypool.Queue.Scan.Attempts.{SameControl}
use affinitypool.Queue.Scan.Pass.{scan_step-Fills}
use affinitypool.Queue.Scan.Whole.{Scanned, proceed, scan_from, scan, steps_left}
use mathlib.Core.Path.{subst}
use affinitypool.Queue.Scan.Nearer.{Uncontended, Nearer, scan_step-Nearer, steps_left-pos}

module _ {Task : Type 0} (cb : Crossbeam Task) (choices : ℕ → cb.Choice)
    (calm : (k : ℕ) → Uncontended cb (choices k)) (idx : ℕ) where
  -- The result of the scan, from the outcome of its next step.
  proceed-returns :
      (probe : Probe) (fuel : ℕ) (q q' : Queue Task) (rng : ℕ) (o : Outcome Task) (left : ℕ)
      → SameControl q q'
      → Nearer q q' false left o
      → left ≤ suc fuel
      → ((st : Stage)
          → steps_left q'.mask q'.num_workers st ≤ fuel
          → (r : Scanned Task) × (scan_from cb choices probe idx fuel q' rng st false ≡ some r))
      → (r : Scanned Task) × (proceed q' rng o (scan_from cb choices probe idx fuel) ≡ some r)
  proceed-returns probe fuel q q' rng (next st true) left same near le rest =
      absurd (cc (near.1 refl))
  proceed-returns probe fuel q q' rng (next st false) left same near le rest = rest st (
      subst (λ m. steps_left m q'.num_workers st ≤ fuel) (sym same.mask)
        (subst (λ m. steps_left q.mask m st ≤ fuel) (sym same.num_workers) (omega (arith, near.0))))
  proceed-returns probe fuel q q' rng (found r) left same near le rest = (_, refl)
  proceed-returns probe fuel q q' rng nothing left same near le rest = (_, refl)

  scan_from-returns :
      (probe : Probe) (fuel : ℕ) (q : Queue Task) (rng : ℕ) (st : Stage)
      → steps_left q.mask q.num_workers st ≤ fuel
      → (r : Scanned Task) × (scan_from cb choices probe idx fuel q rng st false ≡ some r)
  unfolding scan_from
  scan_from-returns probe zero q rng st le =
      absurd (omega (arith, steps_left-pos q.mask q.num_workers st))
  scan_from-returns probe (suc fuel) q rng st le =
      let step = scan_step cb (choices fuel) probe idx q rng st false in
      proceed-returns probe fuel q step.queue step.rng step.outcome _
        (scan_step-Fills cb (choices fuel) probe idx q rng st false).control
        (scan_step-Nearer cb (choices fuel) (calm fuel) probe idx q rng st false) le
        (λ st' le'. scan_from-returns probe fuel step.queue step.rng st' le')

  -- For any `crossbeam_deque` that answers as documented: if no attempt to steal answers
  -- `Retry`, a scan of any queue, cheap or strict, returns within `8 + mask + num_workers`
  -- accesses.
  pub scan-returns :
      (probe : Probe) (fuel : ℕ) (q : Queue Task) (rng : ℕ)
      → 8 + q.mask + q.num_workers ≤ fuel
      → (r : Scanned Task) × (scan cb choices probe idx fuel q rng ≡ some r)
  unfolding scan
  scan-returns probe fuel q rng le = scan_from-returns probe fuel q rng own le
