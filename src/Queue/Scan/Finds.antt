-- ===== src/Queue/Scan/Finds.antt =====
-- src/queue.rs: what `scan` finds.
use affinitypool.Base.{
  ℕ, zero, suc, ◌+◌, ◌^◌, ◌≤◌, ◌<◌, ◌≡◌, ◌≢◌, refl, sym, ◌∙◌, inr, [], some, true, false, bit_and,
  arith,
}
use affinitypool.Queue.{Queue, strict}
use affinitypool.Queue.Rng.{IsState}
use affinitypool.Queue.Scan.{Crossbeam, Stage, own, Outcome, next, found, nothing, scan_step}
use affinitypool.Queue.Scan.Attempts.{SameControl}
use affinitypool.Queue.Scan.Pass.{scan_step-Fills, scan_step-rng}
use affinitypool.Queue.Scan.Coverage.{IsSharded, Covers, CoversAfter, scan_step-Covers}
use affinitypool.Queue.Scan.Whole.{Scanned, proceed, scan_from, scan, steps_left}
use mathlib.Core.Path.{subst}
use affinitypool.Queue.Scan.Nearer.{Uncontended, Nearer, scan_step-Nearer, steps_left-pos}

module _ {Task : Type 0} (cb : Crossbeam Task) (choices : ℕ → cb.Choice)
    (calm : (k : ℕ) → Uncontended cb (choices k)) (idx : ℕ) where
  proceed-finds :
      (fuel e s : ℕ) (q q' : Queue Task) (rng : ℕ) (o : Outcome Task) (left : ℕ)
      → SameControl q q'
      → Nearer q q' false left o
      → left ≤ suc fuel
      → CoversAfter q.mask (bit_and idx q.mask) s o
      → q.injectors s ≢ []
      → ((st : Stage)
          → steps_left q'.mask q'.num_workers st ≤ fuel
          → q'.injectors s ≢ []
          → Covers q'.mask (bit_and idx q'.mask) s st false
          → (r : Scanned Task) × (t : Task) × (scan_from cb choices strict idx fuel q' rng st false
              ≡ some r)
            × (r.task ≡ some t))
      → (r : Scanned Task) × (t : Task) × (proceed q' rng o (scan_from cb choices strict idx fuel)
          ≡ some r)
        × (r.task ≡ some t)
  proceed-finds fuel e s q q' rng (next st true) left same near le covers filled rest =
      absurd (cc (near.1 refl))
  proceed-finds fuel e s q q' rng (next st false) left same near le covers filled rest =
      rest st
        (subst (λ m. steps_left m q'.num_workers st ≤ fuel) (sym same.mask)
          (subst (λ m. steps_left q.mask m st ≤ fuel) (sym same.num_workers)
            (omega (arith, near.0))))
        (λ vacant. filled (sym (near.2 s) ∙ vacant))
        (subst (λ m. Covers m (bit_and idx m) s st false) (sym same.mask) covers)
  proceed-finds fuel e s q q' rng (found r) left same near le covers filled rest =
      (_, r, refl, refl)
  proceed-finds fuel e s q q' rng nothing left same near le covers filled rest = absurd covers

  scan_from-finds :
      (fuel e s : ℕ) (q : Queue Task) (rng : ℕ) (st : Stage)
      → steps_left q.mask q.num_workers st ≤ fuel
      → IsSharded e q
      → IsState rng
      → s < 2 ^ e
      → q.injectors s ≢ []
      → Covers q.mask (bit_and idx q.mask) s st false
      → (r : Scanned Task) × (t : Task) × (scan_from cb choices strict idx fuel q rng st false
          ≡ some r)
        × (r.task ≡ some t)
  unfolding scan_from
  scan_from-finds zero e s q rng st le sh state hs filled covers =
      absurd (omega (arith, steps_left-pos q.mask q.num_workers st))
  scan_from-finds (suc fuel) e s q rng st le sh state hs filled covers =
      let step = scan_step cb (choices fuel) strict idx q rng st false in
      let same = (scan_step-Fills cb (choices fuel) strict idx q rng st false).control in
      proceed-finds fuel e s q step.queue step.rng step.outcome _ same
        (scan_step-Nearer cb (choices fuel) (calm fuel) strict idx q rng st false) le
        (scan_step-Covers cb (choices fuel) idx q e rng s st false sh state hs filled covers) filled
        (λ st' le' filled' covers'.
          scan_from-finds fuel e s step.queue step.rng st' le'
            (record { mask_ones = same.mask ∙ sh.mask_ones; few = sh.few })
            (scan_step-rng cb (choices fuel) idx q strict rng st false state) hs filled' covers')

  -- For any `crossbeam_deque` that answers as documented: if no attempt to steal answers
  -- `Retry`, a strict scan of a queue with `2 ^ e` shards, with a generator in a proper state
  -- and with `8 + mask + num_workers` accesses at least, returns a runnable if some shard is not
  -- empty.
  pub scan-finds :
      (fuel e s : ℕ) (q : Queue Task) (rng : ℕ)
      → 8 + q.mask + q.num_workers ≤ fuel
      → IsSharded e q
      → IsState rng
      → s < 2 ^ e
      → q.injectors s ≢ []
      → (r : Scanned Task) × (t : Task) × (scan cb choices strict idx fuel q rng ≡ some r)
        × (r.task ≡ some t)
  unfolding scan
  scan-finds fuel e s q rng le sh state hs filled =
      scan_from-finds fuel e s q rng own le sh state hs filled (inr tt)
