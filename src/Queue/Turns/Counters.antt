-- ===== src/Queue/Turns/Counters.antt =====
-- src/queue.rs: what one turn does to `parked` and `notified`, in step with the thread's place.
use affinitypool.Base.{ℕ, ◌+◌, ◌≤◌, ◌<◌, ◌≡◌, refl, ◌⊎◌, arith, usize_max}
use affinitypool.Queue.{Queue}
use affinitypool.Queue.Scan.{Outcome, next, found, nothing, scan_step}
use affinitypool.Queue.Scan.Pass.{scan_step-Fills}
use affinitypool.Queue.Threads.{
  Phase, first, spin, armed, took, quit, again, Pc, starting, scanning, arming, locked_in,
  check_shutdown, asleep, woken, settle, unpark, unlock, exited, running, pushed, peeked, notifying,
  checking, raised, released, closing, broadcasting, Thread, Effect, Env,
}
use affinitypool.Queue.Turns.{
  Action, go, pushes, finishes, closes, panics, act, after_scan, signal_of, foreign_push, probe_of,
}
use affinitypool.Queue.Turns.Classes.{is_armed, is_parked, is_signalled, holds_lock, credit}
use affinitypool.Queue.Turns.Ensures.{Ensures, lock-Ensures, run-Ensures}

-- `parked` counts the threads at a parked place, and `notified` does not run ahead of the wake-ups;
-- a thread without the mutex changes neither counter.
pub record Counts {Task : Type 0} (q : Queue Task) (p : Pc Task) (e : Effect Task) : Type 0 where
  pub parked : e.queue.parked + is_parked p ≡ q.parked + is_parked e.thread.pc
  pub notified :
      (e.queue.notified ≡ 0)
      ⊎ (e.queue.notified + is_signalled p
          ≤ q.notified + is_signalled e.thread.pc + credit e.signal)
  pub outside : holds_lock p ≡ 0 → (e.queue.parked ≡ q.parked) × (e.queue.notified ≡ q.notified)

-- The counters do not wrap.
pub record InRange {Task : Type 0} (q : Queue Task) (p : Pc Task) : Type 0 where
  pub counted : is_parked p ≤ q.parked
  pub parked_fits : q.parked < usize_max
  pub notified_fits : q.notified < usize_max

module _ {Task : Type 0} where
  after_scan-counts :
      (ph : Phase) (o : Outcome Task)
      → (is_parked (after_scan ph o) ≡ is_armed ph)
        × (is_signalled (after_scan ph o) ≡ 0)
        × (credit (signal_of ph o) ≡ 0)
  after_scan-counts first (next st contended) = (refl, refl, refl)
  after_scan-counts first (found r) = (refl, refl, refl)
  after_scan-counts first nothing = (refl, refl, refl)
  after_scan-counts (spin round) (next st contended) = (refl, refl, refl)
  after_scan-counts (spin round) (found r) = (refl, refl, refl)
  after_scan-counts (spin round) nothing = ground arith
  after_scan-counts armed (next st contended) = (refl, refl, refl)
  after_scan-counts armed (found r) = (refl, refl, refl)
  after_scan-counts armed nothing = (refl, refl, refl)

module _ {Task : Type 0} (env : Env Task) (i : ℕ) (q : Queue Task) (t : Thread Task) where
  open env use {crossbeam}

  foreign_push-Counts : (hint : ℕ) (r : Task) → Counts q running (foreign_push hint r q t)
  unfolding foreign_push
  foreign_push-Counts hint r = ground arith

  pub act-Counts :
      (p : Pc Task) (a : Action crossbeam) → InRange q p → Ensures (Counts q p) (act env p a i q t)
  unfolding act
  act-Counts starting a h = omega arith
  act-Counts (scanning ph st contended) (go c) h =
      let r = scan_step crossbeam c (probe_of ph) i q t.rng st contended in
      let f = scan_step-Fills crossbeam c (probe_of ph) i q t.rng st contended in
      ground (arith, after_scan-counts ph r.outcome, f.control)
  act-Counts (scanning ph st contended) (pushes r) h = tt
  act-Counts (scanning ph st contended) finishes h = tt
  act-Counts (scanning ph st contended) closes h = tt
  act-Counts (scanning ph st contended) panics h = tt
  act-Counts arming a h = lock-Ensures (Counts q arming) i q t locked_in (λ free. omega arith)
  act-Counts locked_in a h = ground arith
  act-Counts check_shutdown a h = ground arith
  act-Counts asleep a h = tt
  act-Counts woken a h = lock-Ensures (Counts q woken) i q t (settle again) (λ free. omega arith)
  act-Counts (settle (took r)) a h = ground arith
  act-Counts (settle quit) a h = ground arith
  act-Counts (settle again) a h = ground arith
  act-Counts (unpark x) a h = ground arith
  act-Counts (unlock (took r)) a h = ground arith
  act-Counts (unlock quit) a h = ground arith
  act-Counts (unlock again) a h = ground arith
  act-Counts exited a h = tt
  act-Counts running a h =
      run-Ensures (Counts q running) env a i q t (λ r e. foreign_push-Counts _ r)
        (λ r idx e. omega arith) (λ idx e. omega arith) (omega arith) (λ idx f. omega arith)
  act-Counts pushed a h = ground arith
  act-Counts (peeked k) a h = ground arith
  act-Counts notifying a h = lock-Ensures (Counts q notifying) i q t checking (λ free. omega arith)
  act-Counts checking a h = ground arith
  act-Counts raised a h = ground arith
  act-Counts released a h = ground arith
  act-Counts closing a h = lock-Ensures (Counts q closing) i q t broadcasting (λ free. omega arith)
  act-Counts broadcasting a h = ground arith
