-- ===== src/Queue/Turns/Mutex.antt =====
-- src/queue.rs: what one turn does to the mutex `park`, and to the fields fixed at construction.
use affinitypool.Base.{ℕ, ◌≤◌, ◌<◌, ◌≡◌, ◌≢◌, refl, none, some, true, arith, usize_max}
use affinitypool.Queue.{Queue}
use affinitypool.Queue.Scan.{Outcome, next, found, nothing, scan_step}
use affinitypool.Queue.Scan.Pass.{scan_step-Fills}
use affinitypool.Queue.Threads.{
  Phase, first, spin, armed, took, quit, again, Pc, starting, scanning, arming, locked_in,
  check_shutdown, asleep, woken, settle, unpark, unlock, exited, running, pushed, peeked, notifying,
  checking, raised, released, closing, broadcasting, Thread, quiet, Effect, Env,
}
use affinitypool.Queue.Turns.{
  Action, go, pushes, finishes, closes, panics, act, after_scan, foreign_push, probe_of,
}
use affinitypool.Queue.Turns.Classes.{is_armed, is_leaving, holds_lock}
use affinitypool.Queue.Turns.Ensures.{Ensures, lock-Ensures, run-Ensures}

-- Thread `i` holds the mutex where its place says so, and takes it from no other thread; before
-- `notify_one`, the wake-up to come is counted and some thread is parked; `shutdown` stays set and is
-- set where a worker leaves; and the sizes are fixed.
pub record Guarded {Task : Type 0} (i : ℕ) (q : Queue Task) (e : Effect Task) : Type 0 where
  pub held : holds_lock e.thread.pc ≡ 1 → e.queue.park ≡ some i
  pub others_held : (j : ℕ) → j ≢ i → q.park ≡ some j → e.queue.park ≡ some j
  pub claimed : e.thread.pc ≡ raised → (0 < e.queue.notified) × (e.queue.notified ≤ e.queue.parked)
  pub leaves : is_leaving e.thread.pc ≡ 1 → e.queue.shutdown ≡ true
  pub stays_shut : q.shutdown ≡ true → e.queue.shutdown ≡ true
  pub num_workers : e.queue.num_workers ≡ q.num_workers
  pub num_injectors : e.queue.num_injectors ≡ q.num_injectors
  pub mask : e.queue.mask ≡ q.mask

-- What is known of the thread before its turn.
pub record MayHold {Task : Type 0} (i : ℕ) (q : Queue Task) (p : Pc Task) : Type 0 where
  pub held : holds_lock p ≡ 1 → q.park ≡ some i
  pub leaves : is_leaving p ≡ 1 → q.shutdown ≡ true
  pub notified_fits : q.notified < usize_max

module _ {Task : Type 0} where
  after_scan-places :
      (ph : Phase) (o : Outcome Task)
      → (holds_lock (after_scan ph o) ≡ is_armed ph)
        × (is_leaving (after_scan ph o) ≡ 0)
        × (after_scan ph o ≢ raised)
  after_scan-places first (next st contended) = (refl, refl, λ e. cc)
  after_scan-places first (found r) = (refl, refl, λ e. cc)
  after_scan-places first nothing = (refl, refl, λ e. cc)
  after_scan-places (spin round) (next st contended) = (refl, refl, λ e. cc)
  after_scan-places (spin round) (found r) = (refl, refl, λ e. cc)
  after_scan-places (spin round) nothing = ground arith
  after_scan-places armed (next st contended) = (refl, refl, λ e. cc)
  after_scan-places armed (found r) = (refl, refl, λ e. cc)
  after_scan-places armed nothing = (refl, refl, λ e. cc)

module _ {Task : Type 0} (env : Env Task) (i : ℕ) (q : Queue Task) (t : Thread Task) where
  open env use {crossbeam}

  foreign_push-Guarded : (hint : ℕ) (r : Task) → Guarded i q (foreign_push hint r q t)
  unfolding foreign_push
  foreign_push-Guarded hint r = ground arith

  lock-Guarded :
      (p : Pc Task)
      → is_leaving p ≡ 0
      → p ≢ raised
      → q.park ≡ none
      → Guarded i q (record {
        queue = record q { park = some i };
        thread = record t { pc = p };
        signal = quiet;
      })
  lock-Guarded p stays other free = ground arith

  pub act-Guarded :
      (p : Pc Task) (a : Action crossbeam)
      → MayHold i q p
      → Ensures (Guarded i q) (act env p a i q t)
  unfolding act
  act-Guarded starting a h = ground arith
  act-Guarded (scanning ph st contended) (go c) h =
      let r = scan_step crossbeam c (probe_of ph) i q t.rng st contended in
      let f = scan_step-Fills crossbeam c (probe_of ph) i q t.rng st contended in
      ground (arith, after_scan-places ph r.outcome, f.control)
  act-Guarded (scanning ph st contended) (pushes r) h = tt
  act-Guarded (scanning ph st contended) finishes h = tt
  act-Guarded (scanning ph st contended) closes h = tt
  act-Guarded (scanning ph st contended) panics h = tt
  act-Guarded arming a h =
      lock-Ensures (Guarded i q) i q t locked_in (lock-Guarded locked_in refl (λ e. cc))
  act-Guarded locked_in a h = ground arith
  act-Guarded check_shutdown a h = ground arith
  act-Guarded asleep a h = tt
  act-Guarded woken a h =
      lock-Ensures (Guarded i q) i q t (settle again) (lock-Guarded (settle again) refl (λ e. cc))
  act-Guarded (settle (took r)) a h = ground arith
  act-Guarded (settle quit) a h = ground arith
  act-Guarded (settle again) a h = ground arith
  act-Guarded (unpark (took r)) a h = ground arith
  act-Guarded (unpark quit) a h = ground arith
  act-Guarded (unpark again) a h = ground arith
  act-Guarded (unlock (took r)) a h = ground arith
  act-Guarded (unlock quit) a h = ground arith
  act-Guarded (unlock again) a h = ground arith
  act-Guarded exited a h = tt
  act-Guarded running a h =
      run-Ensures (Guarded i q) env a i q t (λ r e. foreign_push-Guarded _ r)
        (λ r idx e. ground arith) (λ idx e. ground arith) (ground arith) (λ idx f. ground arith)
  act-Guarded pushed a h = ground arith
  act-Guarded (peeked k) a h = ground arith
  act-Guarded notifying a h =
      lock-Ensures (Guarded i q) i q t checking (lock-Guarded checking refl (λ e. cc))
  act-Guarded checking a h = ground arith
  act-Guarded raised a h = ground arith
  act-Guarded released a h = ground arith
  act-Guarded closing a h =
      lock-Ensures (Guarded i q) i q t broadcasting (lock-Guarded broadcasting refl (λ e. cc))
  act-Guarded broadcasting a h = ground arith
