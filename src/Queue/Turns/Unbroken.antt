-- ===== src/Queue/Turns/Unbroken.antt =====
-- src/queue.rs and src/lib.rs: the turns with which no worker panics.
use affinitypool.Base.{ℕ, ◌≡◌, ◌≢◌, refl, [], Option, none, some, arith}
use affinitypool.Queue.{Queue}
use affinitypool.Queue.Scan.{Outcome, next, found, nothing, scan_step}
use affinitypool.Queue.Threads.{
  Phase, first, spin, armed, Pc, starting, scanning, arming, locked_in, check_shutdown, asleep,
  woken, settle, unpark, unlock, took, quit, again, exited, running, pushed, peeked, notifying,
  checking, raised, released, closing, broadcasting, Thread, Effect, Env,
}
use affinitypool.Queue.Turns.{
  Action, go, pushes, finishes, closes, panics, act, run_turn, after_scan, signal_of, foreign_push,
  push_from, finish_from, probe_of,
}
use affinitypool.Queue.Turns.Balance.{dropped_by}
use affinitypool.Queue.Turns.Ensures.{Ensures, lock-Ensures}

module _ {Task : Type 0} where
  -- No worker starts anew, and nothing goes with a deque.
  abbrev pub IsUnbroken : Effect Task → Type 0
  IsUnbroken e = (e.thread.pc ≢ starting) × (dropped_by e.signal ≡ [])

  after_scan-unbroken :
      (ph : Phase) (o : Outcome Task)
      → (after_scan ph o ≢ starting) × (dropped_by (signal_of ph o) ≡ [])
  after_scan-unbroken first (next st contended) = ground arith
  after_scan-unbroken first (found r) = ground arith
  after_scan-unbroken first nothing = ground arith
  after_scan-unbroken (spin round) (next st contended) = ground arith
  after_scan-unbroken (spin round) (found r) = ground arith
  after_scan-unbroken (spin round) nothing = ground arith
  after_scan-unbroken armed (next st contended) = ground arith
  after_scan-unbroken armed (found r) = ground arith
  after_scan-unbroken armed nothing = ground arith

module _ {Task : Type 0} (env : Env Task) (i : ℕ) (q : Queue Task) (t : Thread Task) where
  open env use {crossbeam}

  foreign_push-IsUnbroken : (hint : ℕ) (r : Task) → IsUnbroken (foreign_push hint r q t)
  unfolding foreign_push
  foreign_push-IsUnbroken hint r = ground arith

  run-IsUnbroken : (a : Action crossbeam) → a ≢ panics → Ensures IsUnbroken (run_turn env a i q t)
  run-IsUnbroken (go c) other = tt
  run-IsUnbroken (pushes r) other = at t.current_worker
    where
      at : (w : Option ℕ) → IsUnbroken (push_from w (env.hash_thread_id i) r q t)
      at none = foreign_push-IsUnbroken (env.hash_thread_id i) r
      at (some idx) = (λ e. cc e, refl)
  run-IsUnbroken finishes other = at t.current_worker
    where
      at : (w : Option ℕ) → Ensures IsUnbroken (finish_from w q t)
      at none = tt
      at (some idx) = (λ e. cc e, refl)
  run-IsUnbroken closes other = (λ e. cc e, refl)
  run-IsUnbroken panics other = absurd (other refl)

  -- A turn that is no panic is unbroken, where a worker that starts has an empty deque.
  pub act-IsUnbroken :
      (p : Pc Task) (a : Action crossbeam)
      → (p ≡ starting → q.deques i ≡ [])
      → (p ≡ running → a ≢ panics)
      → Ensures IsUnbroken (act env p a i q t)
  unfolding act
  act-IsUnbroken starting a vacant other = (λ e. cc e, vacant refl)
  act-IsUnbroken (scanning ph st contended) (go c) vacant other =
      after_scan-unbroken ph (scan_step crossbeam c (probe_of ph) i q t.rng st contended).outcome
  act-IsUnbroken (scanning ph st contended) (pushes r) vacant other = tt
  act-IsUnbroken (scanning ph st contended) finishes vacant other = tt
  act-IsUnbroken (scanning ph st contended) closes vacant other = tt
  act-IsUnbroken (scanning ph st contended) panics vacant other = tt
  act-IsUnbroken arming a vacant other =
      lock-Ensures IsUnbroken i q t locked_in (λ free. ground arith)
  act-IsUnbroken locked_in a vacant other = ground arith
  act-IsUnbroken check_shutdown a vacant other = ground arith
  act-IsUnbroken asleep a vacant other = tt
  act-IsUnbroken woken a vacant other =
      lock-Ensures IsUnbroken i q t (settle again) (λ free. ground arith)
  act-IsUnbroken (settle x) a vacant other = ground arith
  act-IsUnbroken (unpark x) a vacant other = ground arith
  act-IsUnbroken (unlock (took r)) a vacant other = ground arith
  act-IsUnbroken (unlock quit) a vacant other = ground arith
  act-IsUnbroken (unlock again) a vacant other = ground arith
  act-IsUnbroken exited a vacant other = tt
  act-IsUnbroken running a vacant other = run-IsUnbroken a (other refl)
  act-IsUnbroken pushed a vacant other = ground arith
  act-IsUnbroken (peeked k) a vacant other = ground arith
  act-IsUnbroken notifying a vacant other =
      lock-Ensures IsUnbroken i q t checking (λ free. ground arith)
  act-IsUnbroken checking a vacant other = ground arith
  act-IsUnbroken raised a vacant other = ground arith
  act-IsUnbroken released a vacant other = ground arith
  act-IsUnbroken closing a vacant other =
      lock-Ensures IsUnbroken i q t broadcasting (λ free. ground arith)
  act-IsUnbroken broadcasting a vacant other = ground arith
