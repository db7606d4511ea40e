-- ===== src/Queue/Turns/Signals.antt =====
-- src/queue.rs: which turns call `notify_one`, and where a worker that leaves goes.
use affinitypool.Base.{ℕ, ◌≡◌, ◌≢◌, ◌⊎◌, arith}
use affinitypool.Queue.{Queue}
use affinitypool.Queue.Scan.{Outcome, next, found, nothing, scan_step}
use affinitypool.Queue.Threads.{
  Phase, first, spin, armed, took, quit, again, Pc, starting, scanning, arming, locked_in,
  check_shutdown, asleep, woken, settle, unpark, unlock, exited, running, pushed, peeked, notifying,
  checking, raised, released, closing, broadcasting, Thread, wakes_one, Effect, Env,
}
use affinitypool.Queue.Turns.{
  Action, go, pushes, finishes, closes, panics, act, signal_of, foreign_push, probe_of,
}
use affinitypool.Queue.Turns.Ensures.{Ensures, lock-Ensures, run-Ensures}

-- Only the turn behind `raised` calls `notify_one`, with the counters as they were; a worker told to
-- exit has nowhere else to go.
pub record Signalling {Task : Type 0} (q : Queue Task) (p : Pc Task) (e : Effect Task)
    : Type 0 where
  pub wakes_at : e.signal ≡ wakes_one → (p ≡ raised) × (e.thread.pc ≡ released)
  pub raised_keeps : p ≡ raised → e.queue.notified ≡ q.notified
  pub left : (p ≡ exited) ⊎ (p ≡ unlock quit) → e.thread.pc ≡ exited

module _ {Task : Type 0} (env : Env Task) (i : ℕ) (q : Queue Task) (t : Thread Task) where
  open env use {crossbeam}

  signal_of-quiet : (ph : Phase) (o : Outcome Task) → signal_of ph o ≢ wakes_one
  signal_of-quiet first (next st contended) e = cc
  signal_of-quiet first (found r) e = cc
  signal_of-quiet first nothing e = cc
  signal_of-quiet (spin round) (next st contended) e = cc
  signal_of-quiet (spin round) (found r) e = cc
  signal_of-quiet (spin round) nothing e = cc
  signal_of-quiet armed (next st contended) e = cc
  signal_of-quiet armed (found r) e = cc
  signal_of-quiet armed nothing e = cc

  foreign_push-Signalling : (hint : ℕ) (r : Task) → Signalling q running (foreign_push hint r q t)
  unfolding foreign_push
  foreign_push-Signalling hint r = ground arith

  pub act-Signalling :
      (p : Pc Task) (a : Action crossbeam) → Ensures (Signalling q p) (act env p a i q t)
  unfolding act
  act-Signalling starting a = ground arith
  act-Signalling (scanning ph st contended) (go c) =
      let r = scan_step crossbeam c (probe_of ph) i q t.rng st contended in
      ground (arith, signal_of-quiet ph r.outcome)
  act-Signalling (scanning ph st contended) (pushes r) = tt
  act-Signalling (scanning ph st contended) finishes = tt
  act-Signalling (scanning ph st contended) closes = tt
  act-Signalling (scanning ph st contended) panics = tt
  act-Signalling arming a =
      lock-Ensures (Signalling q arming) i q t locked_in (λ free. ground arith)
  act-Signalling locked_in a = ground arith
  act-Signalling check_shutdown a = ground arith
  act-Signalling asleep a = tt
  act-Signalling woken a =
      lock-Ensures (Signalling q woken) i q t (settle again) (λ free. ground arith)
  act-Signalling (settle x) a = ground arith
  act-Signalling (unpark x) a = ground arith
  act-Signalling (unlock (took r)) a = ground arith
  act-Signalling (unlock quit) a = ground arith
  act-Signalling (unlock again) a = ground arith
  act-Signalling exited a = tt
  act-Signalling running a =
      run-Ensures (Signalling q running) env a i q t (λ r e. foreign_push-Signalling _ r)
        (λ r idx e. ground arith) (λ idx e. ground arith) (ground arith) (λ idx f. ground arith)
  act-Signalling pushed a = ground arith
  act-Signalling (peeked k) a = ground arith
  act-Signalling notifying a =
      lock-Ensures (Signalling q notifying) i q t checking (λ free. ground arith)
  act-Signalling checking a = ground arith
  act-Signalling raised a = ground arith
  act-Signalling released a = ground arith
  act-Signalling closing a =
      lock-Ensures (Signalling q closing) i q t broadcasting (λ free. ground arith)
  act-Signalling broadcasting a = ground arith
