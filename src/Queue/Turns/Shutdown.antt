-- ===== src/Queue/Turns/Shutdown.antt =====
-- src/queue.rs: the flag `shutdown`, which only `shutdown` stores.
use affinitypool.Base.{ℕ, ◌≡◌, ◌≢◌, refl, Option, none, some, arith}
use affinitypool.Queue.{Queue}
use affinitypool.Queue.Scan.Pass.{scan_step-Fills}
use affinitypool.Queue.Threads.{
  Pc, starting, scanning, arming, locked_in, check_shutdown, asleep, woken, settle, unpark, unlock,
  took, quit, again, exited, running, pushed, peeked, notifying, checking, raised, released,
  closing, broadcasting, Thread, Effect, Env,
}
use affinitypool.Queue.Turns.{
  Action, go, pushes, finishes, closes, panics, act, run_turn, foreign_push, push_from, finish_from,
  panic_from, probe_of,
}
use affinitypool.Queue.Turns.Ensures.{Ensures, lock-Ensures}

module _ {Task : Type 0} (env : Env Task) (i : ℕ) (q : Queue Task) (t : Thread Task) where
  open env use {crossbeam}

  abbrev SameFlag : Effect Task → Type 0
  SameFlag e = e.queue.shutdown ≡ q.shutdown

  foreign_push-SameFlag : (hint : ℕ) (r : Task) → SameFlag (foreign_push hint r q t)
  unfolding foreign_push
  foreign_push-SameFlag hint r = ground arith

  run-SameFlag : (a : Action crossbeam) → a ≢ closes → Ensures SameFlag (run_turn env a i q t)
  run-SameFlag (go c) other = tt
  run-SameFlag (pushes r) other = at t.current_worker
    where
      at : (w : Option ℕ) → SameFlag (push_from w (env.hash_thread_id i) r q t)
      at none = foreign_push-SameFlag (env.hash_thread_id i) r
      at (some idx) = refl
  run-SameFlag finishes other = at t.current_worker
    where
      at : (w : Option ℕ) → Ensures SameFlag (finish_from w q t)
      at none = tt
      at (some idx) = refl
  run-SameFlag closes other = absurd (other refl)
  run-SameFlag panics other = at t.current_worker
    where
      at : (w : Option ℕ) → Ensures SameFlag (panic_from w q t)
      at none = tt
      at (some idx) = refl

  -- A turn with which `shutdown` is not called leaves the flag as it is.
  pub act-shutdown :
      (p : Pc Task) (a : Action crossbeam)
      → a ≢ closes
      → Ensures (λ e. e.queue.shutdown ≡ q.shutdown) (act env p a i q t)
  unfolding act
  act-shutdown starting a other = refl
  act-shutdown (scanning ph st contended) (go c) other =
      (scan_step-Fills crossbeam c (probe_of ph) i q t.rng st contended).control.shutdown
  act-shutdown (scanning ph st contended) (pushes r) other = tt
  act-shutdown (scanning ph st contended) finishes other = tt
  act-shutdown (scanning ph st contended) closes other = tt
  act-shutdown (scanning ph st contended) panics other = tt
  act-shutdown arming a other = lock-Ensures SameFlag i q t locked_in (λ free. refl)
  act-shutdown locked_in a other = refl
  act-shutdown check_shutdown a other = ground arith
  act-shutdown asleep a other = tt
  act-shutdown woken a other = lock-Ensures SameFlag i q t (settle again) (λ free. refl)
  act-shutdown (settle x) a other = refl
  act-shutdown (unpark x) a other = refl
  act-shutdown (unlock (took r)) a other = refl
  act-shutdown (unlock quit) a other = refl
  act-shutdown (unlock again) a other = refl
  act-shutdown exited a other = tt
  act-shutdown running a other = run-SameFlag a other
  act-shutdown pushed a other = refl
  act-shutdown (peeked k) a other = refl
  act-shutdown notifying a other = lock-Ensures SameFlag i q t checking (λ free. refl)
  act-shutdown checking a other = ground arith
  act-shutdown raised a other = refl
  act-shutdown released a other = refl
  act-shutdown closing a other = lock-Ensures SameFlag i q t broadcasting (λ free. refl)
  act-shutdown broadcasting a other = refl
