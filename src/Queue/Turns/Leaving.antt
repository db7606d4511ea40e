-- ===== src/Queue/Turns/Leaving.antt =====
-- src/queue.rs: the turns of a worker that leaves, and of a foreign thread that does not push.
use affinitypool.Base.{ℕ, ◌≡◌, ◌≢◌, refl, ◌⊎◌, none, arith}
use affinitypool.Queue.{Queue}
use affinitypool.Queue.Scan.{Outcome, next, found, nothing, scan_step}
use affinitypool.Queue.Threads.{
  Phase, first, spin, armed, took, quit, again, Pc, starting, scanning, arming, locked_in,
  check_shutdown, asleep, woken, settle, unpark, unlock, exited, running, pushed, peeked, notifying,
  checking, raised, released, closing, broadcasting, Thread, Effect, Env,
}
use affinitypool.Queue.Turns.{
  Action, go, pushes, finishes, closes, panics, act, after_scan, foreign_push, probe_of,
}
use affinitypool.Queue.Turns.Ensures.{Ensures, lock-Ensures, run-Ensures}

module _ {Task : Type 0} where
  -- The worker has been told to exit, and counts as parked no more.
  abbrev pub Leaves : Pc Task → Type 0
  Leaves p = (p ≡ exited) ⊎ (p ≡ unlock quit)

  -- The two places from which a worker comes there.
  abbrev pub IsTold : Pc Task → Type 0
  IsTold (unpark quit) = Unit
  IsTold (unlock quit) = Unit
  IsTold _ = ⊥

  -- A foreign thread in its own code or in `shutdown`.
  abbrev pub IsOutside : Pc Task → Type 0
  IsOutside running = Unit
  IsOutside closing = Unit
  IsOutside broadcasting = Unit
  IsOutside released = Unit
  IsOutside _ = ⊥

  after_scan-stays : (ph : Phase) (o : Outcome Task) → Leaves (after_scan ph o) → ⊥
  after_scan-stays first (next st contended) l = ground arith
  after_scan-stays first (found r) l = ground arith
  after_scan-stays first nothing l = ground arith
  after_scan-stays (spin round) (next st contended) l = ground arith
  after_scan-stays (spin round) (found r) l = ground arith
  after_scan-stays (spin round) nothing l = ground arith
  after_scan-stays armed (next st contended) l = ground arith
  after_scan-stays armed (found r) l = ground arith
  after_scan-stays armed nothing l = ground arith

module _ {Task : Type 0} (env : Env Task) (i : ℕ) (q : Queue Task) (t : Thread Task) where
  open env use {crossbeam}

  abbrev FromTold : Pc Task → Effect Task → Type 0
  FromTold p e = Leaves e.thread.pc → IsTold p

  foreign_push-FromTold : (hint : ℕ) (r : Task) → FromTold running (foreign_push hint r q t)
  unfolding foreign_push
  foreign_push-FromTold hint r = ground arith

  pub act-IsTold :
      (p : Pc Task) (a : Action crossbeam)
      → Ensures (λ e. Leaves e.thread.pc → IsTold p) (act env p a i q t)
  unfolding act
  act-IsTold starting a = ground arith
  act-IsTold (scanning ph st contended) (go c) =
      after_scan-stays ph (scan_step crossbeam c (probe_of ph) i q t.rng st contended).outcome
  act-IsTold (scanning ph st contended) (pushes r) = tt
  act-IsTold (scanning ph st contended) finishes = tt
  act-IsTold (scanning ph st contended) closes = tt
  act-IsTold (scanning ph st contended) panics = tt
  act-IsTold arming a = lock-Ensures (FromTold arming) i q t locked_in (λ free. ground arith)
  act-IsTold locked_in a = ground arith
  act-IsTold check_shutdown a = ground arith
  act-IsTold asleep a = tt
  act-IsTold woken a = lock-Ensures (FromTold woken) i q t (settle again) (λ free. ground arith)
  act-IsTold (settle x) a = ground arith
  act-IsTold (unpark (took r)) a = ground arith
  act-IsTold (unpark quit) a = λ l. tt
  act-IsTold (unpark again) a = ground arith
  act-IsTold (unlock (took r)) a = ground arith
  act-IsTold (unlock quit) a = λ l. tt
  act-IsTold (unlock again) a = ground arith
  act-IsTold exited a = tt
  act-IsTold running a =
      run-Ensures (FromTold running) env a i q t (λ r f. foreign_push-FromTold _ r)
        (λ r idx f. ground arith) (λ idx f. ground arith) (ground arith) (λ idx f. ground arith)
  act-IsTold pushed a = ground arith
  act-IsTold (peeked k) a = ground arith
  act-IsTold notifying a = lock-Ensures (FromTold notifying) i q t checking (λ free. ground arith)
  act-IsTold checking a = ground arith
  act-IsTold raised a = ground arith
  act-IsTold released a = ground arith
  act-IsTold closing a = lock-Ensures (FromTold closing) i q t broadcasting (λ free. ground arith)
  act-IsTold broadcasting a = ground arith

  abbrev StaysOut : Effect Task → Type 0
  StaysOut e = IsOutside e.thread.pc

  run-IsOutside :
      (a : Action crossbeam)
      → t.current_worker ≡ none
      → ((r : Task) → a ≢ pushes r)
      → Ensures StaysOut (act env running a i q t)
  unfolding act
  run-IsOutside (go c) foreign silent = tt
  run-IsOutside (pushes r) foreign silent = absurd (silent r refl)
  run-IsOutside finishes foreign silent = rw foreign tt
  run-IsOutside closes foreign silent = tt
  run-IsOutside panics foreign silent = rw foreign tt

  -- A foreign thread outside of `push` stays there unless it pushes.
  pub act-IsOutside :
      (p : Pc Task) (a : Action crossbeam)
      → t.current_worker ≡ none
      → ((r : Task) → a ≢ pushes r)
      → IsOutside p
      → Ensures (λ e. IsOutside e.thread.pc) (act env p a i q t)
  unfolding act
  act-IsOutside running a foreign silent h = run-IsOutside a foreign silent
  act-IsOutside closing a foreign silent h = lock-Ensures StaysOut i q t broadcasting (λ free. tt)
  act-IsOutside broadcasting a foreign silent h = tt
  act-IsOutside released a foreign silent h = tt
  act-IsOutside p a foreign silent h = absurd h
