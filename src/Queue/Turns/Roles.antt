-- ===== src/Queue/Turns/Roles.antt =====
-- src/queue.rs: what a turn does to the thread's role, and to the deques of workers.
use affinitypool.Base.{ℕ, ◌≡◌, ◌≢◌, inl, List, [], arith}
use affinitypool.Queue.{Queue}
use affinitypool.Queue.Scan.{Outcome, next, found, nothing, scan_step}
use affinitypool.Queue.Scan.Pass.{OwnAfter, scan_step-Fills, scan_step-own}
use affinitypool.Queue.Threads.{
  Phase, first, spin, armed, took, quit, again, Pc, starting, scanning, arming, locked_in,
  check_shutdown, asleep, woken, settle, unpark, unlock, exited, running, pushed, peeked, notifying,
  checking, raised, released, closing, broadcasting, Thread, Effect, Env,
}
use affinitypool.Queue.Turns.{
  Action, go, pushes, finishes, closes, panics, act, after_scan, foreign_push, probe_of,
}
use affinitypool.Queue.Turns.Classes.{WorkerRole, HasRole, Drained}
use affinitypool.Queue.Turns.Ensures.{Ensures, lock-Ensures, run-Ensures}

-- The thread keeps its role, a worker's deque is empty where it has drained it, and no other deque
-- gets a runnable.
pub record Settled {Task : Type 0} (n i : ℕ) (q : Queue Task) (e : Effect Task) : Type 0 where
  pub role : HasRole n i e.thread e.thread.pc
  pub drained : Drained e.thread.pc (e.queue.deques i)
  pub others_drained : (j : ℕ) → j ≢ i → q.deques j ≡ [] → e.queue.deques j ≡ []

module _ {Task : Type 0} where
  after_scan-Role :
      (n i : ℕ) (t : Thread Task) (ph : Phase) (o : Outcome Task)
      → WorkerRole n i t
      → HasRole n i t (after_scan ph o)
  after_scan-Role n i t first (next st contended) w = w
  after_scan-Role n i t first (found r) w = inl w
  after_scan-Role n i t first nothing w = w
  after_scan-Role n i t (spin round) (next st contended) w = w
  after_scan-Role n i t (spin round) (found r) w = inl w
  after_scan-Role n i t (spin round) nothing w = ground arith
  after_scan-Role n i t armed (next st contended) w = w
  after_scan-Role n i t armed (found r) w = w
  after_scan-Role n i t armed nothing w = w

  after_scan-Drained :
      (ph : Phase) (o : Outcome Task) (ts : List Task)
      → OwnAfter o ts
      → Drained (after_scan ph o) ts
  after_scan-Drained first (next st contended) ts w = w
  after_scan-Drained first (found r) ts w = tt
  after_scan-Drained first nothing ts w = tt
  after_scan-Drained (spin round) (next st contended) ts w = w
  after_scan-Drained (spin round) (found r) ts w = tt
  after_scan-Drained (spin round) nothing ts w = ground arith
  after_scan-Drained armed (next st contended) ts w = w
  after_scan-Drained armed (found r) ts w = tt
  after_scan-Drained armed nothing ts w = w

module _ {Task : Type 0} (env : Env Task) (n i : ℕ) (q : Queue Task) (t : Thread Task) where
  open env use {crossbeam}

  foreign_push-Settled :
      (hint : ℕ) (r : Task) → HasRole n i t running → Settled n i q (foreign_push hint r q t)
  unfolding foreign_push
  foreign_push-Settled hint r role = ground arith

  pub act-Settled :
      (p : Pc Task) (a : Action crossbeam)
      → HasRole n i t p
      → Drained p (q.deques i)
      → Ensures (Settled n i q) (act env p a i q t)
  unfolding act
  act-Settled starting a h d = ground arith
  act-Settled (scanning ph st contended) (go c) h d =
      let r = scan_step crossbeam c (probe_of ph) i q t.rng st contended in
      record {
        role =
            after_scan-Role n i (record t { pc = after_scan ph r.outcome; rng = r.rng }) ph
              r.outcome h;
        drained =
            after_scan-Drained ph r.outcome _
              (scan_step-own crossbeam c (probe_of ph) i q t.rng st contended d);
        others_drained =
            (scan_step-Fills crossbeam c (probe_of ph) i q t.rng st contended).deque_stays;
      }
  act-Settled (scanning ph st contended) (pushes r) h d = tt
  act-Settled (scanning ph st contended) finishes h d = tt
  act-Settled (scanning ph st contended) closes h d = tt
  act-Settled (scanning ph st contended) panics h d = tt
  act-Settled arming a h d = lock-Ensures (Settled n i q) i q t locked_in (λ free. ground arith)
  act-Settled locked_in a h d = ground arith
  act-Settled check_shutdown a h d = ground arith
  act-Settled asleep a h d = tt
  act-Settled woken a h d = lock-Ensures (Settled n i q) i q t (settle again) (λ free. ground arith)
  act-Settled (settle x) a h d = record { role = h; drained = d; others_drained = λ j ne e. e }
  act-Settled (unpark x) a h d = record { role = h; drained = d; others_drained = λ j ne e. e }
  act-Settled (unlock (took r)) a h d = ground arith
  act-Settled (unlock quit) a h d = ground arith
  act-Settled (unlock again) a h d = ground arith
  act-Settled exited a h d = tt
  act-Settled running a h d =
      run-Ensures (Settled n i q) env a i q t (λ r e. foreign_push-Settled _ r h)
        (λ r idx e. ground arith) (λ idx e. ground arith) (ground arith) (λ idx f. ground arith)
  act-Settled pushed a h d = ground arith
  act-Settled (peeked k) a h d = ground arith
  act-Settled notifying a h d = lock-Ensures (Settled n i q) i q t checking (λ free. ground arith)
  act-Settled checking a h d = ground arith
  act-Settled raised a h d = ground arith
  act-Settled released a h d = ground arith
  act-Settled closing a h d = lock-Ensures (Settled n i q) i q t broadcasting (λ free. ground arith)
  act-Settled broadcasting a h d = ground arith
