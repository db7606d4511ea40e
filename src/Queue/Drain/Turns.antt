-- ===== src/Queue/Drain/Turns.antt =====
-- src/queue.rs: the energy that a turn takes.
use affinitypool.Base.{ℕ, ◌≡◌, inl, inr, [], Bool, arith, Option-cases}
use affinitypool.Queue.{Queue}
use affinitypool.Queue.Scan.{Stage, Outcome, scan_step}
use affinitypool.Queue.Scan.Pass.{scan_step-Fills}
use affinitypool.Queue.Scan.Nearer.{Nearer, passes_left, scan_step-Nearer}
use affinitypool.Queue.Threads.{
  Phase, took, quit, again, Pc, starting, scanning, arming, locked_in, check_shutdown, asleep,
  woken, settle, unpark, unlock, exited, running, pushed, peeked, notifying, checking, raised,
  released, closing, broadcasting, Thread, Env,
}
use affinitypool.Queue.Turns.{
  Action, go, pushes, finishes, closes, panics, act, after_scan, signal_of, probe_of,
}
use affinitypool.Queue.Turns.Balance.{sent_by}
use affinitypool.Queue.Turns.Ensures.{Ensures, lock-Ensures}
use affinitypool.Queue.Alone.{scans, turns_left, Popping}
use affinitypool.Queue.Alone.Scans.{scanned-turns_left, scanned-Popping}
use affinitypool.Queue.Drain.{energy, calls, Tame, Spends}
use mathlib.Core.Path.{subst}

module _ {Task : Type 0} (mask n bound : ℕ) where
  Popping-energy : (p : Pc Task) → Popping p → energy mask n bound p ≡ turns_left mask n p
  Popping-energy p h = ground arith

  signal_of-calls : (ph : Phase) (o : Outcome Task) → calls mask n bound (signal_of ph o) ≡ 0
  signal_of-calls ph o = ground arith

  signal_of-unsent : (ph : Phase) (o : Outcome Task) → sent_by (signal_of ph o) ≡ []
  signal_of-unsent ph o = ground arith

  scanned-Spends :
      (ph : Phase) (st : Stage) (contended : Bool) (q q' : Queue Task) (t : Thread Task) (rng : ℕ)
      (o : Outcome Task)
      → q.mask ≡ mask
      → q.num_workers ≡ n
      → Nearer q q' contended (passes_left mask n st contended) o
      → q'.shutdown ≡ q.shutdown
      → Spends mask n bound q (scanning ph st contended) (record {
        queue = q';
        thread = record t { pc = after_scan ph o; rng = rng };
        signal = signal_of ph o;
      })
  scanned-Spends ph st contended q q' t rng o m k near same =
      let nearer = scanned-turns_left {Task = Task} mask n ph st contended q q' o m k near in
      record {
        less = elim (scanned-Popping {Task = Task} mask n ph st contended o) [
          | inl (r, runs, gives) ↦ rw (runs, gives) (omega (arith, nearer, signal_of-calls ph o))
          | inr (popping, kept) ↦
              omega (arith, Popping-energy (after_scan ph o) popping, nearer, signal_of-calls ph o)
        ];
        unsent = signal_of-unsent ph o;
        same_shutdown = same;
      }

module _ {Task : Type 0} (env : Env Task) (mask n bound i : ℕ) (q : Queue Task) (t : Thread Task)
    (same_mask : q.mask ≡ mask) (same_workers : q.num_workers ≡ n) where
  open env use {crossbeam}

  run-Spends :
      (a : Action crossbeam)
      → Tame crossbeam a
      → Ensures (Spends mask n bound q running) (act env running a i q t)
  unfolding act scans
  run-Spends (go c) tame = tt
  run-Spends (pushes r) tame = absurd tame
  run-Spends finishes tame = elim (Option-cases t.current_worker) [
    | inl foreign ↦ rw foreign tt
    | inr (idx, worker) ↦ rw worker (ground arith)
  ]
  run-Spends closes tame = absurd tame
  run-Spends panics tame = elim (Option-cases t.current_worker) [
    | inl foreign ↦ rw foreign tt
    | inr (idx, worker) ↦ rw worker (ground arith)
  ]

  pub act-Spends :
      (p : Pc Task) (a : Action crossbeam)
      → Tame crossbeam a
      → Ensures (Spends mask n bound q p) (act env p a i q t)
  unfolding act scans
  act-Spends starting a tame = ground arith
  act-Spends (scanning ph st contended) (go c) tame =
      let r = scan_step crossbeam c (probe_of ph) i q t.rng st contended in
      scanned-Spends mask n bound ph st contended q r.queue t r.rng r.outcome same_mask same_workers
        (subst (λ m. Nearer q r.queue contended (passes_left m n st contended) r.outcome) same_mask
          (subst (λ k. Nearer q r.queue contended (passes_left q.mask k st contended) r.outcome)
            same_workers (scan_step-Nearer crossbeam c tame (probe_of ph) i q t.rng st contended)))
        (scan_step-Fills crossbeam c (probe_of ph) i q t.rng st contended).control.shutdown
  act-Spends (scanning ph st contended) (pushes r) tame = tt
  act-Spends (scanning ph st contended) finishes tame = tt
  act-Spends (scanning ph st contended) closes tame = tt
  act-Spends (scanning ph st contended) panics tame = tt
  act-Spends arming a tame =
      lock-Ensures (Spends mask n bound q arming) i q t locked_in (λ free. ground arith)
  act-Spends locked_in a tame = ground arith
  act-Spends check_shutdown a tame = ground arith
  act-Spends asleep a tame = tt
  act-Spends woken a tame =
      lock-Ensures (Spends mask n bound q woken) i q t (settle again) (λ free. ground arith)
  act-Spends (settle (took r)) a tame = ground arith
  act-Spends (settle quit) a tame = ground arith
  act-Spends (settle again) a tame = ground arith
  act-Spends (unpark (took r)) a tame = ground arith
  act-Spends (unpark quit) a tame = ground arith
  act-Spends (unpark again) a tame = ground arith
  act-Spends (unlock (took r)) a tame = ground arith
  act-Spends (unlock quit) a tame = ground arith
  act-Spends (unlock again) a tame = ground arith
  act-Spends exited a tame = tt
  act-Spends running a tame = run-Spends a tame
  act-Spends pushed a tame = ground arith
  act-Spends (peeked k) a tame = ground arith
  act-Spends notifying a tame =
      lock-Ensures (Spends mask n bound q notifying) i q t checking (λ free. ground arith)
  act-Spends checking a tame = ground arith
  act-Spends raised a tame = ground arith
  act-Spends released a tame = ground arith
  act-Spends closing a tame =
      lock-Ensures (Spends mask n bound q closing) i q t broadcasting (λ free. ground arith)
  act-Spends broadcasting a tame = ground arith
