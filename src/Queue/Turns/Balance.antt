-- ===== src/Queue/Turns/Balance.antt =====
-- src/queue.rs: what a turn does to the runnables that are queued or in a worker's hand.
use affinitypool.Base.{
  ℕ, ◌+◌, ◌^◌, ◌≤◌, ◌<◌, ◌≡◌, refl, sym, List, [], ◌∷◌, ◌++◌, Bool-cases, ◌==◌, arith, inl, inr,
}
use affinitypool.Base.Family.{update, total, total-update, weight, weight-append}
use affinitypool.Cpu.{route_shard}
use affinitypool.Cpu.Route.{route_shard-lt}
use affinitypool.Queue.{Queue, max_threads}
use affinitypool.Queue.Rng.{IsState}
use affinitypool.Queue.Scan.{Outcome, next, found, nothing, scan_step}
use affinitypool.Queue.Scan.Coverage.{IsSharded}
use affinitypool.Queue.Scan.Weights.{queued, found_weight, StartsWithin, GoesWithin}
use affinitypool.Queue.Scan.Conserves.{scan_step-weight, scan_step-GoesWithin}
use affinitypool.Queue.Threads.{
  Phase, first, spin, armed, Exit, took, quit, again, Pc, starting, scanning, arming, locked_in,
  check_shutdown, asleep, woken, settle, unpark, unlock, exited, running, pushed, peeked, notifying,
  checking, raised, released, closing, broadcasting, Thread, Signal, sends, delivers, drops, Effect,
  Env,
}
use affinitypool.Queue.Turns.{
  Action, go, pushes, finishes, closes, panics, act, after_scan, signal_of, foreign_push, self_push,
  inject, probe_of,
}
use affinitypool.Queue.Turns.Classes.{HasRole, Drained}
use affinitypool.Queue.Turns.Ensures.{Ensures, lock-Ensures, run-Ensures}
use native.Mathlib.Nat.{one-le-pow}
use mathlib.Core.Path.{subst}

module _ {Task : Type 0} where
  -- A runnable that an armed scan found, until `pop_blocking` returns it.
  abbrev pub exit_hand : Exit Task → List Task
  exit_hand (took r) = r ∷ []
  exit_hand quit = []
  exit_hand again = []

  abbrev pub in_hand : Pc Task → List Task
  in_hand (settle x) = exit_hand x
  in_hand (unpark x) = exit_hand x
  in_hand (unlock x) = exit_hand x
  in_hand _ = []

  -- What a signal adds to the runnables sent and to those delivered.
  abbrev pub sent_by : Signal Task → List Task
  sent_by (sends r) = r ∷ []
  sent_by _ = []

  abbrev pub delivered_by : Signal Task → List Task
  delivered_by (delivers r) = r ∷ []
  delivered_by _ = []

  abbrev pub dropped_by : Signal Task → List Task
  dropped_by (drops rs) = rs
  dropped_by _ = []

  -- The scan of the thread, if it is in one, goes over the peers within their number.
  abbrev pub ScansWithin : ℕ → Pc Task → Type 0
  ScansWithin n (scanning ph st contended) = StartsWithin n st
  ScansWithin n _ = Unit

  -- What the turn sends, delivers or drops is what it adds to the runnables or takes from them.
  pub record Balanced (n : ℕ) (w : Task → ℕ) (q : Queue Task) (p : Pc Task) (e : Effect Task)
      : Type 0 where
    pub balance :
        queued w e.queue
          + weight w (in_hand e.thread.pc)
          + weight w (delivered_by e.signal)
          + weight w (dropped_by e.signal)
        ≡ queued w q + weight w (in_hand p) + weight w (sent_by e.signal)
    pub within : ScansWithin n e.thread.pc

  after_scan-balance :
      (w : Task → ℕ) (ph : Phase) (o : Outcome Task)
      → (weight w (in_hand (after_scan ph o)) + weight w (delivered_by (signal_of ph o))
          ≡ found_weight w o)
        × (weight w (sent_by (signal_of ph o)) ≡ 0)
        × (weight w (dropped_by (signal_of ph o)) ≡ 0)
  after_scan-balance w first (next st contended) = (refl, refl, refl)
  after_scan-balance w first (found r) = (omega arith, refl, refl)
  after_scan-balance w first nothing = (refl, refl, refl)
  after_scan-balance w (spin round) (next st contended) = (refl, refl, refl)
  after_scan-balance w (spin round) (found r) = (omega arith, refl, refl)
  after_scan-balance w (spin round) nothing = ground arith
  after_scan-balance w armed (next st contended) = (refl, refl, refl)
  after_scan-balance w armed (found r) = (omega arith, refl, refl)
  after_scan-balance w armed nothing = (refl, refl, refl)

  after_scan-ScansWithin :
      (n : ℕ) (ph : Phase) (o : Outcome Task) → GoesWithin n o → ScansWithin n (after_scan ph o)
  after_scan-ScansWithin n first (next st contended) h = h
  after_scan-ScansWithin n first (found r) h = tt
  after_scan-ScansWithin n first nothing h = tt
  after_scan-ScansWithin n (spin round) (next st contended) h = h
  after_scan-ScansWithin n (spin round) (found r) h = tt
  after_scan-ScansWithin n (spin round) nothing h = ground arith
  after_scan-ScansWithin n armed (next st contended) h = h
  after_scan-ScansWithin n armed (found r) h = tt
  after_scan-ScansWithin n armed nothing h = tt

module _ {Task : Type 0} (env : Env Task) (n e i : ℕ) (q : Queue Task) (t : Thread Task)
    (w : Task → ℕ) (sh : IsSharded e q) (count : q.num_injectors ≡ 2 ^ e)
    (workers : q.num_workers ≡ n) where
  open env use {crossbeam}

  inject-weight :
      (r : Task) (target : ℕ)
      → target < q.num_injectors
      → queued w (inject r target q) ≡ queued w q + w r
  unfolding queued
  inject-weight r target h = omega (
    arith,
    total-update (weight w) q.num_injectors q.injectors target (q.injectors target ++ (r ∷ [])) h,
    weight-append w (q.injectors target) (r ∷ []),
  )

  foreign_push-Balanced : (hint : ℕ) (r : Task) → Balanced n w q running (foreign_push hint r q t)
  unfolding foreign_push
  foreign_push-Balanced hint r = elim (Bool-cases (q.mask == 0)) [
    | inl one ↦ rw one (record {
      balance =
          omega (arith, inject-weight r 0 (omega (arith, count, one-le-pow e 2 (omega arith))));
      within = tt;
    })
    | inr more ↦ rw more (record {
      balance = omega (arith, inject-weight r (route_shard hint q.mask t.route).0 target-lt);
      within = tt;
    })
  ]
    where
      target-lt : (route_shard hint q.mask t.route).0 < q.num_injectors
      target-lt = rw sh.mask_ones (omega (arith, count, route_shard-lt e hint t.route))

  self_push-Balanced : (r : Task) (idx : ℕ) → idx < n → Balanced n w q running (self_push r idx q t)
  unfolding queued
  self_push-Balanced r idx h = record {
    balance = omega (
      arith,
      workers,
      total-update (weight w) q.num_workers q.deques idx (q.deques idx ++ (r ∷ []))
          (omega (arith, workers)),
      weight-append w (q.deques idx) (r ∷ []),
    );
    within = tt;
  }

  register-weight :
      i < n
      → total (weight w) q.num_workers (update q.deques i []) + weight w (q.deques i)
        ≡ total (weight w) q.num_workers q.deques
  register-weight h =
      omega (arith, total-update (weight w) q.num_workers q.deques i [] (omega (arith, workers)))

  pub act-Balanced :
      (p : Pc Task) (a : Action crossbeam)
      → IsState t.rng
      → n ≤ max_threads
      → HasRole n i t p
      → Drained p (q.deques i)
      → ScansWithin n p
      → Ensures (Balanced n w q p) (act env p a i q t)
  unfolding act queued
  act-Balanced starting a state few h d s = record {
    balance = omega (arith, register-weight h);
    within = tt;
  }
  act-Balanced (scanning ph st contended) (go c) state few h d s =
      let r = scan_step crossbeam c (probe_of ph) i q t.rng st contended in
      let (out, nothing_sent, nothing_dropped) = after_scan-balance w ph r.outcome in
      record {
        balance = omega (
          arith,
          out,
          nothing_sent,
          nothing_dropped,
          scan_step-weight crossbeam c (probe_of ph) i q w e t.rng st contended sh count
              (omega (arith, h.1, workers)) starts,
        );
        within = after_scan-ScansWithin n ph r.outcome (
            subst (λ m. GoesWithin m r.outcome) workers
              (scan_step-GoesWithin crossbeam c (probe_of ph) i q t.rng st contended state
                (omega (arith, few, workers)) starts));
      }
    where
      starts : StartsWithin q.num_workers st
      starts = subst (λ m. StartsWithin m st) (sym workers) s
  act-Balanced (scanning ph st contended) (pushes r) state few h d s = tt
  act-Balanced (scanning ph st contended) finishes state few h d s = tt
  act-Balanced (scanning ph st contended) closes state few h d s = tt
  act-Balanced (scanning ph st contended) panics state few h d s = tt
  act-Balanced arming a state few h d s =
      lock-Ensures (Balanced n w q arming) i q t locked_in (λ free. omega arith)
  act-Balanced locked_in a state few h d s = ground arith
  act-Balanced check_shutdown a state few h d s = ground arith
  act-Balanced asleep a state few h d s = tt
  act-Balanced woken a state few h d s =
      lock-Ensures (Balanced n w q woken) i q t (settle again) (λ free. omega arith)
  act-Balanced (settle x) a state few h d s = ground arith
  act-Balanced (unpark x) a state few h d s = ground arith
  act-Balanced (unlock (took r)) a state few h d s = ground arith
  act-Balanced (unlock quit) a state few h d s = ground arith
  act-Balanced (unlock again) a state few h d s = ground arith
  act-Balanced exited a state few h d s = tt
  act-Balanced running a state few h d s =
      run-Ensures (Balanced n w q running) env a i q t (λ r f. foreign_push-Balanced _ r)
        (λ r idx f. self_push-Balanced r idx (ground arith)) (λ idx f. ground arith) (ground arith)
        (λ idx f. ground arith)
  act-Balanced pushed a state few h d s = ground arith
  act-Balanced (peeked k) a state few h d s = ground arith
  act-Balanced notifying a state few h d s =
      lock-Ensures (Balanced n w q notifying) i q t checking (λ free. omega arith)
  act-Balanced checking a state few h d s = ground arith
  act-Balanced raised a state few h d s = ground arith
  act-Balanced released a state few h d s = ground arith
  act-Balanced closing a state few h d s =
      lock-Ensures (Balanced n w q closing) i q t broadcasting (λ free. omega arith)
  act-Balanced broadcasting a state few h d s = ground arith
