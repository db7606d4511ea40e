-- ===== src/Queue/Turns/Coverage.antt =====
-- src/queue.rs: what a turn does to a shard that its thread sees to.
use affinitypool.Base.{ℕ, ◌≤◌, ◌<◌, ◌^◌, ◌≡◌, ◌≢◌, refl, ◌⊎◌, inl, inr, [], Bool, arith, bit_and}
use affinitypool.Queue.{Queue, cheap, strict}
use affinitypool.Queue.Rng.{IsState, seed-IsState}
use affinitypool.Queue.Scan.{Stage, Outcome, next, found, nothing}
use affinitypool.Queue.Scan.Pass.{scan_step-Fills, scan_step-rng}
use affinitypool.Queue.Scan.Coverage.{IsSharded, CoversAfter, scan_step-Covers}
use affinitypool.Queue.Threads.{
  Phase, first, spin, armed, took, quit, again, Pc, starting, scanning, arming, locked_in,
  check_shutdown, asleep, woken, settle, unpark, unlock, exited, running, pushed, peeked, notifying,
  checking, raised, released, closing, broadcasting, Thread, Effect, Env,
}
use affinitypool.Queue.Turns.{
  Action, go, pushes, finishes, closes, panics, act, after_scan, foreign_push, probe_of, scan_turn,
}
use affinitypool.Queue.Turns.Classes.{WorkerRole, HasRole, Agent}
use affinitypool.Queue.Turns.Ensures.{Ensures, lock-Ensures, run-Ensures}

-- Where a producer ends its part without a notification of its own, and what it has seen.
abbrev pub Handover : {Task : Type 0} → Queue Task → Pc Task → Type 0
Handover q pushed = q.parked ≡ 0
Handover q (peeked parked) = (0 < parked) × (parked ≤ q.notified)
Handover q checking = q.parked ≤ q.notified
Handover q raised = Unit
Handover q _ = ⊥

-- The generator stays proper; the thread still sees to shard `s`, or hands over; and a shard is
-- filled only by a push.
pub record Covering {Task : Type 0} (n i s : ℕ) (q : Queue Task) (p : Pc Task) (e : Effect Task)
    : Type 0 where
  pub rng : IsState e.thread.rng
  pub keeps :
      q.injectors s ≢ []
      → Agent n q.mask i s p
      → Agent n q.mask i s e.thread.pc ⊎ Handover e.queue p
  pub fresh : q.injectors s ≡ [] → (e.queue.injectors s ≡ []) ⊎ (e.thread.pc ≡ pushed)

module _ {Task : Type 0} where
  after_scan-Agent :
      (n mask i s : ℕ) (o : Outcome Task)
      → i < n
      → CoversAfter mask (bit_and i mask) s o
      → Agent n mask i s (after_scan armed o)
  after_scan-Agent n mask i s (next st contended) h c = c
  after_scan-Agent n mask i s (found r) h c = tt
  after_scan-Agent n mask i s nothing h c = c

  after_cheap-Agent :
      (n mask i s : ℕ) (ph : Phase) (o : Outcome Task)
      → i < n
      → (probe_of ph ≡ cheap)
      → Agent n mask i s (after_scan ph o)
  after_cheap-Agent n mask i s first (next st contended) h c = tt
  after_cheap-Agent n mask i s first (found r) h c = h
  after_cheap-Agent n mask i s first nothing h c = tt
  after_cheap-Agent n mask i s (spin round) (next st contended) h c = tt
  after_cheap-Agent n mask i s (spin round) (found r) h c = h
  after_cheap-Agent n mask i s (spin round) nothing h c = ground arith
  after_cheap-Agent n mask i s armed o h c = cc

module _ {Task : Type 0} (env : Env Task) (n i : ℕ) (q : Queue Task) (t : Thread Task) where
  open env use {crossbeam}

  foreign_push-Covering :
      (s hint : ℕ) (r : Task) → IsState t.rng → Covering n i s q running (foreign_push hint r q t)
  unfolding foreign_push
  foreign_push-Covering s hint r state = ground arith

  module _ (e s : ℕ) (sharded : IsSharded e q) (hs : s < 2 ^ e) (state : IsState t.rng) where
    cheap-Covering :
        (ph : Phase) (st : Stage) (contended : Bool) (c : crossbeam.Choice)
        → i < n
        → probe_of ph ≡ cheap
        → Covering n i s q (scanning ph st contended) (scan_turn env c i q t ph st contended)
    cheap-Covering ph st contended c w is_unarmed = record {
      rng = scan_step-rng crossbeam c i q (probe_of ph) t.rng st contended state;
      keeps = λ filled covers. inl (after_cheap-Agent n q.mask i s ph _ w is_unarmed);
      fresh = λ none_there. inl (
          (scan_step-Fills crossbeam c (probe_of ph) i q t.rng st contended).shard_stays s
            none_there);
    }

    scan-Covering :
        (ph : Phase) (st : Stage) (contended : Bool) (a : Action crossbeam)
        → WorkerRole n i t
        → Ensures
            (Covering n i s q (scanning ph st contended))
            (act env (scanning ph st contended) a i q t)
    unfolding act
    scan-Covering ph st contended (pushes r) w = tt
    scan-Covering ph st contended finishes w = tt
    scan-Covering ph st contended closes w = tt
    scan-Covering ph st contended panics w = tt
    scan-Covering armed st contended (go c) w = record {
      rng = scan_step-rng crossbeam c i q strict t.rng st contended state;
      keeps = λ filled covers. inl (
          after_scan-Agent n q.mask i s _ w.1 (
            scan_step-Covers crossbeam c i q e t.rng s st contended sharded state hs filled
              covers));
      fresh = λ none_there.
          inl
            ((scan_step-Fills crossbeam c strict i q t.rng st contended).shard_stays s none_there);
    }
    scan-Covering first st contended (go c) w = cheap-Covering first st contended c w.1 refl
    scan-Covering (spin round) st contended (go c) w =
        cheap-Covering (spin round) st contended c w.1 refl

    pub act-Covering :
        (p : Pc Task) (a : Action crossbeam)
        → HasRole n i t p
        → Ensures (Covering n i s q p) (act env p a i q t)
    unfolding act
    act-Covering starting a h = record {
      rng = seed-IsState i;
      keeps = λ f c. inl tt;
      fresh = λ f. inl f;
    }
    act-Covering (scanning ph st contended) a h = scan-Covering ph st contended a h
    act-Covering arming a h =
        lock-Ensures (Covering n i s q arming) i q t locked_in (λ free. ground arith)
    act-Covering locked_in a h = record {
      rng = state;
      keeps = λ f c. inl (inr tt);
      fresh = λ f. inl f;
    }
    act-Covering check_shutdown a h = ground arith
    act-Covering asleep a h = tt
    act-Covering woken a h =
        lock-Ensures (Covering n i s q woken) i q t (settle again) (λ free. ground arith)
    act-Covering (settle (took r)) a h = ground arith
    act-Covering (settle quit) a h = ground arith
    act-Covering (settle again) a h = ground arith
    act-Covering (unpark (took r)) a h = ground arith
    act-Covering (unpark quit) a h = ground arith
    act-Covering (unpark again) a h = ground arith
    act-Covering (unlock (took r)) a h = ground arith
    act-Covering (unlock quit) a h = ground arith
    act-Covering (unlock again) a h = ground arith
    act-Covering exited a h = tt
    act-Covering running a h =
        run-Ensures (Covering n i s q running) env a i q t
          (λ r f. foreign_push-Covering s _ r state) (λ r idx f. ground arith)
          (λ idx f. ground arith) (ground arith) (λ idx f. ground arith)
    act-Covering pushed a h = ground arith
    act-Covering (peeked k) a h = ground arith
    act-Covering notifying a h =
        lock-Ensures (Covering n i s q notifying) i q t checking (λ free. ground arith)
    act-Covering checking a h = ground arith
    act-Covering raised a h = ground arith
    act-Covering released a h = ground arith
    act-Covering closing a h =
        lock-Ensures (Covering n i s q closing) i q t broadcasting (λ free. ground arith)
    act-Covering broadcasting a h = ground arith
