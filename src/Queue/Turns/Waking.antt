-- ===== src/Queue/Turns/Waking.antt =====
-- src/queue.rs: which turns free the mutex, fall asleep or shut the queue down, and which can be taken.
use affinitypool.Base.{
  ℕ, ◌≡◌, ◌≢◌, refl, ◌⊎◌, inl, inr, some, true, false, arith, Option-cases, Bool-cases, ltb,
}
use affinitypool.Queue.{Queue}
use affinitypool.Queue.Scan.{Outcome, next, found, nothing, scan_step}
use affinitypool.Queue.Scan.Pass.{scan_step-Fills}
use affinitypool.Queue.Threads.{
  Phase, first, spin, armed, took, quit, again, Pc, starting, scanning, arming, locked_in,
  check_shutdown, asleep, woken, settle, unpark, unlock, exited, running, pushed, peeked, notifying,
  checking, raised, released, closing, broadcasting, Thread, wakes_all, Effect, Env,
}
use affinitypool.Queue.Turns.{
  Action, go, pushes, finishes, closes, panics, act, after_scan, foreign_push, probe_of, lock,
}
use affinitypool.Queue.Turns.Classes.{is_armed, holds_lock}
use affinitypool.Queue.Turns.Ensures.{Ensures, lock-Ensures, run-Ensures}

-- The mutex is held by a thread inside it; a thread falls asleep only while the queue is open; a
-- thread that shuts the queue down goes on to wake all.
pub record Waking {Task : Type 0} (i : ℕ) (q : Queue Task) (p : Pc Task) (e : Effect Task)
    : Type 0 where
  pub owner : (j : ℕ) → e.queue.park ≡ some j → (q.park ≡ some j) ⊎ (j ≡ i)
  pub owns :
      (q.park ≡ some i → holds_lock p ≡ 1) → e.queue.park ≡ some i → holds_lock e.thread.pc ≡ 1
  pub sleeps_open : e.thread.pc ≡ asleep → e.queue.shutdown ≡ false
  pub shuts : e.queue.shutdown ≡ true → (q.shutdown ≡ true) ⊎ (e.thread.pc ≡ closing)
  pub closes_on : p ≡ closing → e.thread.pc ≡ broadcasting
  pub broadcasts : p ≡ broadcasting → e.signal ≡ wakes_all

module _ {Task : Type 0} where
  after_scan-waking :
      (ph : Phase) (o : Outcome Task)
      → (holds_lock (after_scan ph o) ≡ is_armed ph) × (after_scan ph o ≢ asleep)
  after_scan-waking first (next st contended) = (refl, λ e. cc)
  after_scan-waking first (found r) = (refl, λ e. cc)
  after_scan-waking first nothing = (refl, λ e. cc)
  after_scan-waking (spin round) (next st contended) = (refl, λ e. cc)
  after_scan-waking (spin round) (found r) = (refl, λ e. cc)
  after_scan-waking (spin round) nothing = ground arith
  after_scan-waking armed (next st contended) = (refl, λ e. cc)
  after_scan-waking armed (found r) = (refl, λ e. cc)
  after_scan-waking armed nothing = (refl, λ e. cc)

module _ {Task : Type 0} (env : Env Task) (i : ℕ) (q : Queue Task) (t : Thread Task) where
  open env use {crossbeam}

  foreign_push-Waking : (hint : ℕ) (r : Task) → Waking i q running (foreign_push hint r q t)
  unfolding foreign_push
  foreign_push-Waking hint r = ground arith

  pub act-Waking : (p : Pc Task) (a : Action crossbeam) → Ensures (Waking i q p) (act env p a i q t)
  unfolding act
  act-Waking starting a = ground arith
  act-Waking (scanning ph st contended) (go c) =
      let r = scan_step crossbeam c (probe_of ph) i q t.rng st contended in
      let f = scan_step-Fills crossbeam c (probe_of ph) i q t.rng st contended in
      ground (arith, after_scan-waking ph r.outcome, f.control)
  act-Waking (scanning ph st contended) (pushes r) = tt
  act-Waking (scanning ph st contended) finishes = tt
  act-Waking (scanning ph st contended) closes = tt
  act-Waking (scanning ph st contended) panics = tt
  act-Waking arming a = lock-Ensures (Waking i q arming) i q t locked_in (λ free. ground arith)
  act-Waking locked_in a = ground arith
  act-Waking check_shutdown a = ground arith
  act-Waking asleep a = tt
  act-Waking woken a = lock-Ensures (Waking i q woken) i q t (settle again) (λ free. ground arith)
  act-Waking (settle x) a = ground arith
  act-Waking (unpark x) a = ground arith
  act-Waking (unlock (took r)) a = ground arith
  act-Waking (unlock quit) a = ground arith
  act-Waking (unlock again) a = ground arith
  act-Waking exited a = tt
  act-Waking running a =
      run-Ensures (Waking i q running) env a i q t (λ r f. foreign_push-Waking _ r)
        (λ r idx f. ground arith) (λ idx f. ground arith) (ground arith) (λ idx f. ground arith)
  act-Waking pushed a = ground arith
  act-Waking (peeked k) a = ground arith
  act-Waking notifying a = lock-Ensures (Waking i q notifying) i q t checking (λ free. ground arith)
  act-Waking checking a = ground arith
  act-Waking raised a = ground arith
  act-Waking released a = ground arith
  act-Waking closing a = lock-Ensures (Waking i q closing) i q t broadcasting (λ free. ground arith)
  act-Waking broadcasting a = ground arith

  -- A turn is possible.
  abbrev pub CanAct : Pc Task → crossbeam.Choice → Type 0
  CanAct p c = (e : Effect Task) × (act env p (go c) i q t ≡ some e)

  lock-free :
      (p : Pc Task)
      → ((e : Effect Task) × (lock i q t p ≡ some e)) ⊎ ((holder : ℕ) × (q.park ≡ some holder))
  lock-free p = elim (Option-cases q.park) [
    | inl free ↦ inl (rw (free, lock) (_, refl))
    | inr held ↦ inr held
  ]

  -- Only a sleeper, an exited worker and running code have no turn of their own, and a thread that
  -- waits for the mutex while another holds it.
  pub act-CanAct :
      (p : Pc Task) (c : crossbeam.Choice)
      → p ≢ asleep
      → p ≢ exited
      → p ≢ running
      → CanAct p c ⊎ ((holder : ℕ) × (q.park ≡ some holder))
  unfolding act
  act-CanAct starting c s x r = inl (_, refl)
  act-CanAct (scanning ph st contended) c s x r = inl (_, refl)
  act-CanAct arming c s x r = lock-free locked_in
  act-CanAct locked_in c s x r = inl (_, refl)
  act-CanAct check_shutdown c s x r = elim (Bool-cases q.shutdown) [
    | inl shut ↦ inl (rw shut (_, refl))
    | inr open' ↦ inl (rw open' (_, refl))
  ]
  act-CanAct asleep c s x r = absurd (s refl)
  act-CanAct woken c s x r = lock-free (settle again)
  act-CanAct (settle e) c s x r = inl (_, refl)
  act-CanAct (unpark e) c s x r = inl (_, refl)
  act-CanAct (unlock (took t')) c s x r = inl (_, refl)
  act-CanAct (unlock quit) c s x r = inl (_, refl)
  act-CanAct (unlock again) c s x r = inl (_, refl)
  act-CanAct exited c s x r = absurd (x refl)
  act-CanAct running c s x r = absurd (r refl)
  act-CanAct pushed c s x r = inl (_, refl)
  act-CanAct (peeked k) c s x r = inl (_, refl)
  act-CanAct notifying c s x r = lock-free checking
  act-CanAct checking c s x r = elim (Bool-cases (ltb q.notified q.parked)) [
    | inl more ↦ inl (rw more (_, refl))
    | inr fewer ↦ inl (rw fewer (_, refl))
  ]
  act-CanAct raised c s x r = inl (_, refl)
  act-CanAct released c s x r = inl (_, refl)
  act-CanAct closing c s x r = lock-free broadcasting
  act-CanAct broadcasting c s x r = inl (_, refl)

  -- The holder of the mutex never waits.
  pub holder-CanAct : (p : Pc Task) (c : crossbeam.Choice) → holds_lock p ≡ 1 → CanAct p c
  unfolding act
  holder-CanAct starting c h = absurd (omega arith)
  holder-CanAct (scanning ph st contended) c h = (_, refl)
  holder-CanAct arming c h = absurd (omega arith)
  holder-CanAct locked_in c h = (_, refl)
  holder-CanAct check_shutdown c h = elim (Bool-cases q.shutdown) [
    | inl shut ↦ rw shut (_, refl)
    | inr open' ↦ rw open' (_, refl)
  ]
  holder-CanAct asleep c h = absurd (omega arith)
  holder-CanAct woken c h = absurd (omega arith)
  holder-CanAct (settle e) c h = (_, refl)
  holder-CanAct (unpark e) c h = (_, refl)
  holder-CanAct (unlock (took t')) c h = (_, refl)
  holder-CanAct (unlock quit) c h = (_, refl)
  holder-CanAct (unlock again) c h = (_, refl)
  holder-CanAct exited c h = absurd (omega arith)
  holder-CanAct running c h = absurd (omega arith)
  holder-CanAct pushed c h = absurd (omega arith)
  holder-CanAct (peeked k) c h = absurd (omega arith)
  holder-CanAct notifying c h = absurd (omega arith)
  holder-CanAct checking c h = elim (Bool-cases (ltb q.notified q.parked)) [
    | inl more ↦ rw more (_, refl)
    | inr fewer ↦ rw fewer (_, refl)
  ]
  holder-CanAct raised c h = (_, refl)
  holder-CanAct released c h = (_, refl)
  holder-CanAct closing c h = absurd (omega arith)
  holder-CanAct broadcasting c h = (_, refl)
