-- ===== src/Queue/Order/Turns.antt =====
-- src/queue.rs: what a turn does to the line of a pool with one worker.
use affinitypool.Base.{
  ℕ, ◌≤◌, ◌<◌, ◌≡◌, refl, sym, List, [], ◌∷◌, ◌++◌, arith, suc, ltb, ◌==◌, true, Option-cases,
  Bool-cases, ◌⊎◌, some, none, ℕ_discrete, inl, inr,
}
use affinitypool.Queue.{Queue, spin_rounds}
use affinitypool.Queue.Scan.{Outcome, next, found, nothing, scan_step}
use affinitypool.Queue.Threads.{
  Phase, first, spin, armed, took, quit, again, Pc, starting, scanning, arming, locked_in,
  check_shutdown, asleep, woken, settle, unpark, unlock, exited, running, pushed, peeked, notifying,
  checking, raised, released, closing, broadcasting, Thread, Effect, Env,
}
use affinitypool.Queue.Turns.{
  Action, go, pushes, finishes, closes, panics, act, after_scan, signal_of, foreign_push, probe_of,
}
use affinitypool.Queue.Turns.Balance.{in_hand}
use affinitypool.Queue.Turns.Classes.{HasRole, Drained}
use affinitypool.Queue.Turns.Ensures.{Ensures, lock-Ensures, run-Ensures}
use affinitypool.Queue.Order.{Ordered, waiting, arrived, departed}
use affinitypool.Queue.Order.Scans.{found_first, scan_step-waiting}
use mathlib.Core.List.{append_assoc}

module _ {Task : Type 0} where
  -- What the worker takes out is at the front of the line.
  abbrev pub Takes : Queue Task → Pc Task → Effect Task → Type 0
  Takes q p e =
      departed e.signal (in_hand e.thread.pc ++ waiting e.queue)
      ≡ arrived e.signal (in_hand p ++ waiting q)

  -- What another thread puts in goes to its end.
  abbrev pub Brings : Queue Task → Effect Task → Type 0
  Brings q e =
      (waiting e.queue ≡ arrived e.signal (waiting q))
      × ((rs : List Task) → departed e.signal rs ≡ rs)

  scanned-Takes :
      (ph : Phase) (o : Outcome Task) (q q' : Queue Task)
      → found_first o (waiting q') ≡ waiting q
      → departed (signal_of ph o) (in_hand (after_scan ph o) ++ waiting q')
        ≡ arrived (signal_of ph o) (waiting q)
  scanned-Takes first (next st contended) q q' h = h
  scanned-Takes first (found r) q q' h = h
  scanned-Takes first nothing q q' h = h
  scanned-Takes (spin round) (next st contended) q q' h = h
  scanned-Takes (spin round) (found r) q q' h = h
  scanned-Takes (spin round) nothing q q' h = elim (Bool-cases (ltb (suc round) spin_rounds)) [
    | inl more ↦ rw more h
    | inr over ↦ rw over h
  ]
  scanned-Takes armed (next st contended) q q' h = h
  scanned-Takes armed (found r) q q' h = h
  scanned-Takes armed nothing q q' h = h

module _ {Task : Type 0} (env : Env Task) (q : Queue Task) (t : Thread Task) where
  open env use {crossbeam}

  pub act-Takes :
      (p : Pc Task) (a : Action crossbeam)
      → Ordered crossbeam
      → q.mask ≡ 0
      → q.num_workers ≡ 1
      → HasRole 1 0 t p
      → Drained p (q.deques 0)
      → ((r : Task) → a ≡ pushes r → ⊥)
      → Ensures (Takes q p) (act env p a 0 q t)
  unfolding act ℕ_discrete
  act-Takes starting a ordered one alone role drained silent = refl
  act-Takes (scanning ph st contended) (go c) ordered one alone role drained silent =
      let r = scan_step crossbeam c (probe_of ph) 0 q t.rng st contended in
      scanned-Takes ph r.outcome q r.queue
        (scan_step-waiting crossbeam c ordered (probe_of ph) q t.rng st contended one alone drained)
  act-Takes (scanning ph st contended) (pushes r) ordered one alone role drained silent = tt
  act-Takes (scanning ph st contended) finishes ordered one alone role drained silent = tt
  act-Takes (scanning ph st contended) closes ordered one alone role drained silent = tt
  act-Takes (scanning ph st contended) panics ordered one alone role drained silent = tt
  act-Takes arming a ordered one alone role drained silent =
      lock-Ensures (Takes q arming) 0 q t locked_in (λ free. refl)
  act-Takes locked_in a ordered one alone role drained silent = refl
  act-Takes check_shutdown a ordered one alone role drained silent = ground arith
  act-Takes asleep a ordered one alone role drained silent = tt
  act-Takes woken a ordered one alone role drained silent =
      lock-Ensures (Takes q woken) 0 q t (settle again) (λ free. refl)
  act-Takes (settle x) a ordered one alone role drained silent = refl
  act-Takes (unpark x) a ordered one alone role drained silent = refl
  act-Takes (unlock (took r)) a ordered one alone role drained silent = refl
  act-Takes (unlock quit) a ordered one alone role drained silent = refl
  act-Takes (unlock again) a ordered one alone role drained silent = refl
  act-Takes exited a ordered one alone role drained silent = tt
  act-Takes running (go c) ordered one alone role drained silent = tt
  act-Takes running (pushes r) ordered one alone role drained silent = absurd (silent r refl)
  act-Takes running finishes ordered one alone role drained silent =
      elim (Option-cases t.current_worker) [
        | inl foreign ↦ rw foreign tt
        | inr (idx, worker) ↦ rw worker refl
      ]
  act-Takes running closes ordered one alone role drained silent = refl
  act-Takes running panics ordered one alone role drained silent =
      elim (Option-cases t.current_worker) [
        | inl foreign ↦ rw foreign tt
        | inr (idx, worker) ↦ rw worker refl
      ]
  act-Takes pushed a ordered one alone role drained silent = refl
  act-Takes (peeked k) a ordered one alone role drained silent = ground arith
  act-Takes notifying a ordered one alone role drained silent =
      lock-Ensures (Takes q notifying) 0 q t checking (λ free. refl)
  act-Takes checking a ordered one alone role drained silent = ground arith
  act-Takes raised a ordered one alone role drained silent = refl
  act-Takes released a ordered one alone role drained silent = refl
  act-Takes closing a ordered one alone role drained silent =
      lock-Ensures (Takes q closing) 0 q t broadcasting (λ free. refl)
  act-Takes broadcasting a ordered one alone role drained silent = refl

  foreign_push-Brings : (hint : ℕ) (r : Task) → q.mask ≡ 0 → Brings q (foreign_push hint r q t)
  unfolding foreign_push ℕ_discrete
  foreign_push-Brings hint r one =
      let single : (q.mask == 0) ≡ true = ground arith in
      rw single (sym (append_assoc (q.deques 0) (q.injectors 0) (r ∷ [])), λ rs. refl)

  pub act-Brings :
      (i : ℕ) (p : Pc Task) (a : Action crossbeam)
      → 1 ≤ i
      → q.mask ≡ 0
      → HasRole 1 i t p
      → Ensures (Brings q) (act env p a i q t)
  unfolding act
  act-Brings i starting a le one role = absurd (omega arith)
  act-Brings i (scanning ph st contended) a le one role = absurd (omega (arith, role.1))
  act-Brings i arming a le one role = absurd (omega (arith, role.1))
  act-Brings i locked_in a le one role = absurd (omega (arith, role.1))
  act-Brings i check_shutdown a le one role = absurd (omega (arith, role.1))
  act-Brings i asleep a le one role = absurd (omega (arith, role.1))
  act-Brings i woken a le one role = absurd (omega (arith, role.1))
  act-Brings i (settle x) a le one role = absurd (omega (arith, role.1))
  act-Brings i (unpark x) a le one role = absurd (omega (arith, role.1))
  act-Brings i (unlock x) a le one role = absurd (omega (arith, role.1))
  act-Brings i exited a le one role = absurd (omega arith)
  act-Brings i running a le one role =
      run-Ensures (Brings q) env a i q t
        (λ r foreign. foreign_push-Brings (env.hash_thread_id i) r one)
        (λ r idx worker. absurd (worker_only idx worker role)) (λ idx worker. (refl, λ rs. refl))
        (refl, λ rs. refl) (λ idx worker. (refl, λ rs. refl))
    where
      worker_only :
          (idx : ℕ)
          → t.current_worker ≡ some idx
          → ((t.current_worker ≡ some i) × (i < 1)) ⊎ ((t.current_worker ≡ none) × (1 ≤ i))
          → ⊥
      worker_only idx worker (inl (same, lt)) = omega arith
      worker_only idx worker (inr (foreign, ge)) = cc (worker, foreign)
  act-Brings i pushed a le one role = (refl, λ rs. refl)
  act-Brings i (peeked k) a le one role = (refl, λ rs. refl)
  act-Brings i notifying a le one role =
      lock-Ensures (Brings q) i q t checking (λ free. (refl, λ rs. refl))
  act-Brings i checking a le one role = elim (Bool-cases (ltb q.notified q.parked)) [
    | inl more ↦ rw more ((refl, λ rs. refl))
    | inr over ↦ rw over ((refl, λ rs. refl))
  ]
  act-Brings i raised a le one role = (refl, λ rs. refl)
  act-Brings i released a le one role = (refl, λ rs. refl)
  act-Brings i closing a le one role =
      lock-Ensures (Brings q) i q t broadcasting (λ free. (refl, λ rs. refl))
  act-Brings i broadcasting a le one role = (refl, λ rs. refl)
