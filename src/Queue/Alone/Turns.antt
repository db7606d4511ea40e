-- ===== src/Queue/Alone/Turns.antt =====
-- src/queue.rs: how far the worker is from its return after a turn.
use affinitypool.Base.{
  ℕ, suc, ◌+◌, ◌≤◌, ◌<◌, ◌≡◌, refl, sym, ◌∙◌, inl, inr, Option, none, some, true, false, arith,
}
use affinitypool.Queue.{Queue}
use affinitypool.Queue.Scan.{own, scan_step}
use affinitypool.Queue.Scan.Pass.{scan_step-Fills}
use affinitypool.Queue.Scan.Nearer.{Uncontended, Nearer, passes_left, scan_step-Nearer}
use affinitypool.Queue.Threads.{
  first, armed, took, quit, again, Pc, starting, scanning, arming, locked_in, check_shutdown, woken,
  settle, unpark, unlock, Thread, Effect, Env,
}
use affinitypool.Queue.Turns.{go, act, probe_of, lock}
use affinitypool.Queue.Turns.Classes.{holds_lock}
use mathlib.Core.Path.{subst}
use affinitypool.Queue.Alone.{has_ended, scans, turns_left, Popping, IsAlone, Returned, Goes}
use affinitypool.Queue.Alone.Scans.{scanned-Goes}

module _ {Task : Type 0} (env : Env Task) (mask n i : ℕ) where
  open env use {crossbeam}

  abbrev Next : ℕ → Option (Effect Task) → Type 0
  Next left o = (e : Effect Task) × (o ≡ some e) × Goes mask n left e

  -- A turn to another place of `pop_blocking`.
  goes-IsAlone :
      (q q' : Queue Task) (p p' : Pc Task)
      → IsAlone mask n q p
      → q'.mask ≡ q.mask
      → q'.num_workers ≡ q.num_workers
      → q'.shutdown ≡ q.shutdown
      → (holds_lock p' ≡ 0 → q'.park ≡ none)
      → Popping p'
      → IsAlone mask n q' p'
  goes-IsAlone q q' p p' alone m k s free popping = record {
    same_mask = m ∙ alone.same_mask;
    same_workers = k ∙ alone.same_workers;
    shut = s ∙ alone.shut;
    free = free;
    popping = popping;
  }

  locks-Next :
      (q : Queue Task) (t : Thread Task) (p p' : Pc Task) (left : ℕ)
      → IsAlone mask n q p
      → holds_lock p ≡ 0
      → holds_lock p' ≡ 1
      → Popping p'
      → suc (turns_left mask n p') ≤ left
      → Next left (lock i q t p')
  locks-Next q t p p' left alone outside holds popping le =
      rw (alone.free outside, lock)
        (
          _,
          refl,
          inr (
            goes-IsAlone q (record q { park = some i }) p p' alone refl refl refl
                (λ e. absurd (omega (arith, holds))) popping,
            le,
          ),
        )

  pub act-Next :
      (p : Pc Task) (c : crossbeam.Choice)
      → Uncontended crossbeam c
      → (q : Queue Task) (t : Thread Task) → t.pc ≡ p
      → IsAlone mask n q p
      → Next (turns_left {Task = Task} mask n p) (act env p (go c) i q t)
  unfolding act scans
  act-Next starting c calm q t at alone = (
    _,
    refl,
    inr (
      goes-IsAlone q _ starting (scanning first own false) alone refl refl refl alone.free tt,
      omega arith,
    ),
  )
  act-Next (scanning ph st contended) c calm q t at alone =
      let r = scan_step crossbeam c (probe_of ph) i q t.rng st contended in
      let near : Nearer q r.queue contended (passes_left mask n st contended) r.outcome =
        subst (λ m. Nearer q r.queue contended (passes_left m n st contended) r.outcome)
          alone.same_mask
          (subst (λ k. Nearer q r.queue contended (passes_left q.mask k st contended) r.outcome)
            alone.same_workers
            (scan_step-Nearer crossbeam c calm (probe_of ph) i q t.rng st contended)) in
      (
        _,
        refl,
        scanned-Goes mask n ph st contended q r.queue t r.rng r.outcome alone
            (scan_step-Fills crossbeam c (probe_of ph) i q t.rng st contended).control near,
      )
  act-Next arming c calm q t at alone =
      locks-Next q t arming locked_in (16 + mask + n) alone refl refl tt (omega arith)
  act-Next locked_in c calm q t at alone = (
    _,
    refl,
    inr (
      goes-IsAlone q _ locked_in (scanning armed own false) alone refl refl refl
          (λ e. absurd (omega arith)) tt,
      omega arith,
    ),
  )
  act-Next check_shutdown c calm q t at alone = rw alone.shut (
    _,
    refl,
    inr (
      goes-IsAlone q _ check_shutdown (settle quit) alone refl refl (sym alone.shut)
          (λ e. absurd (omega arith)) tt,
      omega arith,
    ),
  )
  act-Next woken c calm q t at alone =
      locks-Next q t woken (settle again) _ alone refl refl tt (omega arith)
  act-Next (settle (took r)) c calm q t at alone = (
    _,
    refl,
    inr (
      goes-IsAlone q _ (settle (took r)) (unpark (took r)) alone refl refl refl
          (λ e. absurd (omega arith)) tt,
      omega arith,
    ),
  )
  act-Next (settle quit) c calm q t at alone = (
    _,
    refl,
    inr (
      goes-IsAlone q _ (settle quit) (unpark quit) alone refl refl refl (λ e. absurd (omega arith))
          tt,
      omega arith,
    ),
  )
  act-Next (settle again) c calm q t at alone = (
    _,
    refl,
    inr (
      goes-IsAlone q _ (settle again) (unpark again) alone refl refl refl
          (λ e. absurd (omega arith)) tt,
      omega arith,
    ),
  )
  act-Next (unpark (took r)) c calm q t at alone = (
    _,
    refl,
    inr (
      goes-IsAlone q _ (unpark (took r)) (unlock (took r)) alone refl refl refl
          (λ e. absurd (omega arith)) tt,
      omega arith,
    ),
  )
  act-Next (unpark quit) c calm q t at alone = (
    _,
    refl,
    inr (
      goes-IsAlone q _ (unpark quit) (unlock quit) alone refl refl refl (λ e. absurd (omega arith))
          tt,
      omega arith,
    ),
  )
  act-Next (unpark again) c calm q t at alone = (
    _,
    refl,
    inr (
      goes-IsAlone q _ (unpark again) (unlock again) alone refl refl refl
          (λ e. absurd (omega arith)) tt,
      omega arith,
    ),
  )
  act-Next (unlock (took r)) c calm q t at alone = (_, refl, inl (inr (r, refl, refl)))
  act-Next (unlock quit) c calm q t at alone = (_, refl, inl (inl refl))
  act-Next (unlock again) c calm q t at alone = (
    _,
    refl,
    inr (
      goes-IsAlone q _ (unlock again) (scanning first own false) alone refl refl refl (λ e. refl)
          tt,
      omega arith,
    ),
  )
  act-Next p c calm q t at alone = absurd alone.popping

  pub turns_left-pos : (p : Pc Task) → 0 < turns_left {Task = Task} mask n p
  unfolding scans
  turns_left-pos p = ground arith

  pub Popping-goes_on : (p : Pc Task) → Popping p → has_ended p ≡ false
  Popping-goes_on p h = ground arith

  pub Returned-has_ended : (e : Effect Task) → Returned e → has_ended e.thread.pc ≡ true
  Returned-has_ended e h = ground arith
