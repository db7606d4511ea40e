-- ===== src/Queue/System/Wake.antt =====
-- src/queue.rs: what a wake-up does to the threads.
use affinitypool.Base.{
  ℕ, suc, ◌+◌, ◌≤◌, ◌<◌, ◌≡◌, refl, sym, ◌⊎◌, inl, inr, Option, none, some, true, false, arith,
  ℕ_discrete, Bool-cases, List,
}
use affinitypool.Base.Family.{total, total-update, total-cong, total_mono}
use affinitypool.Queue.Rng.{IsState}
use affinitypool.Queue.Threads.{
  Thread, asleep, woken, exited, unlock, quit, Signal, quiet, sends, delivers, drops, wakes_one,
  wakes_all, Env,
}
use affinitypool.Queue.Turns.Classes.{
  is_parked, is_signalled, is_asleep, is_leaving, holds_lock, credit, HasRole, Drained, Agent,
}
use affinitypool.Queue.System.{sleeps, wake, wakes, wake_chosen, wake_sleepers}
use affinitypool.Queue.System.Invariant.{parked_weight, signal_weight, SeenTo}
use mathlib.Core.Path.{subst}

module _ {Task : Type 0} where
  -- A thread as it was, or a sleeper woken.
  abbrev pub IsWoken : Thread Task → Thread Task → Type 0
  IsWoken t t' = (t' ≡ t) ⊎ ((t.pc ≡ asleep) × (t' ≡ wake t))

  sleeps-asleep : (t : Thread Task) → sleeps t ≡ true → t.pc ≡ asleep
  sleeps-asleep t h = ground arith

  pub awake : (t : Thread Task) → sleeps t ≡ false → is_asleep t.pc ≡ 0
  awake t h = ground arith

  wake_chosen-IsWoken :
      (ts : ℕ → Thread Task) (o : Option ℕ)
      → ((v : ℕ) → o ≡ some v → sleeps (ts v) ≡ true)
      → (j : ℕ) → IsWoken (ts j) (wake_chosen o ts j)
  wake_chosen-IsWoken ts none h j = inl refl
  wake_chosen-IsWoken ts (some v) h j = elim (ℕ_discrete v j) [
    | yes same ↦ ground (arith, sleeps-asleep (ts v) (h v refl))
    | no apart ↦ ground arith
  ]

  wake_sleepers-IsWoken : (ts : ℕ → Thread Task) (j : ℕ) → IsWoken (ts j) (wake_sleepers ts j)
  wake_sleepers-IsWoken ts j = elim (Bool-cases (sleeps (ts j))) [
    | inl on ↦ rw on (inr (sleeps-asleep (ts j) on, refl))
    | inr off ↦ rw off (inl refl)
  ]

  -- What a place says is kept by a wake-up.
  pub woken-counts :
      (t t' : Thread Task)
      → IsWoken t t'
      → (is_parked t'.pc ≡ is_parked t.pc)
        × (holds_lock t'.pc ≡ holds_lock t.pc)
        × (is_leaving t'.pc ≡ is_leaving t.pc)
        × (is_signalled t.pc ≤ is_signalled t'.pc)
        × ((t'.pc ≡ t.pc) ⊎ (t'.pc ≡ woken))
  woken-counts t t' w = ground arith

  pub woken-Role :
      (n i : ℕ) (t t' : Thread Task) → IsWoken t t' → HasRole n i t t.pc → HasRole n i t' t'.pc
  woken-Role n i t t' w h = ground arith

  pub woken-Drained :
      (ts : List Task) (t t' : Thread Task) → IsWoken t t' → Drained t.pc ts → Drained t'.pc ts
  woken-Drained ts t t' w h = ground arith

  woken-Agent :
      (n mask i sh : ℕ) (t t' : Thread Task)
      → IsWoken t t'
      → Agent n mask i sh t.pc
      → Agent n mask i sh t'.pc
  woken-Agent n mask i sh t t' (inl e) h = subst (λ x. Agent n mask i sh x.pc) (sym e) h
  woken-Agent n mask i sh t t' (inr (a, e)) h = absurd (subst (Agent n mask i sh) a h)

  pub woken-rng : (t t' : Thread Task) → IsWoken t t' → IsState t.rng → IsState t'.rng
  woken-rng t t' w h = ground arith

  left-woken :
      (t t' : Thread Task)
      → IsWoken t t'
      → (t.pc ≡ exited) ⊎ (t.pc ≡ unlock quit)
      → (t'.pc ≡ exited) ⊎ (t'.pc ≡ unlock quit)
  left-woken t t' w h = ground arith

  pub woken-SeenTo :
      (n mask sh : ℕ) (ts ts' : ℕ → Thread Task)
      → ((j : ℕ) → IsWoken (ts j) (ts' j))
      → SeenTo n mask sh ts
      → SeenTo n mask sh ts'
  woken-SeenTo n mask sh ts ts' w (inl (i, agent)) =
      inl (i, woken-Agent n mask i sh (ts i) (ts' i) (w i) agent)
  woken-SeenTo n mask sh ts ts' w (inr gone) =
      inr (λ j lt. left-woken (ts j) (ts' j) (w j) (gone j lt))

  pub woken-parked :
      (bound : ℕ) (ts ts' : ℕ → Thread Task)
      → ((j : ℕ) → IsWoken (ts j) (ts' j))
      → total parked_weight bound ts' ≡ total parked_weight bound ts
  woken-parked bound ts ts' w =
      total-cong parked_weight bound ts' ts (λ j lt. (woken-counts (ts j) (ts' j) (w j)).0)

  woken-signals :
      (bound : ℕ) (ts ts' : ℕ → Thread Task)
      → ((j : ℕ) → IsWoken (ts j) (ts' j))
      → total signal_weight bound ts ≤ total signal_weight bound ts'
  woken-signals bound ts ts' w =
      total_mono signal_weight bound ts ts' (λ j lt. (woken-counts (ts j) (ts' j) (w j)).3)

  -- A sleeper that is woken adds one to the wake-ups under way.
  wake_chosen-signals :
      (bound v : ℕ) (ts : ℕ → Thread Task)
      → v < bound
      → sleeps (ts v) ≡ true
      → total signal_weight bound (wake_chosen (some v) ts) ≡ suc (total signal_weight bound ts)
  wake_chosen-signals bound v ts lt on =
      ground
        (arith, total-update signal_weight bound ts v (wake (ts v)) lt, sleeps-asleep (ts v) on)

module _ {Task : Type 0} (env : Env Task) (bound : ℕ) (c : env.condvar.Choice) where
  open env use {condvar}

  pub wakes-IsWoken :
      (sig : Signal Task) (ts : ℕ → Thread Task) (j : ℕ)
      → IsWoken (ts j) (wakes env bound sig c ts j)
  wakes-IsWoken quiet ts j = inl refl
  wakes-IsWoken (sends r) ts j = inl refl
  wakes-IsWoken (delivers r) ts j = inl refl
  wakes-IsWoken (drops rs) ts j = inl refl
  wakes-IsWoken wakes_one ts j =
      wake_chosen-IsWoken ts _ (λ v e. (condvar.wakes_sleeper c bound (λ k. sleeps (ts k)) v e).1) j
  wakes-IsWoken wakes_all ts j = wake_sleepers-IsWoken ts j

  -- `notify_one` adds a wake-up under way, unless there is no sleeper.
  pub wakes-notified :
      (sig : Signal Task) (ts : ℕ → Thread Task) (notified : ℕ)
      → notified ≤ total signal_weight bound ts + credit sig
      → (((j : ℕ) → j < bound → is_asleep (ts j).pc ≡ 0)
          → sig ≡ wakes_one
          → notified ≤ total signal_weight bound ts)
      → notified ≤ total signal_weight bound (wakes env bound sig c ts)
  wakes-notified quiet ts notified h no_sleeper = omega arith
  wakes-notified (sends r) ts notified h no_sleeper = omega arith
  wakes-notified (delivers r) ts notified h no_sleeper = omega arith
  wakes-notified (drops rs) ts notified h no_sleeper = omega arith
  wakes-notified wakes_one ts notified h no_sleeper =
      by_choice (condvar.notify_one c bound (λ k. sleeps (ts k))) refl
    where
      by_choice :
          (o : Option ℕ)
          → condvar.notify_one c bound (λ k. sleeps (ts k)) ≡ o
          → notified ≤ total signal_weight bound (wake_chosen o ts)
      by_choice none e =
          no_sleeper (λ j lt. awake (ts j) (condvar.wakes_none c bound (λ k. sleeps (ts k)) j e lt))
            refl
      by_choice (some v) e =
          let (lt, on) = condvar.wakes_sleeper c bound (λ k. sleeps (ts k)) v e in
          omega (arith, wake_chosen-signals bound v ts lt on)
  wakes-notified wakes_all ts notified h no_sleeper =
      omega (arith, woken-signals bound ts (wake_sleepers ts) (wake_sleepers-IsWoken ts))
