-- ===== src/Queue/System/Moved.antt =====
-- src/queue.rs: the queue and the threads after a turn of one thread, before the threads it wakes go on.
use affinitypool.Base.{ℕ, ◌+◌, ◌≤◌, ◌<◌, ◌^◌, ◌≡◌, ◌≢◌, ◌⊎◌, some, true, arith}
use affinitypool.Base.Family.{
  update_elim, update, total, total-update, total-zero, total-le, total-le_add₃, le-total,
}
use affinitypool.Queue.Rng.{IsState}
use affinitypool.Queue.Threads.{Pc, Thread, raised, released, Effect, Env, wakes_one}
use affinitypool.Queue.Turns.{Action, act}
use affinitypool.Queue.Turns.Classes.{
  is_parked_inside, is_asleep, is_leaving, holds_lock, credit, HasRole, Drained, Drained-mono,
}
use affinitypool.Queue.Turns.Ensures.{Ensures-some}
use affinitypool.Queue.Turns.Counters.{Counts, InRange, act-Counts}
use affinitypool.Queue.Turns.Mutex.{Guarded, act-Guarded}
use affinitypool.Queue.Turns.Roles.{Settled, act-Settled}
use affinitypool.Queue.Turns.Coverage.{Covering, act-Covering}
use affinitypool.Queue.Turns.Signals.{Signalling, act-Signalling}
use affinitypool.Queue.System.{System}
use affinitypool.Queue.System.Invariant.{parked_weight, signal_weight, Inv}
use native.Mathlib.Nat.{one-le-pow}

module _ {Task : Type 0} where
  pub parked_small : (t : Thread Task) → parked_weight t ≤ 1
  parked_small t = ground arith

  signal_small : (t : Thread Task) → signal_weight t ≤ 1
  signal_small t = ground arith

  inside_weight : Thread Task → ℕ
  inside_weight t = is_parked_inside t.pc

  asleep_weight : Thread Task → ℕ
  asleep_weight t = is_asleep t.pc

  -- A parked thread is asleep, or woken, or inside the mutex.
  parked_split :
      (t : Thread Task) → parked_weight t ≤ signal_weight t + asleep_weight t + inside_weight t
  unfolding inside_weight asleep_weight
  parked_split t = ground arith

  inside_released : (t : Thread Task) → t.pc ≡ released → inside_weight t ≡ 0
  unfolding inside_weight
  inside_released t h = ground arith

  lock_small : (t : Thread Task) → (holds_lock t.pc ≡ 0) ⊎ (holds_lock t.pc ≡ 1)
  lock_small t = ground arith

  inside-le-lock : (t : Thread Task) → inside_weight t ≤ holds_lock t.pc
  unfolding inside_weight
  inside-le-lock t = ground arith

module _ {Task : Type 0} (env : Env Task) {n bound e : ℕ} {s : System Task} (inv : Inv n bound e s)
    (i : ℕ) (lt : i < bound) (a : Action env.crossbeam) {eff : Effect Task}
    (eq : act env (s.threads i).pc a i s.queue (s.threads i) ≡ some eff) where
  abbrev before : Pc Task
  before = (s.threads i).pc

  -- The threads after the turn and before its wake-ups.
  abbrev pub moved : ℕ → Thread Task
  moved = update s.threads i eff.thread

  in_range : InRange s.queue before
  in_range = record {
    counted = omega (arith, inv.parked, le-total parked_weight bound s.threads i lt);
    parked_fits =
        omega
          (arith, inv.parked, inv.countable, total-le parked_weight bound s.threads parked_small);
    notified_fits =
        omega
          (arith, inv.notified, inv.countable, total-le signal_weight bound s.threads signal_small);
  }

  pub counts : Counts s.queue before eff
  counts = Ensures-some _ _ eq (act-Counts env i s.queue (s.threads i) before a in_range)

  pub guarded : Guarded i s.queue eff
  guarded = Ensures-some _ _ eq (
      act-Guarded env i s.queue (s.threads i) before a (record {
        held = inv.held i;
        leaves = inv.leaves i;
        notified_fits = in_range.notified_fits;
      }))

  pub settled : Settled n i s.queue eff
  settled =
      Ensures-some _ _ eq
        (act-Settled env n i s.queue (s.threads i) before a (inv.role i) (inv.drained i))

  pub signalling : Signalling s.queue before eff
  signalling = Ensures-some _ _ eq (act-Signalling env i s.queue (s.threads i) before a)

  pub covering : (sh : ℕ) → sh < 2 ^ e → Covering n i sh s.queue before eff
  covering sh hs = Ensures-some _ _ eq (
      act-Covering env n i s.queue (s.threads i) e sh inv.sharded hs (inv.rng i) before a
        (inv.role i))

  -- While another thread holds the mutex, this one does not.
  no_lock : (j : ℕ) → j ≢ i → holds_lock (s.threads j).pc ≡ 1 → holds_lock before ≡ 0
  no_lock j ne h = ground (arith, inv.held j h, inv.held i, lock_small (s.threads i))

  pub moved_parked : eff.queue.parked ≡ total parked_weight bound moved
  moved_parked =
      omega (
        arith,
        counts.parked,
        inv.parked,
        total-update parked_weight bound s.threads i eff.thread lt,
      )

  pub moved_notified : eff.queue.notified ≤ total signal_weight bound moved + credit eff.signal
  moved_notified = omega (
    arith,
    counts.notified,
    inv.notified,
    total-update signal_weight bound s.threads i eff.thread lt,
  )

  pub moved_role : (j : ℕ) → HasRole n j (moved j) (moved j).pc
  moved_role =
      update_elim (λ j t. HasRole n j t t.pc) s.threads i eff.thread settled.role
        (λ j ne. inv.role j)

  pub moved_held : (j : ℕ) → holds_lock (moved j).pc ≡ 1 → eff.queue.park ≡ some j
  moved_held =
      update_elim (λ j t. holds_lock t.pc ≡ 1 → eff.queue.park ≡ some j) s.threads i eff.thread
        guarded.held (λ j ne h. guarded.others_held j ne (inv.held j h))

  pub moved_leaves : (j : ℕ) → is_leaving (moved j).pc ≡ 1 → eff.queue.shutdown ≡ true
  moved_leaves =
      update_elim (λ j t. is_leaving t.pc ≡ 1 → eff.queue.shutdown ≡ true) s.threads i eff.thread
        guarded.leaves (λ j ne h. guarded.stays_shut (inv.leaves j h))

  pub moved-Drained : (j : ℕ) → Drained (moved j).pc (eff.queue.deques j)
  moved-Drained =
      update_elim (λ j t. Drained t.pc (eff.queue.deques j)) s.threads i eff.thread settled.drained
        λ j ne. Drained-mono (s.threads j).pc _ _ (settled.others_drained j ne) (inv.drained j)

  pub moved_rng : (j : ℕ) → IsState (moved j).rng
  moved_rng =
      update_elim (λ j t. IsState t.rng) s.threads i eff.thread
        (covering 0 (one-le-pow e 2 (omega arith))).rng (λ j ne. inv.rng j)

  pub moved_claimed :
      (j : ℕ)
      → (moved j).pc ≡ raised
      → (0 < eff.queue.notified) × (eff.queue.notified ≤ eff.queue.parked)
  moved_claimed =
      update_elim
        (λ j t. t.pc ≡ raised → (0 < eff.queue.notified) × (eff.queue.notified ≤ eff.queue.parked))
        s.threads i eff.thread guarded.claimed other
    where
      other :
          (j : ℕ)
          → j ≢ i
          → (s.threads j).pc ≡ raised
          → (0 < eff.queue.notified) × (eff.queue.notified ≤ eff.queue.parked)
      other j ne at =
          let outside : holds_lock before ≡ 0 = no_lock j ne (ground arith) in
          ground (arith, counts.outside outside, inv.claimed j at)

  -- Before `notify_one`, no parked thread but sleepers and those already woken.
  pub moved_no_sleeper :
      ((j : ℕ) → j < bound → is_asleep (moved j).pc ≡ 0)
      → eff.signal ≡ wakes_one
      → eff.queue.notified ≤ total signal_weight bound moved
  moved_no_sleeper awake at = omega (
    arith,
    signalling.raised_keeps at_raised,
    inv.claimed i at_raised,
    same_parked,
    moved_parked,
    total-le_add₃ parked_weight signal_weight asleep_weight inside_weight bound moved parked_split,
    total-zero asleep_weight bound moved awake',
    total-zero inside_weight bound moved (λ j _. outside j),
  )
    where
      at_raised : before ≡ raised
      at_raised = (signalling.wakes_at at).0

      same_parked : eff.queue.parked ≡ s.queue.parked
      same_parked = ground (arith, counts.parked, at_raised, (signalling.wakes_at at).1)

      awake' : (j : ℕ) → j < bound → asleep_weight (moved j) ≡ 0
      awake' j lt = unfold asleep_weight in awake j lt

      apart : (j : ℕ) → j ≢ i → holds_lock (s.threads j).pc ≡ 0
      apart j ne = ground (arith, lock_small (s.threads j), no_lock j ne, at_raised)

      outside : (j : ℕ) → inside_weight (moved j) ≡ 0
      outside =
          update_elim (λ j t. inside_weight t ≡ 0) s.threads i eff.thread
            (ground (arith, inside_released eff.thread (signalling.wakes_at at).1))
            (λ j ne. omega (arith, inside-le-lock (s.threads j), apart j ne))
