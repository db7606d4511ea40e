-- ===== src/Queue/System/Alive.antt =====
-- src/queue.rs: who may hold the mutex, and who wakes the sleepers of a queue that is shut down.
use affinitypool.Base.{ℕ, ◌<◌, ◌≡◌, ◌≢◌, sym, ◌∙◌, ap, ◌⊎◌, inl, inr, some, true, arith, ℕ_discrete}
use affinitypool.Base.Family.{update, update_self, update_ne}
use affinitypool.Queue.Threads.{Pc, Thread, asleep, closing, broadcasting, wakes_all, Effect, Env}
use affinitypool.Queue.Turns.{Action, act}
use affinitypool.Queue.Turns.Classes.{holds_lock}
use affinitypool.Queue.Turns.Ensures.{Ensures-some}
use affinitypool.Queue.Turns.Waking.{Waking, act-Waking}
use affinitypool.Queue.System.{System, after, wake_sleepers, wakes}
use affinitypool.Queue.System.Wake.{IsWoken, woken-counts, wakes-IsWoken}
use mathlib.Core.Path.{subst}

module _ {Task : Type 0} where
  -- The thread is about to wake all sleepers.
  abbrev pub Broadcasts : Pc Task → Type 0
  Broadcasts p = (p ≡ closing) ⊎ (p ≡ broadcasting)

  pub record Alive (bound : ℕ) (s : System Task) : Type 0 where
    pub owner : (j : ℕ) → s.queue.park ≡ some j → (j < bound) × (holds_lock (s.threads j).pc ≡ 1)
    pub woken_up :
        s.queue.shutdown ≡ true
        → (v : ℕ) → (s.threads v).pc ≡ asleep
        → (k : ℕ) × (k < bound) × Broadcasts (s.threads k).pc

  woken-awake : (t t' : Thread Task) → IsWoken t t' → t'.pc ≡ asleep → t' ≡ t
  woken-awake t t' (inl same) h = same
  woken-awake t t' (inr (a, e)) h = absurd (cc (e, h))

  woken-Broadcasts : (t t' : Thread Task) → IsWoken t t' → Broadcasts t.pc → Broadcasts t'.pc
  woken-Broadcasts t t' w b = ground arith

  none_sleeps : (ts : ℕ → Thread Task) (j : ℕ) → (wake_sleepers ts j).pc ≢ asleep
  none_sleeps ts j h = ground arith

module _ {Task : Type 0} (env : Env Task) {bound : ℕ} {s : System Task} (alive : Alive bound s)
    (i : ℕ) (lt : i < bound) (a : Action env.crossbeam) {eff : Effect Task}
    (eq : act env (s.threads i).pc a i s.queue (s.threads i) ≡ some eff)
    (c : env.condvar.Choice) where
  waking : Waking i s.queue (s.threads i).pc eff
  waking = Ensures-some _ _ eq (act-Waking env i s.queue (s.threads i) (s.threads i).pc a)

  abbrev moved : ℕ → Thread Task
  moved = update s.threads i eff.thread

  abbrev last : System Task
  last = after env bound s i c eff

  moved-IsWoken : (j : ℕ) → IsWoken (moved j) (last.threads j)
  moved-IsWoken j = wakes-IsWoken env bound c eff.signal moved j

  last_owner :
      (j : ℕ) → eff.queue.park ≡ some j → (j < bound) × (holds_lock (last.threads j).pc ≡ 1)
  last_owner j h = elim (ℕ_discrete i j) [
    | yes same ↦ (omega arith, held (subst (λ k. holds_lock (moved k).pc ≡ 1) same (here same)))
    | no apart ↦ there apart (waking.owner j h)
  ]
    where
      held : holds_lock (moved j).pc ≡ 1 → holds_lock (last.threads j).pc ≡ 1
      held e = (woken-counts (moved j) (last.threads j) (moved-IsWoken j)).1 ∙ e

      here : i ≡ j → holds_lock (moved i).pc ≡ 1
      here same =
          ap (λ (t : Thread Task). holds_lock t.pc) (update_self s.threads i eff.thread)
          ∙ waking.owns (λ e. (alive.owner i e).1)
              (subst (λ k. eff.queue.park ≡ some k) (sym same) h)

      there :
          i ≢ j
          → (s.queue.park ≡ some j) ⊎ (j ≡ i)
          → (j < bound) × (holds_lock (last.threads j).pc ≡ 1)
      there apart (inl old) = (
        (alive.owner j old).0,
        held (
            ap (λ (t : Thread Task). holds_lock t.pc) (update_ne s.threads i j eff.thread apart)
            ∙ (alive.owner j old).1),
      )
      there apart (inr e) = absurd (apart (sym e))

  calm : (v : ℕ) → (last.threads v).pc ≡ asleep → eff.signal ≢ wakes_all
  calm v sleeping e =
      none_sleeps moved v (subst (λ sig. (wakes env bound sig c moved v).pc ≡ asleep) e sleeping)

  asleep_before : (v : ℕ) → (last.threads v).pc ≡ asleep → i ≢ v → (s.threads v).pc ≡ asleep
  asleep_before v sleeping apart =
      subst (λ t. t.pc ≡ asleep)
        (woken-awake (moved v) (last.threads v) (moved-IsWoken v) sleeping
          ∙ update_ne s.threads i v eff.thread apart)
        sleeping

  mover-Broadcasts :
      Broadcasts eff.thread.pc → (k : ℕ) × (k < bound) × Broadcasts (last.threads k).pc
  mover-Broadcasts b = (
    i,
    lt,
    woken-Broadcasts (moved i) (last.threads i) (moved-IsWoken i)
        (subst (λ t. Broadcasts t.pc) (sym (update_self s.threads i eff.thread)) b),
  )

  still-Broadcasts :
      eff.signal ≢ wakes_all
      → (k : ℕ) → k < bound
      → Broadcasts (s.threads k).pc
      → (k' : ℕ) × (k' < bound) × Broadcasts (last.threads k').pc
  still-Broadcasts quiet_turn k below b = elim (ℕ_discrete i k) [
    | yes same ↦ (elim (subst (λ j. Broadcasts (s.threads j).pc) (sym same) b) [
      | inl closes ↦ mover-Broadcasts (inr (waking.closes_on closes))
      | inr broadcasts ↦ absurd (quiet_turn (waking.broadcasts broadcasts))
    ])
    | no apart ↦ (
      k,
      below,
      woken-Broadcasts (moved k) (last.threads k) (moved-IsWoken k)
          (subst (λ t. Broadcasts t.pc) (sym (update_ne s.threads i k eff.thread apart)) b),
    )
  ]

  last_woken_up :
      eff.queue.shutdown ≡ true
      → (v : ℕ) → (last.threads v).pc ≡ asleep
      → (k : ℕ) × (k < bound) × Broadcasts (last.threads k).pc
  last_woken_up shut v sleeping = elim (ℕ_discrete i v) [
    | yes same ↦ absurd (cc (waking.sleeps_open (mover_asleep same), shut))
    | no apart ↦ by_shutdown apart (waking.shuts shut)
  ]
    where
      mover_asleep : i ≡ v → eff.thread.pc ≡ asleep
      mover_asleep same =
          subst (λ t. t.pc ≡ asleep)
            (woken-awake (moved i) (last.threads i) (moved-IsWoken i)
                (subst (λ k. (last.threads k).pc ≡ asleep) (sym same) sleeping)
              ∙ update_self s.threads i eff.thread)
            (subst (λ k. (last.threads k).pc ≡ asleep) (sym same) sleeping)

      by_shutdown :
          i ≢ v
          → (s.queue.shutdown ≡ true) ⊎ (eff.thread.pc ≡ closing)
          → (k : ℕ) × (k < bound) × Broadcasts (last.threads k).pc
      by_shutdown apart (inl before) =
          let (k, below, b) = alive.woken_up before v (asleep_before v sleeping apart) in
          still-Broadcasts (calm v sleeping) k below b
      by_shutdown apart (inr closes) = mover-Broadcasts (inl closes)

  pub after-Alive : Alive bound last
  after-Alive = record { owner = last_owner; woken_up = last_woken_up }
