-- ===== src/Queue/System/Preserve.antt =====
-- src/queue.rs: the invariant over a whole turn, with the threads that it wakes.
use affinitypool.Base.{
  List-cases, ℕ, ◌≤◌, ◌<◌, ◌^◌, ◌≡◌, ◌≢◌, refl, sym, ◌∙◌, ◌⊎◌, inl, inr, [], Option, none, some,
  arith, ℕ_discrete, Bool-cases, ltb,
}
use affinitypool.Base.Family.{update_elim, update_self, update_ne, total}
use affinitypool.Queue.{◌>>=◌}
use affinitypool.Queue.Threads.{Pc, exited, unlock, quit, pushed, raised, Effect, Env}
use affinitypool.Queue.Turns.{Action, act}
use affinitypool.Queue.Turns.Classes.{HasRole, Agent}
use affinitypool.Queue.Turns.Coverage.{Handover}
use affinitypool.Queue.System.{System, step, after}
use affinitypool.Queue.System.Invariant.{parked_weight, signal_weight, AllLeft, SeenTo, Inv}
use affinitypool.Queue.System.Wake.{
  IsWoken, woken-counts, woken-Role, woken-Drained, woken-SeenTo, woken-rng, woken-parked,
  wakes-IsWoken, wakes-notified,
}
use affinitypool.Queue.System.Handover.{signalled-SeenTo, unparked-SeenTo, resolve}
use mathlib.Core.Path.{subst}
use affinitypool.Queue.System.Moved.{
  guarded, signalling, covering, moved_parked, moved_notified, moved_role, moved_held, moved_leaves,
  moved-Drained, moved_rng, moved_claimed, moved_no_sleeper, moved,
}

module _ {Task : Type 0} (env : Env Task) {n bound e : ℕ} {s : System Task} (inv : Inv n bound e s)
    (i : ℕ) (lt : i < bound) (a : Action env.crossbeam) {eff : Effect Task}
    (eq : act env (s.threads i).pc a i s.queue (s.threads i) ≡ some eff) where
  open env use {condvar}

  abbrev before : Pc Task
  before = (s.threads i).pc

  module _ (c : condvar.Choice) where
    abbrev last : System Task
    last = after env bound s i c eff

    last-IsWoken : (j : ℕ) → IsWoken ((moved env inv i lt a eq) j) (last.threads j)
    last-IsWoken j = wakes-IsWoken env bound c eff.signal (moved env inv i lt a eq) j

    last_parked : eff.queue.parked ≡ total parked_weight bound last.threads
    last_parked = omega (
      arith,
      (moved_parked env inv i lt a eq),
      woken-parked bound (moved env inv i lt a eq) last.threads last-IsWoken,
    )

    last_notified : eff.queue.notified ≤ total signal_weight bound last.threads
    last_notified =
        wakes-notified env bound c eff.signal (moved env inv i lt a eq) eff.queue.notified
          (moved_notified env inv i lt a eq) (moved_no_sleeper env inv i lt a eq)

    last_role : (j : ℕ) → HasRole n j (last.threads j) (last.threads j).pc
    last_role j =
        woken-Role n j ((moved env inv i lt a eq) j) (last.threads j) (last-IsWoken j)
          ((moved_role env inv i lt a eq) j)

    by_signal : (sh : ℕ) → 0 < eff.queue.notified → SeenTo n s.queue.mask sh last.threads
    by_signal sh pos =
        signalled-SeenTo n s.queue.mask sh bound last.threads (omega (arith, last_notified))

    by_rest : (sh : ℕ) → eff.queue.parked ≡ 0 → SeenTo n s.queue.mask sh last.threads
    by_rest sh none_parked =
        unparked-SeenTo n s.queue.mask sh bound last.threads inv.workers last_role
          (omega (arith, last_parked))

    moved-SeenTo :
        (sh : ℕ)
        → SeenTo n s.queue.mask sh (moved env inv i lt a eq)
        → SeenTo n s.queue.mask sh last.threads
    moved-SeenTo sh =
        woken-SeenTo n s.queue.mask sh (moved env inv i lt a eq) last.threads last-IsWoken

    mover-SeenTo :
        (sh : ℕ)
        → Agent n s.queue.mask i sh eff.thread.pc
        → SeenTo n s.queue.mask sh (moved env inv i lt a eq)
    mover-SeenTo sh agent = inl (
      i,
      subst (λ t. Agent n s.queue.mask i sh t.pc) (sym (update_self s.threads i eff.thread)) agent,
    )

    -- Another thread goes on seeing to the shard.
    other-SeenTo :
        (sh j : ℕ)
        → j ≢ i
        → Agent n s.queue.mask j sh (s.threads j).pc
        → SeenTo n s.queue.mask sh (moved env inv i lt a eq)
    other-SeenTo sh j ne agent = inl (
      j,
      subst (λ t. Agent n s.queue.mask j sh t.pc)
          (sym (update_ne s.threads i j eff.thread (λ same. ne (sym same)))) agent,
    )

    left-SeenTo :
        (sh : ℕ) → AllLeft n s.threads → SeenTo n s.queue.mask sh (moved env inv i lt a eq)
    left-SeenTo sh gone = inr (
        update_elim (λ j t. j < n → (t.pc ≡ exited) ⊎ (t.pc ≡ unlock quit)) s.threads i eff.thread
          (λ lt'. inl ((signalling env inv i lt a eq).left (gone i lt'))) (λ j ne. gone j))

    kept-SeenTo :
        (sh : ℕ)
        → sh < 2 ^ e
        → s.queue.injectors sh ≢ []
        → SeenTo n s.queue.mask sh s.threads
        → SeenTo n s.queue.mask sh last.threads
    kept-SeenTo sh hs filled (inr gone) = moved-SeenTo sh (left-SeenTo sh gone)
    kept-SeenTo sh hs filled (inl (j, agent)) = elim (ℕ_discrete i j) [
      | yes same ↦
          by_turn (((covering env inv i lt a eq) sh hs).keeps filled (subst at (sym same) agent))
      | no apart ↦ moved-SeenTo sh (other-SeenTo sh j (λ e'. apart (sym e')) agent)
    ]
      where
        at : ℕ → Type 0
        at k = Agent n s.queue.mask k sh (s.threads k).pc

        by_turn :
            Agent n s.queue.mask i sh eff.thread.pc ⊎ Handover eff.queue before
            → SeenTo n s.queue.mask sh last.threads
        by_turn (inl still) = moved-SeenTo sh (mover-SeenTo sh still)
        by_turn (inr h) =
            resolve eff.queue before h
              (λ r. omega (arith, (signalling env inv i lt a eq).raised_keeps r, inv.claimed i r))
              (by_signal sh) (by_rest sh)

    -- A shard that the turn fills is seen to by the thread that pushed.
    pushed-SeenTo :
        (sh : ℕ)
        → sh < 2 ^ e
        → eff.queue.injectors sh ≢ []
        → (s.queue.injectors sh ≡ []) ⊎ (s.queue.injectors sh ≢ [])
        → SeenTo n s.queue.mask sh last.threads
    pushed-SeenTo sh hs filled (inr old) = kept-SeenTo sh hs old (inv.seen sh hs old)
    pushed-SeenTo sh hs filled (inl vacant) =
        by_push (((covering env inv i lt a eq) sh hs).fresh vacant)
      where
        by_push :
            (eff.queue.injectors sh ≡ []) ⊎ (eff.thread.pc ≡ pushed)
            → SeenTo n s.queue.mask sh last.threads
        by_push (inl still) = absurd (filled still)
        by_push (inr p) =
            moved-SeenTo sh (mover-SeenTo sh (subst (Agent n s.queue.mask i sh) (sym p) tt))

    pub turn-Inv : Inv n bound e last
    turn-Inv = record {
      sharded = record {
        mask_ones = (guarded env inv i lt a eq).mask ∙ inv.sharded.mask_ones;
        few = inv.sharded.few;
      };
      num_workers = (guarded env inv i lt a eq).num_workers ∙ inv.num_workers;
      num_injectors = (guarded env inv i lt a eq).num_injectors ∙ inv.num_injectors;
      workers = inv.workers;
      countable = inv.countable;
      parked = last_parked;
      notified = last_notified;
      held = λ j h. (moved_held env inv i lt a eq) j (
          sym (woken-counts ((moved env inv i lt a eq) j) (last.threads j) (last-IsWoken j)).1 ∙ h);
      claimed = λ j h. (moved_claimed env inv i lt a eq) j (still_raised j h);
      leaves = λ j h. (moved_leaves env inv i lt a eq) j (
          sym (woken-counts ((moved env inv i lt a eq) j) (last.threads j) (last-IsWoken j)).2 ∙ h);
      role = last_role;
      drained = λ j.
          woken-Drained _ ((moved env inv i lt a eq) j) (last.threads j) (last-IsWoken j)
            ((moved-Drained env inv i lt a eq) j);
      rng = λ j.
          woken-rng ((moved env inv i lt a eq) j) (last.threads j) (last-IsWoken j)
            ((moved_rng env inv i lt a eq) j);
      seen = λ sh hs filled.
          subst (λ m. SeenTo n m sh last.threads) (sym (guarded env inv i lt a eq).mask)
            (pushed-SeenTo sh hs filled (List-cases (s.queue.injectors sh)));
    }
      where
        still_raised :
            (j : ℕ) → (last.threads j).pc ≡ raised → ((moved env inv i lt a eq) j).pc ≡ raised
        still_raised j h = ground (
          arith,
          (woken-counts ((moved env inv i lt a eq) j) (last.threads j) (last-IsWoken j)).4,
        )

-- A turn that is possible is some effect, with the wake-ups that it asks for.
effect_of :
    {Task : Type 0} (env : Env Task) (bound : ℕ) (s s' : System Task) (i : ℕ)
    (c : env.condvar.Choice) (o : Option (Effect Task))
    → (o >>= λ e. some (after env bound s i c e)) ≡ some s'
    → (eff : Effect Task) × (o ≡ some eff) × (s' ≡ after env bound s i c eff)
effect_of env bound s s' i c none eq = absurd (cc eq)
effect_of env bound s s' i c (some eff) eq = (eff, refl, cc eq)

-- A step is a turn of a thread, with the wake-ups that it asks for.
pub step-turn :
    {Task : Type 0} (env : Env Task) (bound : ℕ) (s s' : System Task) (i : ℕ)
    (a : Action env.crossbeam) (c : env.condvar.Choice)
    → step env bound s i a c ≡ some s'
    → (i < bound)
      × (eff : Effect Task) × (act env (s.threads i).pc a i s.queue (s.threads i) ≡ some eff)
      × (s' ≡ after env bound s i c eff)
unfolding step
step-turn env bound s s' i a c eq = elim (Bool-cases (ltb i bound)) [
  | inl below ↦
      let (eff, e, same) = effect_of env bound s s' i c _ (rw below at eq) in
      (ground arith, eff, e, same)
  | inr above ↦ absurd (cc (rw above at eq))
]

-- Every step of every thread keeps the invariant.
pub step-Inv :
    {Task : Type 0} (env : Env Task) {n bound e : ℕ} {s s' : System Task} (i : ℕ)
    (a : Action env.crossbeam) (c : env.condvar.Choice)
    → Inv n bound e s
    → step env bound s i a c ≡ some s'
    → Inv n bound e s'
step-Inv env {n} {bound} {e} {s} {s'} i a c inv eq =
    let (lt, eff, turn, same) = step-turn env bound s s' i a c eq in
    subst (Inv n bound e) (sym same) (turn-Inv env inv i lt a turn c)
