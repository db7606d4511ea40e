-- ===== src/Queue/System/Closing.antt =====
-- src/queue.rs and src/lib.rs: the drop of a pool, from its `shutdown` on. The pool is not in use by
-- then: no foreign thread is in `push`, and none pushes from there on.
use affinitypool.Base.{
  ℕ, ◌≤◌, ◌<◌, ◌^◌, ◌≡◌, ◌≢◌, sym, ◌⊎◌, inl, inr, [], Option, none, some, false, arith, ℕ_discrete,
  dec_lt, List-cases,
}
use affinitypool.Base.Family.{update, update_self, update_ne}
use affinitypool.Queue.Threads.{Pc, Thread, running, pushed, Effect, Env}
use affinitypool.Queue.Turns.{Action, pushes, closes, act}
use affinitypool.Queue.Turns.Classes.{is_leaving, HasRole, Agent}
use affinitypool.Queue.Turns.Ensures.{Ensures-some}
use affinitypool.Queue.Turns.Leaving.{Leaves, IsTold, IsOutside, act-IsTold, act-IsOutside}
use affinitypool.Queue.System.{System, Reach, later, step, after}
use affinitypool.Queue.System.Invariant.{Inv, AllLeft, SeenTo}
use affinitypool.Queue.System.Wake.{IsWoken, wakes-IsWoken}
use affinitypool.Queue.System.Moved.{covering}
use affinitypool.Queue.System.Preserve.{turn-Inv}
use mathlib.Core.Path.{subst}

-- The states from the first `shutdown` on: it is called while every foreign thread is in its own code,
-- and afterwards only the workers push.
pub data Closed {Task : Type 0} (env : Env Task) (bound num_workers : ℕ) (shards : Option ℕ)
    : System Task → Type 0 where
  shuts :
      {s s' : System Task} (i : ℕ) (c : env.condvar.Choice)
      → Reach env bound num_workers shards s
      → ((j : ℕ) → num_workers ≤ j → (s.threads j).pc ≡ running)
      → s.queue.shutdown ≡ false
      → num_workers ≤ i
      → step env bound s i closes c ≡ some s'
      → Closed env bound num_workers shards s'
  goes :
      {s s' : System Task} (i : ℕ) (a : Action env.crossbeam) (c : env.condvar.Choice)
      → Closed env bound num_workers shards s
      → ((r : Task) → a ≡ pushes r → i < num_workers)
      → step env bound s i a c ≡ some s'
      → Closed env bound num_workers shards s'

pub Closed-Reach :
    {Task : Type 0} (env : Env Task) (bound num_workers : ℕ) (shards : Option ℕ) (s : System Task)
    → Closed env bound num_workers shards s
    → Reach env bound num_workers shards s
Closed-Reach env bound num_workers shards s' (shuts i c r callers open' foreign e) =
    later i closes c r e
Closed-Reach env bound num_workers shards s' (goes {s = s} i a c d silent e) =
    later i a c (Closed-Reach env bound num_workers shards s d) e

module _ {Task : Type 0} where
  woken-Leaves : (t t' : Thread Task) → IsWoken t t' → Leaves t'.pc → Leaves t.pc
  woken-Leaves t t' w l = ground arith

  woken-IsOutside : (t t' : Thread Task) → IsWoken t t' → IsOutside t.pc → IsOutside t'.pc
  woken-IsOutside t t' (inl same) h = subst (λ x. IsOutside x.pc) (sym same) h
  woken-IsOutside t t' (inr (a, e)) h = absurd (subst IsOutside a h)

  pub Leaves-is_leaving : (p : Pc Task) → Leaves p → is_leaving p ≡ 1
  Leaves-is_leaving p l = ground arith

  outside-foreign :
      (n i : ℕ) (t : Thread Task) (p : Pc Task)
      → n ≤ i
      → IsOutside p
      → HasRole n i t p
      → t.current_worker ≡ none
  outside-foreign n i t p le h role = ground arith

  pub outside-Agent :
      (n mask i sh : ℕ) (p : Pc Task) → n ≤ i → IsOutside p → Agent n mask i sh p → ⊥
  outside-Agent n mask i sh p le h agent = ground arith

  told-Agent : (n mask i sh : ℕ) (p : Pc Task) → IsTold p → Agent n mask i sh p → ⊥
  told-Agent n mask i sh p h agent = ground arith

  left-Agent : (n mask i sh : ℕ) (p : Pc Task) → Leaves p → Agent n mask i sh p → ⊥
  left-Agent n mask i sh p (inl e) agent = subst (Agent n mask i sh) e agent
  left-Agent n mask i sh p (inr e) agent = subst (Agent n mask i sh) e agent

-- A turn with which no foreign thread pushes.
module _ {Task : Type 0} (env : Env Task) {n bound e : ℕ} {s : System Task} (inv : Inv n bound e s)
    (outside : (j : ℕ) → n ≤ j → IsOutside (s.threads j).pc) (i : ℕ) (lt : i < bound)
    (a : Action env.crossbeam) (silent : (r : Task) → a ≡ pushes r → i < n) {eff : Effect Task}
    (eq : act env (s.threads i).pc a i s.queue (s.threads i) ≡ some eff)
    (c : env.condvar.Choice) where
  abbrev last : System Task
  last = after env bound s i c eff

  mover-IsWoken : IsWoken eff.thread (last.threads i)
  mover-IsWoken =
      subst (λ t. IsWoken t (last.threads i)) (update_self s.threads i eff.thread)
        (wakes-IsWoken env bound c eff.signal (update s.threads i eff.thread) i)

  other-IsWoken : (j : ℕ) → i ≢ j → IsWoken (s.threads j) (last.threads j)
  other-IsWoken j apart =
      subst (λ t. IsWoken t (last.threads j)) (update_ne s.threads i j eff.thread apart)
        (wakes-IsWoken env bound c eff.signal (update s.threads i eff.thread) j)

  mover-IsOutside : n ≤ i → IsOutside eff.thread.pc
  mover-IsOutside le =
      Ensures-some (λ x. IsOutside x.thread.pc) _ eq
        (act-IsOutside env i s.queue (s.threads i) (s.threads i).pc a
          (outside-foreign n i (s.threads i) (s.threads i).pc le (outside i le) (inv.role i))
          (λ r p. absurd (omega (arith, silent r p))) (outside i le))

  pub after-IsOutside : (j : ℕ) → n ≤ j → IsOutside (last.threads j).pc
  after-IsOutside j le = elim (ℕ_discrete i j) [
    | yes same ↦
        subst (λ k. IsOutside (last.threads k).pc) same
          (woken-IsOutside eff.thread (last.threads i) mover-IsWoken
            (mover-IsOutside (omega (arith, same))))
    | no apart ↦
        woken-IsOutside (s.threads j) (last.threads j) (other-IsWoken j apart) (outside j le)
  ]

  mover-Leaves : AllLeft n last.threads → i < n → Leaves eff.thread.pc
  mover-Leaves gone below = woken-Leaves eff.thread (last.threads i) mover-IsWoken (gone i below)

  -- A worker from which a shard is seen to does not leave in this turn, and none has left before.
  filled-stays :
      (sh j : ℕ) → Agent n s.queue.mask j sh (s.threads j).pc → AllLeft n last.threads → ⊥
  filled-stays sh j agent gone = elim (dec_lt j n) [
    | no ge ↦
        outside-Agent n s.queue.mask j sh (s.threads j).pc (omega arith) (outside j (omega arith))
          agent
    | yes below ↦ (elim (ℕ_discrete i j) [
      | yes same ↦
          told-Agent n s.queue.mask i sh (s.threads i).pc
            (Ensures-some (λ x. Leaves x.thread.pc → IsTold (s.threads i).pc) _ eq
              (act-IsTold env i s.queue (s.threads i) (s.threads i).pc a)
              (mover-Leaves gone (omega (arith, same))))
            (subst (λ k. Agent n s.queue.mask k sh (s.threads k).pc) (sym same) agent)
      | no apart ↦
          left-Agent n s.queue.mask j sh (s.threads j).pc
            (woken-Leaves (s.threads j) (last.threads j) (other-IsWoken j apart) (gone j below))
            agent
    ])
  ]

  vacant-stays : eff.thread.pc ≡ pushed → AllLeft n last.threads → ⊥
  vacant-stays p gone = elim (dec_lt i n) [
    | no ge ↦ subst IsOutside p (mover-IsOutside (omega arith))
    | yes below ↦ ground (arith, mover-Leaves gone below)
  ]

  pub after-Agent :
      ((sh : ℕ)
        → sh < 2 ^ e
        → s.queue.injectors sh ≢ []
        → (j : ℕ) × Agent n s.queue.mask j sh (s.threads j).pc)
      → (sh : ℕ) → sh < 2 ^ e
      → eff.queue.injectors sh ≢ []
      → (j : ℕ) × Agent n eff.queue.mask j sh (last.threads j).pc
  after-Agent seen sh hs filled = from ((turn-Inv env inv i lt a eq c).seen sh hs filled)
    where
      someone :
          (s.queue.injectors sh ≡ []) ⊎ (s.queue.injectors sh ≢ []) → AllLeft n last.threads → ⊥
      someone (inr old) gone = let (j, agent) = seen sh hs old in filled-stays sh j agent gone
      someone (inl vacant) gone = elim ((covering env inv i lt a eq sh hs).fresh vacant) [
        | inl still ↦ filled still
        | inr p ↦ vacant-stays p gone
      ]

      from :
          SeenTo n eff.queue.mask sh last.threads
          → (j : ℕ) × Agent n eff.queue.mask j sh (last.threads j).pc
      from (inl agent) = agent
      from (inr gone) = absurd (someone (List-cases (s.queue.injectors sh)) gone)
