-- ===== src/Pool/Dropping/Exits.antt =====
-- src/lib.rs and src/queue.rs: workers that have exited, and threads that have ended.
use affinitypool.Base.{ℕ, ◌≡◌, sym, some, true, false, arith, ℕ_discrete, ltb}
use affinitypool.Base.Family.{update, update_ne}
use affinitypool.Queue.{Queue}
use affinitypool.Queue.Threads.{Pc, Thread, exited, Effect, Env}
use affinitypool.Queue.Turns.{Action, act}
use affinitypool.Queue.System.{System, step, after}
use affinitypool.Queue.System.Wake.{IsWoken, wakes-IsWoken}
use affinitypool.Queue.System.Preserve.{step-turn}
use affinitypool.Pool.Dropping.{Pooled, has_exited, has_ended}
use mathlib.Core.Path.{subst}

module _ {Task : Type 0} where
  woken-exited : (t t' : Thread Task) → IsWoken t t' → t.pc ≡ exited → t'.pc ≡ exited
  woken-exited t t' w h = ground arith

  has_exited-exited : (p : Pc Task) → has_exited p ≡ true → p ≡ exited
  has_exited-exited p h = ground arith

  pub ended-exited :
      (w : ℕ) (d : Pooled Task)
      → has_ended (w, d.incarnation w) d ≡ true
      → (d.system.threads w).pc ≡ exited
  unfolding has_ended
  ended-exited w d h =
      has_exited-exited (d.system.threads w).pc (rw (itself (d.incarnation w)) at h)
    where
      itself : (k : ℕ) → ltb k k ≡ false
      itself k = ground arith

module _ {Task : Type 0} (env : Env Task) (bound : ℕ) where
  exited_stuck :
      (i : ℕ) (a : Action env.crossbeam) (q : Queue Task) (t : Thread Task) {e : Effect Task}
      → t.pc ≡ exited
      → act env t.pc a i q t ≡ some e
      → ⊥
  unfolding act
  exited_stuck i a q t at eq = cc (rw at at eq)

  -- A worker that has exited stays so.
  pub step-exited :
      (i w : ℕ) (a : Action env.crossbeam) (c : env.condvar.Choice) (s s' : System Task)
      → step env bound s i a c ≡ some s'
      → (s.threads w).pc ≡ exited
      → (s'.threads w).pc ≡ exited
  step-exited i w a c s s' eq at =
      let (lt, eff, turn, same) = step-turn env bound s s' i a c eq in
      elim (ℕ_discrete i w) [
        | yes here ↦ absurd (
            exited_stuck i a s.queue (s.threads i)
              (subst (λ k. (s.threads k).pc ≡ exited) (sym here) at) turn)
        | no apart ↦
            subst (λ (x : System Task). (x.threads w).pc ≡ exited) (sym same)
              (woken-exited (s.threads w) ((after env bound s i c eff).threads w)
                (subst (λ t. IsWoken t ((after env bound s i c eff).threads w))
                  (update_ne s.threads i w eff.thread apart)
                  (wakes-IsWoken env bound c eff.signal (update s.threads i eff.thread) w))
                at)
      ]
