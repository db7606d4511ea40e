-- ===== src/Queue/Turns/Ensures.antt =====
-- src/queue.rs: what holds of every effect that a turn may have.
use affinitypool.Base.{ℕ, ◌≡◌, refl, inl, inr, Option, none, some, Option-cases, true, false}
use affinitypool.Queue.{Queue}
use affinitypool.Queue.Scan.{own}
use affinitypool.Queue.Threads.{first, Pc, starting, scanning, closing, Thread, quiet, Effect, Env}
use affinitypool.Queue.Turns.{
  Action, go, pushes, finishes, closes, panics, lock, run_turn, foreign_push, self_push, push_from,
  finish_from, panic_from,
}
use mathlib.Core.Path.{subst}

module _ {Task : Type 0} where
  -- What holds of the effect of a turn, if the thread has one.
  abbrev pub Ensures : (Effect Task → Type 0) → Option (Effect Task) → Type 0
  Ensures P none = Unit
  Ensures P (some e) = P e

  pub Ensures-some :
      (P : Effect Task → Type 0) (o : Option (Effect Task)) {e : Effect Task}
      → o ≡ some e
      → Ensures P o
      → P e
  Ensures-some P o {e} eq h = subst (Ensures P) eq h

  -- The mutex is taken only when it is free.
  pub lock-Ensures :
      (P : Effect Task → Type 0) (i : ℕ) (q : Queue Task) (t : Thread Task) (p : Pc Task)
      → (q.park ≡ none
          → P (record {
            queue = record q { park = some i };
            thread = record t { pc = p };
            signal = quiet;
          }))
      → Ensures P (lock i q t p)
  lock-Ensures P i q t p h = elim (Option-cases q.park) [
    | inl free ↦ rw (free, lock) (h free)
    | inr (holder, held) ↦ rw (held, lock) tt
  ]

  -- What running code may do: push from a foreign thread or from a worker, return, drop the pool, or
  -- panic.
  pub run-Ensures :
      (P : Effect Task → Type 0) (env : Env Task) (a : Action env.crossbeam) (i : ℕ)
      (q : Queue Task) (t : Thread Task)
      → ((r : Task) → t.current_worker ≡ none → P (foreign_push (env.hash_thread_id i) r q t))
      → ((r : Task) (idx : ℕ) → t.current_worker ≡ some idx → P (self_push r idx q t))
      → ((idx : ℕ)
          → t.current_worker ≡ some idx
          → P (record {
            queue = q;
            thread = record t { pc = scanning first own false };
            signal = quiet;
          }))
      → (P (record {
        queue = record q { shutdown = true };
        thread = record t { pc = closing };
        signal = quiet;
      }))
      → ((idx : ℕ)
          → t.current_worker ≡ some idx
          → P (record {
            queue = q;
            thread = record t { pc = starting; current_worker = none; route = none };
            signal = quiet;
          }))
      → Ensures P (run_turn env a i q t)
  run-Ensures P env (go c) i q t foreign self back close crash = tt
  run-Ensures P env (pushes r) i q t foreign self back close crash = at t.current_worker refl
    where
      at : (w : Option ℕ) → t.current_worker ≡ w → P (push_from w (env.hash_thread_id i) r q t)
      at none e = foreign r e
      at (some idx) e = self r idx e
  run-Ensures P env finishes i q t foreign self back close crash = at t.current_worker refl
    where
      at : (w : Option ℕ) → t.current_worker ≡ w → Ensures P (finish_from w q t)
      at none e = tt
      at (some idx) e = back idx e
  run-Ensures P env closes i q t foreign self back close crash = close
  run-Ensures P env panics i q t foreign self back close crash = at t.current_worker refl
    where
      at : (w : Option ℕ) → t.current_worker ≡ w → Ensures P (panic_from w q t)
      at none e = tt
      at (some idx) e = crash idx e
