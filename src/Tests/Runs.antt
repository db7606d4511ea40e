-- ===== src/Tests/Runs.antt =====
-- Turns over the queue of FIFO lists, as the runs that the theorems are about.
use affinitypool.Base.{
  ℕ, zero, suc, ◌≤◌, ◌≡◌, refl, [], ◌∷◌, Option, none, some, ltb, false, arith, inl, inr, ◌⊎◌,
}
use affinitypool.Queue.Threads.{asleep, exited, running}
use affinitypool.Queue.Turns.{Action, go, pushes, finishes, panics, closes, act}
use affinitypool.Queue.Scan.Nearer.{Uncontended}
use affinitypool.Queue.Order.{Ordered, Served, serves}
use affinitypool.Queue.Drain.{Tame, Run, runs}
use affinitypool.Queue.System.{System, step}
use affinitypool.Tests.World.{fifo, env, steal_first-retry, turn, turns, turn-keeps}

pub calm : Uncontended fifo tt
calm q = steal_first-retry q

-- Turns as a run.
pub turn-Run :
    (bound : ℕ) (s s' : System ℕ) (i : ℕ) (a : Action fifo)
    → Tame fifo a
    → ((k : ℕ) × Run env bound s k s')
    → (k : ℕ) × Run env bound s k (turn bound s' i a)
turn-Run bound s s' i a tame (k, run) =
    turn-keeps (λ x. (m : ℕ) × Run env bound s m x) bound s' i a (k, run)
      (λ s'' e. (suc k, runs i a tt run tame e))

pub turns-Run :
    (bound count i : ℕ) (s s' : System ℕ)
    → ((k : ℕ) × Run env bound s k s')
    → (k : ℕ) × Run env bound s k (turns bound count i s')
turns-Run bound zero i s s' run = run
turns-Run bound (suc count) i s s' run =
    turns-Run bound count i s (turn bound s' i (go tt)) (turn-Run bound s s' i (go tt) calm run)

has_none : (o : Option (System ℕ)) (s' : System ℕ) → o ≡ none → o ≡ some s' → ⊥
has_none o s' a b = cc (a, b)

-- The worker sleeps or has exited, and the caller is in its own code: no thread has a tame turn.
pub no_turn :
    (s : System ℕ)
    → ((s.threads 0).pc ≡ asleep) ⊎ ((s.threads 0).pc ≡ exited)
    → (s.threads 1).pc ≡ running
    → (s.threads 1).current_worker ≡ none
    → (i : ℕ) (a : Action fifo) (s' : System ℕ) → Tame fifo a
    → step env 2 s i a tt ≡ some s'
    → ⊥
unfolding step act
no_turn s (inl sleeps) caller foreign zero a s' tame e = has_none _ s' (rw sleeps refl) e
no_turn s (inr exits) caller foreign zero a s' tame e = has_none _ s' (rw exits refl) e
no_turn s worker caller foreign (suc zero) (go c) s' tame e = has_none _ s' (rw caller refl) e
no_turn s worker caller foreign (suc zero) finishes s' tame e =
    has_none _ s' (rw (caller, foreign) refl) e
no_turn s worker caller foreign (suc zero) panics s' tame e =
    has_none _ s' (rw (caller, foreign) refl) e
no_turn s worker caller foreign (suc zero) (pushes r) s' tame e = absurd tame
no_turn s worker caller foreign (suc zero) closes s' tame e = absurd tame
no_turn s worker caller foreign (suc (suc i)) a s' tame e =
    let outside : ltb (suc (suc i)) 2 ≡ false = ground arith in has_none _ s' (rw outside refl) e

pub turn-Served :
    (bound : ℕ) (s : System ℕ) (i : ℕ) (a : Action fifo)
    → ((r : ℕ) → a ≡ pushes r → 1 ≤ i)
    → Served env bound none s
    → Served env bound none (turn bound s i a)
turn-Served bound s i a silent d =
    turn-keeps (Served env bound none) bound s i a d (λ s' e. serves i a tt d silent e)

pub turns-Served :
    (bound count i : ℕ) (s : System ℕ)
    → Served env bound none s
    → Served env bound none (turns bound count i s)
turns-Served bound zero i s d = d
turns-Served bound (suc count) i s d =
    turns-Served bound count i (turn bound s i (go tt))
      (turn-Served bound s i (go tt) (λ r e. absurd (cc e)) d)

pub fifo-Ordered : Ordered fifo
fifo-Ordered c [] r e = absurd (cc e)
fifo-Ordered c (x ∷ rest) r e = cc e
