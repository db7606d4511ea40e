-- ===== src/Tests/World.antt =====
-- A queue over FIFO lists and a condition variable that wakes the first sleeper, to run the threads of
-- src/queue.rs on.
use affinitypool.Base.{
  ℕ, zero, suc, ◌<◌, ◌≡◌, ◌≢◌, refl, ap, sym, ◌∙◌, List, [], ◌∷◌, ◌++◌, Option, none, some, Bool,
  true, false, if◌then◌else◌, arith, Bool-cases, inl, inr,
}
use affinitypool.Base.Family.{SameTasks, update, update_ne}
use affinitypool.Queue.Scan.{Crossbeam, Attempt, success, empty, retry}
use affinitypool.Queue.Threads.{Condvar, Env, Thread, running}
use affinitypool.Queue.Turns.{Action, go, pushes}
use affinitypool.Queue.System.Closing.{Closed, goes}
use affinitypool.Queue.System.Wake.{IsWoken, wakes-IsWoken}
use affinitypool.Queue.System.Preserve.{step-turn}
use mathlib.Core.Path.{subst}
use affinitypool.Queue.System.{System, step, Reach, later}

abbrev steal_first : List ℕ → Attempt ℕ
steal_first [] = record { result = empty; left = []; moved = [] }
steal_first (r ∷ rest) = record { result = success r; left = rest; moved = [] }

pub steal_first-keeps :
    (q : List ℕ) (r : ℕ)
    → (steal_first q).result ≡ success r
    → SameTasks q (r ∷ (steal_first q).moved ++ (steal_first q).left)
steal_first-keeps [] r e = absurd (cc e)
steal_first-keeps (x ∷ rest) r e = λ w. let same : x ≡ r = cc e in omega (arith, ap w same)

pub steal_first-empty :
    (q : List ℕ)
    → (steal_first q).result ≡ empty
    → (q ≡ []) × ((steal_first q).left ≡ []) × ((steal_first q).moved ≡ [])
steal_first-empty [] e = (refl, refl, refl)
steal_first-empty (x ∷ rest) e = absurd (cc e)

pub steal_first-retry : (q : List ℕ) → (steal_first q).result ≢ retry
steal_first-retry [] e = cc e
steal_first-retry (x ∷ rest) e = cc e

abbrev pub fifo : Crossbeam ℕ
fifo = record {
  Choice = Unit;
  steal_batch_and_pop = λ _. steal_first;
  success_keeps = λ _. steal_first-keeps;
  empty_only = λ _. steal_first-empty;
  retry_keeps = λ _ q e. absurd (steal_first-retry q e);
}

abbrev first_sleeper : ℕ → (ℕ → Bool) → Option ℕ
first_sleeper zero sleeps = none
first_sleeper (suc n) sleeps = if sleeps n then some n else first_sleeper n sleeps

pub first_sleeper-sleeps :
    (bound : ℕ) (sleeps : ℕ → Bool) (v : ℕ)
    → first_sleeper bound sleeps ≡ some v
    → (v < bound) × (sleeps v ≡ true)
first_sleeper-sleeps zero sleeps v e = absurd (cc e)
first_sleeper-sleeps (suc n) sleeps v e = elim (Bool-cases (sleeps n)) [
  | inl here ↦ ground arith
  | inr there ↦ let (lt, s) = first_sleeper-sleeps n sleeps v (rw there at e) in (omega arith, s)
]

pub first_sleeper-none :
    (bound : ℕ) (sleeps : ℕ → Bool) (v : ℕ)
    → first_sleeper bound sleeps ≡ none
    → v < bound
    → sleeps v ≡ false
first_sleeper-none zero sleeps v e lt = absurd (omega arith)
first_sleeper-none (suc n) sleeps v e lt = ground (arith, first_sleeper-none n sleeps v)

abbrev pub some_sleeper : Condvar
some_sleeper = record {
  Choice = Unit;
  notify_one = λ _. first_sleeper;
  wakes_sleeper = λ _. first_sleeper-sleeps;
  wakes_none = λ _. first_sleeper-none;
}

abbrev pub env : Env ℕ
env = record { crossbeam = fifo; condvar = some_sleeper; hash_thread_id = λ i. i }

-- The state after a turn; a thread that has to wait is passed over.
abbrev pub or_stay : System ℕ → Option (System ℕ) → System ℕ
or_stay s none = s
or_stay s (some s') = s'

abbrev pub turn : ℕ → System ℕ → ℕ → Action fifo → System ℕ
turn bound s i a = or_stay s (step env bound s i a tt)

abbrev pub has_turn : Option (System ℕ) → Bool
has_turn none = false
has_turn (some s') = true

pub turn-step :
    (bound : ℕ) (s : System ℕ) (i : ℕ) (a : Action fifo)
    → has_turn (step env bound s i a tt) ≡ true
    → step env bound s i a tt ≡ some (turn bound s i a)
turn-step bound s i a = from (step env bound s i a tt)
  where
    from : (o : Option (System ℕ)) → has_turn o ≡ true → o ≡ some (or_stay s o)
    from none e = absurd (cc e)
    from (some s') e = refl

-- What a step keeps is kept by a turn.
pub turn-keeps :
    (P : System ℕ → Type 0) (bound : ℕ) (s : System ℕ) (i : ℕ) (a : Action fifo)
    → P s
    → ((s' : System ℕ) → step env bound s i a tt ≡ some s' → P s')
    → P (turn bound s i a)
turn-keeps P bound s i a here there = from (step env bound s i a tt) there
  where
    from : (o : Option (System ℕ)) → ((s' : System ℕ) → o ≡ some s' → P s') → P (or_stay s o)
    from none h = here
    from (some s') h = h s' refl

pub turn-Reach :
    (bound n : ℕ) (s : System ℕ) (i : ℕ) (a : Action fifo)
    → Reach env bound n none s
    → Reach env bound n none (turn bound s i a)
turn-Reach bound n s i a r =
    turn-keeps (Reach env bound n none) bound s i a r (λ s' e. later i a tt r e)

pub turn-Closed :
    (bound n : ℕ) (s : System ℕ) (i : ℕ) (a : Action fifo)
    → ((r : ℕ) → a ≡ pushes r → i < n)
    → Closed env bound n none s
    → Closed env bound n none (turn bound s i a)
turn-Closed bound n s i a silent d =
    turn-keeps (Closed env bound n none) bound s i a d (λ s' e. goes i a tt d silent e)

-- `count` turns of thread `i`.
abbrev pub turns : ℕ → ℕ → ℕ → System ℕ → System ℕ
turns bound zero i s = s
turns bound (suc count) i s = turns bound count i (turn bound s i (go tt))

pub turns-Reach :
    (bound n count i : ℕ) (s : System ℕ)
    → Reach env bound n none s
    → Reach env bound n none (turns bound count i s)
turns-Reach bound n zero i s r = r
turns-Reach bound n (suc count) i s r =
    turns-Reach bound n count i (turn bound s i (go tt)) (turn-Reach bound n s i (go tt) r)

pub turns-Closed :
    (bound n count i : ℕ) (s : System ℕ)
    → Closed env bound n none s
    → Closed env bound n none (turns bound count i s)
turns-Closed bound n zero i s d = d
turns-Closed bound n (suc count) i s d =
    turns-Closed bound n count i (turn bound s i (go tt))
      (turn-Closed bound n s i (go tt) (λ r e. absurd (cc e)) d)

woken-running : (t t' : Thread ℕ) → IsWoken t t' → t.pc ≡ running → t'.pc ≡ running
woken-running t t' w h = ground arith

-- A turn leaves another thread in its own code.
pub turn-running :
    (bound : ℕ) (s : System ℕ) (i j : ℕ) (a : Action fifo)
    → i ≢ j
    → (s.threads j).pc ≡ running
    → ((turn bound s i a).threads j).pc ≡ running
turn-running bound s i j a ne h =
    turn-keeps (λ x. (x.threads j).pc ≡ running) bound s i a h
      (λ s' e.
        let (lt, eff, acts, same) = step-turn env bound s s' i a tt e in
        subst (λ x. (x.threads j).pc ≡ running) (sym same)
          (woken-running _ _
            (wakes-IsWoken env bound tt eff.signal (update s.threads i eff.thread) j)
            (ap (λ (t : Thread ℕ). t.pc) (update_ne s.threads i j eff.thread ne) ∙ h)))

pub turns-running :
    (bound count i j : ℕ) (s : System ℕ)
    → i ≢ j
    → (s.threads j).pc ≡ running
    → ((turns bound count i s).threads j).pc ≡ running
turns-running bound zero i j s ne h = h
turns-running bound (suc count) i j s ne h =
    turns-running bound count i j (turn bound s i (go tt)) ne
      (turn-running bound s i j (go tt) ne h)
