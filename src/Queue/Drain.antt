-- ===== src/Queue/Drain.antt =====
-- src/queue.rs and src/lib.rs: how the threads come to rest when nothing is pushed any more.
--
-- The energy of a thread pays for its turns.
pub mod Turns
pub mod Steps
pub mod Runs
pub mod Rest
pub mod Ends
use affinitypool.Base.{ℕ, suc, ◌+◌, ◌*◌, ◌≤◌, ◌≡◌, List, [], Option, some}
use affinitypool.Base.Family.{weight, total}
use affinitypool.Queue.{Queue}
use affinitypool.Queue.Scan.{Crossbeam}
use affinitypool.Queue.Scan.Nearer.{Uncontended}
use affinitypool.Queue.Threads.{
  Pc, asleep, exited, running, pushed, peeked, notifying, checking, raised, released, closing,
  broadcasting, Thread, Signal, wakes_one, wakes_all, Effect, Env,
}
use affinitypool.Queue.Turns.{Action, go, pushes, finishes, closes, panics}
use affinitypool.Queue.Turns.Balance.{sent_by, delivered_by}
use affinitypool.Queue.Channel.{pending}
use affinitypool.Queue.System.{System, step}
use affinitypool.Queue.Alone.{scans, turns_left}

-- The energy of a thread in a runnable, or outside of the queue.
abbrev pub busy : (mask n : ℕ) → ℕ
busy mask n = scans (8 + mask + n) 8 + (36 + mask + n)

-- What a sleeper is given by the one that wakes it.
unfoldable pub bell : (mask n : ℕ) → ℕ
bell mask n = scans (8 + mask + n) 8 + (34 + mask + n)

-- The same for all of `bound` threads.
unfoldable pub alarm : (mask n bound : ℕ) → ℕ
alarm mask n bound = bound * bell mask n

abbrev pub energy : {Task : Type 0} → (mask n bound : ℕ) → Pc Task → ℕ
energy mask n bound exited = 0
energy mask n bound asleep = 0
energy mask n bound running = busy mask n
energy mask n bound pushed = 6 + busy mask n + bell mask n
energy mask n bound (peeked parked) = 5 + busy mask n + bell mask n
energy mask n bound notifying = 4 + busy mask n + bell mask n
energy mask n bound checking = 3 + busy mask n + bell mask n
energy mask n bound raised = 2 + busy mask n + bell mask n
energy mask n bound released = 1 + busy mask n
energy mask n bound closing = 3 + busy mask n + alarm mask n bound
energy mask n bound broadcasting = 2 + busy mask n + alarm mask n bound
energy mask n bound p = turns_left mask n p

-- What goes to the sleepers.
abbrev pub calls : {Task : Type 0} → (mask n bound : ℕ) → Signal Task → ℕ
calls mask n bound wakes_one = bell mask n
calls mask n bound wakes_all = alarm mask n bound
calls mask n bound _ = 0

-- Turns that push nothing and call no `shutdown`, and whose attempts to steal meet no other thread.
abbrev pub Tame : {Task : Type 0} (cb : Crossbeam Task) → Action cb → Type 0
Tame cb (go c) = Uncontended cb c
Tame cb (pushes r) = ⊥
Tame cb finishes = Unit
Tame cb closes = ⊥
Tame cb panics = Unit

-- The turn takes from the energy of its thread, to which a runnable that is delivered gives some, and
-- the sleepers that it wakes get theirs from it.
pub record Spends {Task : Type 0} (mask n bound : ℕ) (q : Queue Task) (p : Pc Task)
    (e : Effect Task) : Type 0 where
  pub less :
      suc (energy mask n bound e.thread.pc) + calls mask n bound e.signal
      ≤ energy mask n bound p + weight (λ (r : Task). busy mask n) (delivered_by e.signal)
  pub unsent : sent_by e.signal ≡ []
  pub same_shutdown : e.queue.shutdown ≡ q.shutdown

-- All energy: that of the threads, and what the pending runnables will give.
unfoldable pub potential : {Task : Type 0} → (mask n bound : ℕ) → System Task → ℕ
potential {Task} mask n bound s =
    weight (λ (r : Task). busy mask n) (pending bound s)
    + total (λ (t : Thread Task). energy mask n bound t.pc) bound s.threads

-- A number of steps, in any order, with tame turns.
pub data Run {Task : Type 0} (env : Env Task) (bound : ℕ) (s : System Task)
    : ℕ → System Task → Type 0 where
  stay : Run env bound s 0 s
  runs :
      {k : ℕ} {s' s'' : System Task} (i : ℕ) (a : Action env.crossbeam) (c : env.condvar.Choice)
      → Run env bound s k s'
      → Tame env.crossbeam a
      → step env bound s' i a c ≡ some s''
      → Run env bound s (suc k) s''
