-- ===== src/Future/Borrows.antt =====
-- src/local.rs and `spawn_local` of src/lib.rs: the closure of a `SpawnFuture`, and what it borrows, over
-- the turns of the caller that holds the future and of the worker that has its runnable.
pub mod Dropped
use affinitypool.Base.{◌≡◌, refl, List, [], ◌∷◌, Option, none, some, Bool, true, false, arith}
use affinitypool.Future.{
  Poll, ready, pending, Caught, Event, schedules, drops_runnable, drops_task, cancels, SpawnFuture,
  spawn_local, scheduled, poll_task, drop,
}

-- A task of `async_task`. `Holds` says that its closure has not been dropped yet, so that a thread may
-- still use what the closure borrows. A worker with the runnable makes the turns `Works`.
pub record AsyncTask (R Payload : Type 0) : Type 1 where
  pub State : Type 0
  pub Holds : State → Type 0
  pub Works : State → State → Type 0
  pub drop_runnable : State → State
  pub drop_task : State → State
  pub cancel : State → State
  pub poll_task : State → Poll (Caught R Payload) × State
  pub poll_cancel : State → Poll (Option (Caught R Payload)) × State
  -- The runnable takes the closure with it.
  pub runnable_gone : (s : State) → Holds (drop_runnable s) → ⊥
  -- A poll is ready once the closure has run, and a cancellation once it runs no more.
  pub poll_gone :
      (s : State) (c : Caught R Payload) → (poll_task s).0 ≡ ready c → Holds (poll_task s).1 → ⊥
  pub cancel_gone :
      (s : State) (c : Option (Caught R Payload))
      → (poll_cancel s).0 ≡ ready c
      → Holds (poll_cancel s).1
      → ⊥
  -- A closure that was dropped is not there again.
  pub works_keeps : (s s' : State) → Works s s' → Holds s' → Holds s
  pub drop_keeps : (s : State) → Holds (drop_task s) → Holds s

-- The runnable and the task of the future are handles to the one state.
abbrev pub Handles : Type 0
Handles = SpawnFuture Unit Unit

abbrev pub HandleEvent : Type 0
HandleEvent = Event Unit Unit

-- Where the caller stands: it holds the future, is in a `poll` behind the schedule, in the drop with
-- this left to do, in `block_on_cancel`, or behind the drop.
pub data Standing : Type 0 where
  holding polling : Standing
  dropping : List HandleEvent → Standing
  blocked dropped : Standing

-- What the caller does with the future that it holds. It does not leak it.
pub data Use : Type 0 where
  polls drops : Use

pub record Local {R Payload : Type 0} (async : AsyncTask R Payload) : Type 0 where
  pub standing : Standing
  pub future : Handles
  pub queued : Bool
  pub state : async.State

module _ {R Payload : Type 0} (async : AsyncTask R Payload) where
  -- The effect of an event on the task; a runnable that is scheduled is within reach of a worker.
  abbrev pub perform : HandleEvent → Local async → Local async
  perform (schedules r) w = record w { queued = true }
  perform (drops_runnable r) w = record w { state = async.drop_runnable w.state }
  perform (drops_task t) w = record w { state = async.drop_task w.state }
  perform (cancels t) w = record w { state = async.cancel w.state }

  abbrev pub perform_all : List HandleEvent → Local async → Local async
  perform_all [] w = w
  perform_all (e ∷ es) w = perform_all es (perform e w)

  -- `SpawnFuture::poll` up to the poll of the task, and the drop.
  abbrev pub begin_use : Use → Local async → Local async
  begin_use polls w = record (perform_all (scheduled w.future.runnable) w) {
    standing = polling;
    future = record { runnable = none; task = w.future.task };
  }
  begin_use drops w = record w {
    standing = dropping (drop w.future);
    future = record { runnable = none; task = none };
  }

  -- The rest of the poll. Without a task it panics, and polls nothing.
  abbrev pub finish_poll : Option (Unit {0}) → Local async → Local async
  finish_poll none w = record w { standing = holding }
  finish_poll (some t) w =
      let (answer, state) = async.poll_task w.state in
      let p = poll_task answer (some t) [] in
      record (perform_all p.events (record w { state = state })) {
        standing = holding;
        future = p.future;
      }

  -- Whether the drop goes on in `block_on_cancel` behind an event.
  abbrev pub behind : HandleEvent → List HandleEvent → Standing
  behind (cancels t) es = blocked
  behind _ es = dropping es

  abbrev pub poll_cancel_again :
      Poll (Option (Caught R Payload)) × async.State → Local async → Local async
  poll_cancel_again (ready c, state) w = record w { standing = dropped; state = state }
  poll_cancel_again (pending, state) w = record w { state = state }

  -- The next turn of the caller.
  unfoldable pub caller_turn : Standing → Use → Local async → Option (Local async)
  unfolding drop
  caller_turn holding use_ w = some (begin_use use_ w)
  caller_turn polling use_ w = some (finish_poll w.future.task w)
  caller_turn (dropping []) use_ w = some (record w { standing = dropped })
  caller_turn (dropping (e ∷ es)) use_ w = some (record (perform e w) { standing = behind e es })
  caller_turn blocked use_ w = some (poll_cancel_again (async.poll_cancel w.state) w)
  caller_turn dropped use_ w = none

-- The states from `spawn_local` on, with the turns of the caller and of a worker in any order. A worker
-- has the runnable only once it is scheduled.
pub data Lives {R Payload : Type 0} (async : AsyncTask R Payload) : Local async → Type 0 where
  spawns :
      (state : async.State)
      → Lives async
          (record { standing = holding; future = spawn_local tt tt; queued = false; state = state })
  caller_goes :
      {w w' : Local async} (u : Use)
      → Lives async w
      → caller_turn async w.standing u w ≡ some w'
      → Lives async w'
  worker_goes :
      {w : Local async} {state : async.State}
      → Lives async w
      → w.queued ≡ true
      → async.Works w.state state
      → Lives async (record w { state = state })
