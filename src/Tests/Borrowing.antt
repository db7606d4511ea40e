-- ===== src/Tests/Borrowing.antt =====
-- A future that is polled and dropped while a worker runs its closure.
use affinitypool.Base.{◌≡◌, refl, ℕ, Option, none, some, true, false}
use affinitypool.Future.{Poll, ready, pending, Caught, ok, spawn_local}
use affinitypool.Future.Borrows.{
  AsyncTask, Local, dropped, polls, drops, holding, caller_turn, Lives, spawns, caller_goes,
  worker_goes,
}
use affinitypool.Future.Borrows.Dropped.{dropped-Gone}

-- The closure waits for a worker, runs, is cancelled and not yet dropped, or is gone.
data Stage : Type 0 where
  waiting running cancelled gone : Stage

abbrev HasClosure : Stage → Type 0
HasClosure gone = ⊥
HasClosure _ = Unit

data Goes : Stage → Stage → Type 0 where
  starts : Goes waiting running
  finishes : Goes running gone
  gives_up : Goes cancelled gone

abbrev closed : Stage → Stage
closed gone = gone
closed _ = cancelled

abbrev answer : Stage → Poll (Caught ℕ Unit) × Stage
answer gone = (ready (ok 7), gone)
answer s = (pending, s)

abbrev answer_cancel : Stage → Poll (Option (Caught ℕ Unit)) × Stage
answer_cancel gone = (ready none, gone)
answer_cancel s = (pending, s)

answer_gone : (s : Stage) (c : Caught ℕ Unit) → (answer s).0 ≡ ready c → HasClosure (answer s).1 → ⊥
answer_gone gone c e h = h
answer_gone waiting c e h = cc e
answer_gone running c e h = cc e
answer_gone cancelled c e h = cc e

answer_cancel_gone :
    (s : Stage) (c : Option (Caught ℕ Unit))
    → (answer_cancel s).0 ≡ ready c
    → HasClosure (answer_cancel s).1
    → ⊥
answer_cancel_gone gone c e h = h
answer_cancel_gone waiting c e h = cc e
answer_cancel_gone running c e h = cc e
answer_cancel_gone cancelled c e h = cc e

Goes-keeps : (s s' : Stage) → Goes s s' → HasClosure s' → HasClosure s
Goes-keeps _ _ starts h = tt
Goes-keeps _ _ finishes h = tt
Goes-keeps _ _ gives_up h = tt

abbrev small_task : AsyncTask ℕ Unit
small_task = record {
  State = Stage;
  Holds = HasClosure;
  Works = Goes;
  drop_runnable = λ s. gone;
  drop_task = λ s. s;
  cancel = closed;
  poll_task = answer;
  poll_cancel = answer_cancel;
  runnable_gone = λ s h. h;
  poll_gone = answer_gone;
  cancel_gone = answer_cancel_gone;
  works_keeps = Goes-keeps;
  drop_keeps = λ s h. h;
}

abbrev spawned : Local small_task
spawned = record { standing = holding; future = spawn_local tt tt; queued = false; state = waiting }

-- It is polled, and the worker starts the closure.
abbrev started : Local small_task
started = record {
  standing = holding;
  future = record { runnable = none; task = some tt };
  queued = true;
  state = running;
}

started-Lives : Lives small_task started
unfolding caller_turn
started-Lives =
    worker_goes (caller_goes polls (caller_goes polls (spawns waiting) refl) refl) refl starts

-- The drop cancels the task and waits; the worker finishes, and the wait is over.
abbrev over : Local small_task
over = record {
  standing = dropped;
  future = record { runnable = none; task = none };
  queued = true;
  state = gone;
}

over-Lives : Lives small_task over
unfolding caller_turn
over-Lives =
    caller_goes polls
      (worker_goes
        (caller_goes polls (caller_goes polls (caller_goes drops started-Lives refl) refl) refl)
        refl gives_up)
      refl

dropped-Gone_example : ¬ HasClosure gone
dropped-Gone_example = dropped-Gone small_task over over-Lives refl
