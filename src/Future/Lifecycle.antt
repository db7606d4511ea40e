-- ===== src/Future/Lifecycle.antt =====
-- src/local.rs: a `SpawnFuture` from its making over any sequence of polls to its drop.
use affinitypool.Base.{◌≡◌, refl, ap, List, [], ◌∷◌, ◌++◌, Option, none, some, arith}
use affinitypool.Future.{
  Poll, ready, pending, Caught, panics, Event, schedules, drops_runnable, drops_task, cancels,
  SpawnFuture, spawn_local, poll_handle, poll, drop,
}

module _ {Runnable Task R Payload : Type 0} where
  -- The events of a sequence of polls, and the future after it.
  unfoldable pub run :
      List (Poll (Caught R Payload))
      → SpawnFuture Runnable Task
      → SpawnFuture Runnable Task × List (Event Runnable Task)
  unfolding poll
  run [] f = (f, [])
  run (a ∷ answers) f =
      let p = poll a f in let rest = run answers p.future in (rest.0, p.events ++ rest.1)

  -- What a caller that polls with these answers and then drops the future brings about.
  abbrev pub lifetime :
      List (Poll (Caught R Payload)) → SpawnFuture Runnable Task → List (Event Runnable Task)
  lifetime answers f = (run answers f).1 ++ drop (run answers f).0

  -- After the first poll: the task is dropped at its first ready answer, or cancelled at the end.
  abbrev pub settled : Task → List (Poll (Caught R Payload)) → List (Event Runnable Task)
  settled t [] = cancels t ∷ []
  settled t (ready result ∷ answers) = drops_task t ∷ []
  settled t (pending ∷ answers) = settled t answers

  -- What should come about: without a poll the runnable is dropped with its task and never scheduled,
  -- else it is scheduled once, before all else.
  abbrev pub expected :
      Runnable → Task → List (Poll (Caught R Payload)) → List (Event Runnable Task)
  expected r t [] = drops_runnable r ∷ drops_task t ∷ []
  expected r t (a ∷ answers) = schedules r ∷ settled t (a ∷ answers)

  run-done :
      (answers : List (Poll (Caught R Payload)))
      → lifetime answers (record { runnable = none; task = none }) ≡ []
  unfolding run poll drop
  run-done [] = refl
  run-done (a ∷ answers) = run-done answers

  run-settled :
      (t : Task) (answers : List (Poll (Caught R Payload)))
      → lifetime answers (record { runnable = none; task = some t }) ≡ settled t answers
  unfolding run poll drop
  run-settled t [] = refl
  run-settled t (ready result ∷ answers) = ap (λ es. drops_task t ∷ es) (run-done answers)
  run-settled t (pending ∷ answers) = run-settled t answers

  -- Whatever the polls of a `SpawnFuture` and their answers up to its drop, its events are
  -- these: if it is never polled, the runnable is dropped unscheduled and then the task; else
  -- the runnable is scheduled once, at the first poll, and then the task is dropped at its first
  -- ready answer, or it is cancelled at the drop.
  pub lifetime-expected :
      (r : Runnable) (t : Task) (answers : List (Poll (Caught R Payload)))
      → lifetime answers (spawn_local r t) ≡ expected r t answers
  unfolding run poll drop
  lifetime-expected r t [] = refl
  lifetime-expected r t (ready result ∷ answers) =
      ap (λ es. schedules r ∷ drops_task t ∷ es) (run-done answers)
  lifetime-expected r t (pending ∷ answers) = ap (λ es. schedules r ∷ es) (run-settled t answers)

  -- While its task is there, a poll of a `SpawnFuture` ends as a poll of a `JoinHandle` does
  -- with the same answer of the task.
  poll-poll_handle :
      (a : Poll (Caught R Payload)) (run : Option Runnable) (t : Task)
      → (poll a (record { runnable = run; task = some t })).ends ≡ poll_handle a
  unfolding poll poll_handle
  poll-poll_handle (ready result) run t = ground arith
  poll-poll_handle pending run t = refl

  -- A poll of a `SpawnFuture` after a poll that was given a ready answer panics.
  pub poll-panics :
      (result : Caught R Payload) (a : Poll (Caught R Payload)) (f : SpawnFuture Runnable Task)
      → (poll a (poll (ready result) f).future).ends ≡ panics
  unfolding poll
  poll-panics result a f = ground arith
