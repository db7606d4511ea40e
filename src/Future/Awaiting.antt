-- ===== src/Future/Awaiting.antt =====
-- src/local.rs and src/lib.rs: a `SpawnFuture` and a `JoinHandle` that are awaited.
use affinitypool.Base.{◌≡◌, refl, ap, ◌∙◌, List, [], ◌∷◌, ◌++◌, Option, none, some, map}
use affinitypool.Future.{
  Poll, ready, pending, Caught, ok, err, returns, Ends, schedules, drops_task, SpawnFuture,
  spawn_local, spawn, drop_handle, poll_handle, poll,
}
use affinitypool.Future.Lifecycle.{lifetime, settled, lifetime-expected}

module _ {R Payload : Type 0} where
  -- The answers of a task to an `await`: pending ones, and a last one that is ready.
  abbrev pub Awaited : List (Poll (Caught R Payload)) → Type 0
  Awaited [] = ⊥
  Awaited (ready result ∷ answers) = answers ≡ []
  Awaited (pending ∷ answers) = Awaited answers

module _ {Runnable Task R Payload : Type 0} where
  -- How the polls of a `SpawnFuture` end.
  unfoldable pub run_ends :
      List (Poll (Caught R Payload)) → SpawnFuture Runnable Task → List (Ends R Payload)
  unfolding poll
  run_ends [] f = []
  run_ends (a ∷ answers) f =
      let p = poll a f in let rest = run_ends answers p.future in p.ends ∷ rest

  run_ends-polled :
      (t : Task) (r : Option Runnable) (answers : List (Poll (Caught R Payload)))
      → Awaited answers
      → run_ends answers (record { runnable = r; task = some t }) ≡ map poll_handle answers
  unfolding run_ends poll poll_handle
  run_ends-polled t r [] await = absurd await
  run_ends-polled t r (ready (ok v) ∷ answers) await = rw await refl
  run_ends-polled t r (ready (err p) ∷ answers) await = rw await refl
  run_ends-polled t r (pending ∷ answers) await =
      ap (λ es. returns pending ∷ es) (run_ends-polled t none answers await)

  settled-Awaited :
      (t : Task) (answers : List (Poll (Caught R Payload)))
      → Awaited answers
      → settled {Runnable = Runnable} t answers ≡ drops_task t ∷ []
  settled-Awaited t [] await = absurd await
  settled-Awaited t (ready result ∷ answers) await = refl
  settled-Awaited t (pending ∷ answers) await = settled-Awaited t answers await

  -- A `SpawnFuture` that is polled until an answer of its task is ready, and then dropped, does
  -- as a `JoinHandle` of `spawn`: each of its polls ends as a poll of a `JoinHandle` with that
  -- answer of the task does, and its events are those of `spawn` and of the drop of the
  -- `JoinHandle`.
  pub Awaited-spawn :
      (r : Runnable) (t : Task) (answers : List (Poll (Caught R Payload)))
      → Awaited answers
      → (run_ends answers (spawn_local r t) ≡ map poll_handle answers)
        × (lifetime answers (spawn_local r t) ≡ (spawn r t).1 ++ drop_handle (spawn r t).0)
  Awaited-spawn r t [] await = absurd await
  Awaited-spawn r t (a ∷ answers) await = (
    run_ends-polled t (some r) (a ∷ answers) await,
    lifetime-expected r t (a ∷ answers)
        ∙ ap (λ es. schedules r ∷ es) (settled-Awaited t (a ∷ answers) await),
  )
