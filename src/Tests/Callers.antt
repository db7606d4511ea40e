-- ===== src/Tests/Callers.antt =====
-- A pool whose threads can be created, one whose first threads cannot, and a future that is polled.
use affinitypool.Base.{
  map, ◌++◌, Option, zero, suc, ℕ, ℕ_discrete, ◌⊎◌, ◌+◌, ◌<◌, ◌≤◌, ◌≡◌, ◌≢◌, refl, List, [], ◌∷◌,
  none, some, arith, length, ltb, if◌then◌else◌,
}
use affinitypool.Queue.{fresh, max_threads}
use affinitypool.Pool.{
  Os, Data, initial, new_sentry, drop_sentry, pool_task, lazy_task, caller, unchecked, answered,
  build_global, spin_up,
}
use affinitypool.Pool.Global.{Awaits, spawned, global_spawn-build_globals, build_globals}
use affinitypool.Pool.Builder.{Builder, empty, worker_threads, shards, build}
use affinitypool.Pool.Spinning.{spin_up_diverges}
use affinitypool.Pool.Ending.{build-drop_sentry}
use affinitypool.Pool.Making.{build-agrees}
use affinitypool.Future.{
  Poll, ready, pending, Caught, ok, err, panics, schedules, drops_task, spawn_local, spawn,
  drop_handle, poll_handle, poll, SpawnFuture,
}
use affinitypool.Future.Lifecycle.{lifetime, lifetime-expected, poll-panics}
use affinitypool.Future.Awaiting.{run_ends, Awaited-spawn}

-- Threads whose handles are numbered, from the attempt with number `first` on.
abbrev pub os : ℕ → Os ℕ
os first = record {
  Handle = ℕ;
  num_cpus = 4;
  spawn = λ n name stack_size. if ltb n first then none else some n;
}

abbrev no_os : Os ℕ
no_os = record { Handle = ℕ; num_cpus = 4; spawn = λ n name stack_size. none }

abbrev at_first : (o : Os ℕ) → Data o ℕ
at_first o = initial o none none 1 (fresh 1 1)

abbrev three_workers : Builder ℕ
three_workers = shards 2 (worker_threads 3 empty)

pub reliable : (n : ℕ) → (os 0).spawn n none none ≢ none
reliable n e = ground arith

build-agrees_example :
    (d : Data (os 0) ℕ) × (build (os 0) 1 three_workers ≡ some d)
    × (0 < d.num_threads)
    × (d.num_threads ≤ max_threads)
    × (d.queue.num_workers ≡ d.num_threads)
    × (d.thread_count ≡ d.num_threads)
    × (length d.thread_handles ≡ d.num_threads)
build-agrees_example = build-agrees (os 0) 0 three_workers reliable

all_reliable :
    (n : ℕ) (name : Option ℕ) (stack_size : Option ℕ) → (os 0).spawn n name stack_size ≢ none
all_reliable n name stack_size e = ground arith

build-drop_sentry_example :
    (d : Data (os 0) ℕ) × (d' : Data (os 0) ℕ) × (build (os 0) 1 three_workers ≡ some d)
    × (drop_sentry (os 0) 1 (new_sentry 2) (some d) ≡ some (some d'))
    × (d'.num_threads ≡ d.num_threads)
    × (d'.thread_count ≡ suc d.num_threads)
    × (length d'.thread_handles ≡ suc d.num_threads)
build-drop_sentry_example = build-drop_sentry (os 0) 0 2 three_workers all_reliable

first_fails : (k : ℕ) → k < 2 → (os 2).spawn (0 + k) none none ≡ none
first_fails k lt = ground arith

spin_up_diverges_example : spin_up no_os 100 (at_first no_os) ≡ none
spin_up_diverges_example = spin_up_diverges no_os 100 (at_first no_os) (λ n. refl)

abbrev answers : List (Poll (Caught ℕ ℕ))
answers = pending ∷ ready (ok 5) ∷ []

abbrev future : SpawnFuture ℕ ℕ
future = spawn_local 1 2

abbrev value : Poll (Caught ℕ ℕ)
value = ready (ok 5)

abbrev caught : Poll (Caught ℕ ℕ)
caught = ready (err 9)

lifetime-expected_example : lifetime answers future ≡ schedules 1 ∷ drops_task 2 ∷ []
lifetime-expected_example = lifetime-expected 1 2 answers

Awaited-spawn_example :
    (run_ends (pending ∷ caught ∷ []) future ≡ map poll_handle (pending ∷ caught ∷ []))
    × (lifetime (pending ∷ caught ∷ []) future
        ≡ (spawn {Runnable = ℕ} {Task = ℕ} 1 2).1
          ++ drop_handle (spawn {Runnable = ℕ} {Task = ℕ} 1 2).0)
Awaited-spawn_example = Awaited-spawn 1 2 (pending ∷ caught ∷ []) refl

poll-panics_example : (poll value (poll value future).future).ends ≡ panics
poll-panics_example = poll-panics (ok 5) value future

-- Two calls that both pass the check: both succeed, and the pool of the second is dropped.
both_succeed :
    (answered_at : ℕ)
    → answered_at < 2
    → (build_globals none (λ k. unchecked k) (0 ∷ 1 ∷ 0 ∷ 1 ∷ [])).1 answered_at ≡ answered none
unfolding build_globals build_global ℕ_discrete
both_succeed zero lt = refl
both_succeed (suc zero) lt = refl
both_succeed (suc (suc k)) lt = absurd (omega (arith, lt))

abbrev closure : ℕ
closure = 9

global_spawn-build_globals_example :
    let (cell, calls) = build_globals none (λ k. unchecked k) (0 ∷ 1 ∷ 0 ∷ 1 ∷ []) in
    (Awaits (λ k. k) calls × (spawned cell closure ≡ (caller closure, caller closure)))
    ⊎ ((i : ℕ) × (calls i ≡ answered none)
        × ((later : List ℕ)
            → spawned (build_globals cell calls later).0 closure
              ≡ (pool_task i closure, lazy_task i closure)))
global_spawn-build_globals_example =
    global_spawn-build_globals (λ k. k) (0 ∷ 1 ∷ 0 ∷ 1 ∷ []) closure
