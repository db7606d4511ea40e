-- ===== src/Queue/Alone/Pushes.antt =====
-- src/queue.rs: `push` by a thread that runs alone, into its own deque or into a shard.
use affinitypool.Base.{
  ℕ, zero, suc, ◌≡◌, refl, sym, List, [], ◌∷◌, Option, none, some, Bool, true, false, ltb, ◌==◌,
  if◌then◌else◌, Bool-cases, inl, inr,
}
use affinitypool.Cpu.{route_shard}
use affinitypool.Queue.{Queue, ◌>>=◌}
use affinitypool.Queue.Threads.{
  Pc, running, pushed, Thread, Signal, quiet, sends, wakes_one, Effect, Env,
}
use affinitypool.Queue.Turns.{go, pushes, act, fetch_add, foreign_push, push_from}
use mathlib.Core.Path.{subst}

abbrev is_back : {Task : Type 0} → Pc Task → Bool
is_back running = true
is_back _ = false

abbrev pub and_signal :
    {Task : Type 0}
    → Signal Task
    → Option (Effect Task × List (Signal Task))
    → Option (Effect Task × List (Signal Task))
and_signal sig none = none
and_signal sig (some (e, log)) = some (e, sig ∷ log)

module _ {Task : Type 0} (env : Env Task) (c : env.crossbeam.Choice) (i : ℕ) where
  -- The turns of thread `i` alone until it is back in its own code, with the last effect and all signals.
  unfoldable pub run_back : (fuel : ℕ) → Effect Task → Option (Effect Task × List (Signal Task))
  unfolding act
  run_back zero e = none
  run_back (suc fuel) e =
      let rest = act env e.thread.pc (go c) i e.queue e.thread >>= λ e'. run_back fuel e' in
      and_signal e.signal (if is_back e.thread.pc then some (e, []) else rest)

  unfoldable pub push_alone :
      (fuel : ℕ) → Task → Queue Task → Thread Task → Option (Effect Task × List (Signal Task))
  unfolding act run_back
  push_alone fuel r q t = act env t.pc (pushes r) i q t >>= λ e. run_back fuel e

-- What `push` does beyond its thread: it wakes a sleeper, unless for each parked worker a wake-up is
-- under way.
abbrev pub handshake : {Task : Type 0} → Task → (parked notified : ℕ) → List (Signal Task)
handshake r parked notified =
    if ltb notified parked
    then sends r ∷ quiet ∷ quiet ∷ quiet ∷ quiet ∷ wakes_one ∷ quiet ∷ []
    else sends r ∷ quiet ∷ quiet ∷ []

-- The state of the counters and of the mutex behind it.
abbrev pub Handshaken : {Task : Type 0} → Queue Task → Effect Task → Type 0
Handshaken q e =
    (e.thread.pc ≡ running)
    × (e.queue.park ≡ none)
    × (e.queue.parked ≡ q.parked)
    × (e.queue.notified ≡ (if ltb q.notified q.parked then fetch_add q.notified else q.notified))

module _ {Task : Type 0} (env : Env Task) (c : env.crossbeam.Choice) (i : ℕ) where
  run_back-handshake :
      (r : Task) (fuel : ℕ) (q : Queue Task) (t : Thread Task)
      → q.park ≡ none
      → (e : Effect Task) × (run_back env c i
            (suc (suc (suc (suc (suc (suc (suc fuel)))))))
            (record { queue = q; thread = record t { pc = pushed }; signal = sends r })
          ≡ some (e, handshake r q.parked q.notified))
        × Handshaken q e
  unfolding run_back act
  run_back-handshake r fuel q t free = elim (Bool-cases (ltb q.notified q.parked)) [
    | inl few ↦ (
      record {
        queue = record q { park = none; notified = fetch_add q.notified };
        thread = record t { pc = running };
        signal = quiet;
      },
      rw few (rw free (rw few refl)),
      (refl, refl, refl, rw few refl),
    )
    | inr enough ↦ (
      record { queue = q; thread = record t { pc = running }; signal = quiet },
      rw enough refl,
      (refl, free, refl, rw enough refl),
    )
  ]

  -- For any queue with the `park` mutex free, and any thread in its own code or in a runnable,
  -- with at least seven units of fuel: a `push` by that thread, with no other thread in between,
  -- comes back to that code with the mutex free and `parked` as before. It calls `notify_one`,
  -- once, exactly if `notified` is below `parked`, be it a push to the own deque of a worker or
  -- to a shard, and then adds one to `notified`, which it else leaves as it was.
  pub push_alone-handshake :
      (r : Task) (fuel : ℕ) (q : Queue Task) (t : Thread Task)
      → t.pc ≡ running
      → q.park ≡ none
      → (e : Effect Task) × (push_alone env c i (suc (suc (suc (suc (suc (suc (suc fuel))))))) r q t
          ≡ some (e, handshake r q.parked q.notified))
        × Handshaken q e
  unfolding push_alone act foreign_push
  push_alone-handshake r fuel q t at free =
      subst
        (λ x.
          (e : Effect Task) × ((x >>= λ e'.
          run_back env c i (suc (suc (suc (suc (suc (suc (suc fuel))))))) e')
            ≡ some (e, handshake r q.parked q.notified))
          × Handshaken q e)
        (sym (begins t.pc at)) (from t.current_worker)
    where
      begins :
          (pc : Pc Task)
          → pc ≡ running
          → act env pc (pushes r) i q t
            ≡ some (push_from t.current_worker (env.hash_thread_id i) r q t)
      begins pc here = rw here refl

      from :
          (w : Option ℕ)
          → (e : Effect Task) × ((some (push_from w (env.hash_thread_id i) r q t) >>= λ e'.
                run_back env c i (suc (suc (suc (suc (suc (suc (suc fuel))))))) e')
              ≡ some (e, handshake r q.parked q.notified))
            × Handshaken q e
      from (some idx) = run_back-handshake r fuel _ t free
      from none = elim (Bool-cases (q.mask == 0)) [
        | inl one ↦ rw one (run_back-handshake r fuel _ t free)
        | inr more ↦ rw more (
            run_back-handshake r fuel _
              (record t { route = some (route_shard (env.hash_thread_id i) q.mask t.route).1 })
              free)
      ]
