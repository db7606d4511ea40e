-- ===== src/Pool/Dropping/Joins.antt =====
-- src/lib.rs, src/sentry.rs and src/queue.rs: what has become of the workers and of the runnables when
-- the drop of a pool has returned.
use affinitypool.Base.{
  ℕ, ◌≤◌, ◌<◌, ◌≡◌, ◌≢◌, refl, sym, ap, ◌∙◌, ◌⊎◌, inl, inr, [], ◌++◌, Option, some, true, false,
}
use affinitypool.Base.Family.{SameTasks}
use affinitypool.Queue.{Queue, new}
use affinitypool.Queue.Threads.{exited, Env}
use affinitypool.Queue.Turns.{Action, closes}
use affinitypool.Queue.Turns.Ensures.{Ensures-some}
use affinitypool.Queue.Turns.Shutdown.{act-shutdown}
use affinitypool.Queue.System.{System, Reach, start, later, step, init}
use affinitypool.Queue.System.Invariant.{new-fresh}
use affinitypool.Queue.System.Preserve.{step-turn}
use affinitypool.Queue.System.Safety.{IsPool}
use affinitypool.Queue.System.Closing.{Closed, shuts, goes}
use affinitypool.Queue.Channel.Joined.{joined-SameTasks}
use affinitypool.Pool.Dropping.{
  DropStage, in_use, shutting, joining, returned, Pooled, Move, is_allowed, Lives, starts, moves,
}
use affinitypool.Pool.Dropping.Handles.{Among, Among-append_left, Among-append_right}
use affinitypool.Pool.Dropping.Phases.{is_allowed-other, is_allowed-silent}
use affinitypool.Pool.Dropping.Moves.{
  Happens, turned, crashed, begun, drained, joined, finished, was_stored, advance-Happens,
}
use affinitypool.Pool.Dropping.Tracked.{left_to_join, Lives-Tracked}
use mathlib.Core.Path.{subst}

module _ {Task : Type 0} (env : Env Task) (bound num_workers dropper : ℕ) (shards : Option ℕ) where
  -- What the stage of the drop says of the queue.
  abbrev pub PhaseOf : DropStage → System Task → Type 0
  PhaseOf in_use s = Reach env bound num_workers shards s × (s.queue.shutdown ≡ false)
  PhaseOf _ s = Closed env bound num_workers shards s

  step-shutdown :
      (i : ℕ) (a : Action env.crossbeam) (c : env.condvar.Choice) (s s' : System Task)
      → a ≢ closes
      → step env bound s i a c ≡ some s'
      → s'.queue.shutdown ≡ s.queue.shutdown
  step-shutdown i a c s s' other eq =
      let (lt, eff, turn, same) = step-turn env bound s s' i a c eq in
      ap (λ (x : System Task). x.queue.shutdown) same
      ∙ Ensures-some (λ e. e.queue.shutdown ≡ s.queue.shutdown) _ turn
          (act-shutdown env i s.queue (s.threads i) (s.threads i).pc a other)

  step-PhaseOf :
      (st : DropStage) (i : ℕ) (a : Action env.crossbeam) (c : env.condvar.Choice)
      (s s' : System Task)
      → is_allowed env bound num_workers dropper st i a ≡ true
      → step env bound s i a c ≡ some s'
      → PhaseOf st s
      → PhaseOf st s'
  step-PhaseOf in_use i a c s s' allowed eq (r, open') = (
    later i a c r eq,
    step-shutdown i a c s s' (is_allowed-other env bound num_workers dropper in_use i a allowed) eq
        ∙ open',
  )
  step-PhaseOf shutting i a c s s' allowed eq closed =
      goes i a c closed
        (is_allowed-silent env bound num_workers dropper shutting i a (λ e. cc e) allowed) eq
  step-PhaseOf (joining hs) i a c s s' allowed eq closed =
      goes i a c closed
        (is_allowed-silent env bound num_workers dropper (joining hs) i a (λ e. cc e) allowed) eq
  step-PhaseOf returned i a c s s' allowed eq closed = absurd (cc allowed)

  Happens-PhaseOf :
      (d d' : Pooled Task) {m : Move env}
      → num_workers ≤ dropper
      → Happens env bound num_workers dropper d m d'
      → PhaseOf d.stage d.system
      → PhaseOf d'.stage d'.system
  Happens-PhaseOf d _ foreign (turned {s} i a c allowed mild e) ph =
      step-PhaseOf d.stage i a c d.system s allowed e ph
  Happens-PhaseOf d _ foreign (crashed {s} i a c allowed at crash e) ph =
      step-PhaseOf d.stage i a c d.system s allowed e ph
  Happens-PhaseOf d _ foreign (begun {s} c at owned e) ph =
      let (r, open') = subst (λ st. PhaseOf st d.system) at ph in
      shuts dropper c r owned open' foreign e
  Happens-PhaseOf d _ foreign (drained at) ph = subst (λ st. PhaseOf st d.system) at ph
  Happens-PhaseOf d _ foreign (joined h hs at over) ph = subst (λ st. PhaseOf st d.system) at ph
  Happens-PhaseOf d _ foreign (finished at) ph = subst (λ st. PhaseOf st d.system) at ph
  Happens-PhaseOf d _ foreign (was_stored k e) ph = ph

  start-PhaseOf : (q : Queue Task) → new num_workers shards ≡ some q → PhaseOf in_use (init q)
  start-PhaseOf q made =
      let (count, same) = new-fresh num_workers shards q made in
      (start made, subst (λ (x : Queue Task). x.shutdown ≡ false) (sym same) refl)

  pub Lives-PhaseOf :
      (d : Pooled Task)
      → num_workers ≤ dropper
      → Lives env bound num_workers dropper shards d
      → PhaseOf d.stage d.system
  Lives-PhaseOf _ foreign (starts {q} made) = start-PhaseOf q made
  Lives-PhaseOf d' foreign (moves {d} m l owned eq) =
      Happens-PhaseOf d d' foreign (advance-Happens env bound num_workers dropper m d d' owned eq)
        (Lives-PhaseOf d foreign l)

  -- For a pool whose first threads were all created and whose drop is called by some thread
  -- while no thread but the workers is in a call of the pool, with no push by any other thread
  -- from there on, in every state that the pool reaches up to the return of the drop, in any
  -- order of the turns of its threads, of the drop and of the sentries of workers that panic: if
  -- the drop has returned, each worker has exited, or the handle of its present thread is one
  -- that a sentry has stored since the drop took them all or is about to store.
  pub returned-Among :
      (d : Pooled Task) (w : ℕ)
      → Lives env bound num_workers dropper shards d
      → d.stage ≡ returned
      → w < num_workers
      → ((d.system.threads w).pc ≡ exited)
        ⊎ Among (w, d.incarnation w) (d.unstored ++ d.thread_handles)
  returned-Among d w l at lt = elim (Lives-Tracked env bound num_workers dropper shards d w l lt) [
    | inl gone ↦ inl gone
    | inr (inl m) ↦ inr (Among-append_left _ d.unstored _ m)
    | inr (inr (inl m)) ↦ inr (Among-append_right _ d.unstored _ m)
    | inr (inr (inr m)) ↦ absurd (subst (λ st. Among (w, d.incarnation w) (left_to_join st)) at m)
  ]

  -- For a pool of at least one and at most `MAX_THREADS` workers among fewer than `usize::MAX`
  -- threads, whose first threads were all created and whose drop is called by a thread that is
  -- no worker while no such thread is in a call of the pool, with no push by such a thread from
  -- there on, in every state that the pool reaches up to the return of the drop, in any order of
  -- the turns of its threads, of the drop and of the sentries of workers that panic: if the drop
  -- has returned, and no sentry has stored a handle since the drop took them all or is about to,
  -- then every worker has exited, and the runnables that were pushed are, with their
  -- multiplicity, those that `pop_blocking` has returned and those that were dropped with the
  -- deque of a worker that panicked.
  pub returned-SameTasks :
      (pool : IsPool bound num_workers) (d : Pooled Task)
      → num_workers ≤ dropper
      → Lives env bound num_workers dropper shards d
      → d.stage ≡ returned
      → d.unstored ++ d.thread_handles ≡ []
      → ((w : ℕ) → w < num_workers → (d.system.threads w).pc ≡ exited)
        × SameTasks d.system.sent (d.system.delivered ++ d.system.dropped)
  returned-SameTasks pool d foreign l at joined_all = (
    gone,
    joined-SameTasks env bound num_workers shards pool d.system
        (subst (λ st. PhaseOf st d.system) at (Lives-PhaseOf d foreign l)) gone,
  )
    where
      gone : (w : ℕ) → w < num_workers → (d.system.threads w).pc ≡ exited
      gone w lt = elim (returned-Among d w l at lt) [
        | inl e ↦ e
        | inr m ↦ absurd (subst (Among (w, d.incarnation w)) joined_all m)
      ]
