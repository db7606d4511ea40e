-- ===== src/Pool/Dropping/Unbroken.antt =====
-- src/lib.rs, src/sentry.rs and src/queue.rs: a pool of which no worker panics.
use affinitypool.Base.{
  ℕ, suc, ◌≤◌, ◌<◌, ◌≡◌, ◌≢◌, refl, sym, ap, ◌∙◌, List, [], ◌++◌, Option, some, arith, ℕ_discrete,
}
use affinitypool.Base.Family.{SameTasks, weight, weight-append, update, update_self, update_ne}
use affinitypool.Queue.{Queue, new}
use affinitypool.Queue.Threads.{Thread, starting, running, exited, Signal, Env}
use affinitypool.Queue.Turns.{Action, closes, panics}
use affinitypool.Queue.Turns.Balance.{dropped_by}
use affinitypool.Queue.Turns.Ensures.{Ensures-some}
use affinitypool.Queue.Turns.Unbroken.{IsUnbroken, act-IsUnbroken}
use affinitypool.Queue.System.{System, Reach, step, log_dropped}
use affinitypool.Queue.System.Wake.{IsWoken, wakes-IsWoken}
use affinitypool.Queue.System.Invariant.{Inv, new-fresh}
use affinitypool.Queue.System.Moved.{settled}
use affinitypool.Queue.System.Preserve.{step-turn}
use affinitypool.Queue.System.Safety.{IsPool, Reach-Inv}
use affinitypool.Pool.Dropping.{
  Handle, DropStage, joining, returned, Pooled, Move, new_pooled, take_at, Lives, starts, moves,
}
use affinitypool.Pool.Dropping.Moves.{
  Happens, turned, crashed, begun, drained, joined, finished, was_stored, advance-Happens,
}
use affinitypool.Pool.Dropping.Joins.{Lives-PhaseOf, returned-SameTasks}
use affinitypool.Pool.Dropping.Owners.{PhaseOf-Reach}
use mathlib.Core.Path.{subst}

-- Each worker has its first thread.
abbrev pub NoPanic : {Task : Type 0} → Pooled Task → Type 0
NoPanic d = (w : ℕ) → d.incarnation w ≡ 0

-- Nothing was dropped, and a worker that has not started has nothing in its deque.
record Clean {Task : Type 0} (s : System Task) : Type 0 where
  pub nothing_dropped : s.dropped ≡ []
  pub vacant : (w : ℕ) → (s.threads w).pc ≡ starting → s.queue.deques w ≡ []

module _ {Task : Type 0} where
  log_dropped-none :
      (sig : Signal Task) (log : List Task)
      → dropped_by sig ≡ []
      → log ≡ []
      → log_dropped sig log ≡ []
  log_dropped-none sig log h e = ground arith

  woken-starting : (t t' : Thread Task) → IsWoken t t' → t'.pc ≡ starting → t.pc ≡ starting
  woken-starting t t' w h = ground arith

  step-Clean :
      (env : Env Task) {n bound e : ℕ} (i : ℕ) (a : Action env.crossbeam) (c : env.condvar.Choice)
      (s s' : System Task)
      → Inv n bound e s
      → ((s.threads i).pc ≡ running → a ≢ panics)
      → step env bound s i a c ≡ some s'
      → Clean s
      → Clean s'
  step-Clean env {n} {bound} i a c s s' inv mild eq clean =
      let (lt, eff, turn, same) = step-turn env bound s s' i a c eq in
      let (fresh_none, drops_none) : IsUnbroken eff =
        Ensures-some IsUnbroken _ turn
          (act-IsUnbroken env i s.queue (s.threads i) (s.threads i).pc a (clean.vacant i) mild) in
      subst Clean (sym same) (record {
        nothing_dropped = log_dropped-none eff.signal s.dropped drops_none clean.nothing_dropped;
        vacant = λ w at.
            let before : (update s.threads i eff.thread w).pc ≡ starting =
              woken-starting _ _
                (wakes-IsWoken env bound c eff.signal (update s.threads i eff.thread) w) at in
            elim (ℕ_discrete i w) [
              | yes here ↦ absurd (
                  fresh_none (
                    ap (λ (t : Thread Task). t.pc) (sym (update_self s.threads i eff.thread))
                    ∙ subst (λ k. (update s.threads i eff.thread k).pc ≡ starting) (sym here)
                        before))
              | no apart ↦
                  (settled env inv i lt a turn).others_drained w (λ x. apart (sym x))
                    (clean.vacant w (
                      ap (λ (t : Thread Task). t.pc)
                        (sym (update_ne s.threads i w eff.thread apart))
                      ∙ before))
            ];
      })

-- No handle is stored behind the drain.
abbrev NoneLate : DropStage → List Handle → Type 0
NoneLate (joining hs) late = late ≡ []
NoneLate returned late = late ≡ []
NoneLate _ late = Unit

record Untouched {Task : Type 0} (d : Pooled Task) : Type 0 where
  pub clean : Clean d.system
  pub none_unstored : d.unstored ≡ []
  pub none_late : NoneLate d.stage d.thread_handles

module _ {Task : Type 0} (env : Env Task) (bound num_workers dropper : ℕ) (shards : Option ℕ)
    (pool : IsPool bound num_workers) where
  reached-Clean :
      (i : ℕ) (a : Action env.crossbeam) (c : env.condvar.Choice) (s s' : System Task)
      → Reach env bound num_workers shards s
      → ((s.threads i).pc ≡ running → a ≢ panics)
      → step env bound s i a c ≡ some s'
      → Clean s
      → Clean s'
  reached-Clean i a c s s' r mild eq clean =
      let (e, inv) = Reach-Inv env bound num_workers shards pool s r in
      step-Clean env i a c s s' inv mild eq clean

  Happens-Untouched :
      (d d' : Pooled Task) {m : Move env}
      → Reach env bound num_workers shards d.system
      → Happens env bound num_workers dropper d m d'
      → (NoPanic d → Untouched d)
      → NoPanic d'
      → Untouched d'
  Happens-Untouched d _ r (turned {s} i a c allowed mild e) before calm =
      let u = before calm in
      record {
        clean = reached-Clean i a c d.system s r mild e u.clean;
        none_unstored = u.none_unstored;
        none_late = u.none_late;
      }
  Happens-Untouched d _ r (crashed {s} i a c allowed at crash e) before calm =
      absurd (omega (arith, calm i, update_self d.incarnation i (suc (d.incarnation i))))
  Happens-Untouched d _ r (begun {s} c at owned e) before calm =
      let u = before calm in
      record {
        clean = reached-Clean dropper closes c d.system s r (λ x y. cc y) e u.clean;
        none_unstored = u.none_unstored;
        none_late = tt;
      }
  Happens-Untouched d _ r (drained at) before calm =
      let u = before calm in
      record { clean = u.clean; none_unstored = u.none_unstored; none_late = refl }
  Happens-Untouched d _ r (joined h hs at over) before calm =
      let u = before calm in
      record {
        clean = u.clean;
        none_unstored = u.none_unstored;
        none_late = subst (λ st. NoneLate st d.thread_handles) at u.none_late;
      }
  Happens-Untouched d _ r (finished at) before calm =
      let u = before calm in
      record {
        clean = u.clean;
        none_unstored = u.none_unstored;
        none_late = subst (λ st. NoneLate st d.thread_handles) at u.none_late;
      }
  Happens-Untouched d _ r (was_stored {x} {rest} k e) before calm =
      let nothing : take_at k [] ≡ some (x, rest) =
        subst (λ hs. take_at k hs ≡ some (x, rest)) (before calm).none_unstored e in
      absurd (cc nothing)

  start-Untouched : (q : Queue Task) → new num_workers shards ≡ some q → Untouched (new_pooled q)
  start-Untouched q made =
      let (count, same) = new-fresh num_workers shards q made in
      subst (λ x. Untouched (new_pooled x)) (sym same)
        (record {
          clean = record { nothing_dropped = refl; vacant = λ w at. refl };
          none_unstored = refl;
          none_late = tt;
        })

  module _ (foreign : num_workers ≤ dropper) where
    Lives-Untouched :
        (d : Pooled Task) → Lives env bound num_workers dropper shards d → NoPanic d → Untouched d
    Lives-Untouched _ (starts {q} made) calm = start-Untouched q made
    Lives-Untouched d' (moves {d} m l owned eq) calm =
        Happens-Untouched d d'
          (PhaseOf-Reach env bound num_workers dropper shards pool d.stage d.system
            (Lives-PhaseOf env bound num_workers dropper shards d foreign l))
          (advance-Happens env bound num_workers dropper m d d' owned eq) (Lives-Untouched d l) calm

    -- For a pool of at least one and at most `MAX_THREADS` workers among fewer than `usize::MAX`
    -- threads, whose first threads were all created and whose drop is called by a thread that is
    -- no worker while no such thread is in a call of the pool, with no push by such a thread
    -- from there on, in every state that the pool reaches up to the return of the drop, in any
    -- order of the turns of its threads, of the drop and of the sentries of workers that panic:
    -- if the drop has returned and no worker has panicked, then every worker has exited, and the
    -- runnables that were pushed are, with their multiplicity, those that `pop_blocking` has
    -- returned.
    pub returned-delivered :
        (d : Pooled Task)
        → Lives env bound num_workers dropper shards d
        → d.stage ≡ returned
        → NoPanic d
        → ((w : ℕ) → w < num_workers → (d.system.threads w).pc ≡ exited)
          × SameTasks d.system.sent d.system.delivered
    returned-delivered d l at calm =
        let u = Lives-Untouched d l calm in
        let late = subst (λ st. NoneLate st d.thread_handles) at u.none_late in
        let (gone, same) =
          returned-SameTasks env bound num_workers dropper shards pool d foreign l at
            (subst (λ hs. hs ++ d.thread_handles ≡ []) (sym u.none_unstored) late) in
        (
          gone,
          λ w. omega (
            arith,
            same w,
            weight-append w d.system.delivered d.system.dropped,
            ap (weight w) u.clean.nothing_dropped,
          ),
        )
