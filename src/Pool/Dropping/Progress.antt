-- ===== src/Pool/Dropping/Progress.antt =====
-- src/lib.rs, src/sentry.rs and src/queue.rs: the moves that are possible once the drop of a pool has begun.
use affinitypool.Base.{
  ℕ, suc, zero, ◌≤◌, ◌≡◌, ◌≢◌, refl, ◌⊎◌, inl, inr, List, [], ◌∷◌, ◌++◌, Option, some, true,
  Bool-cases, ltb,
}
use affinitypool.Queue.Scan.Nearer.{Uncontended}
use affinitypool.Queue.Threads.{running, exited, Env}
use affinitypool.Queue.Turns.{Action, go, finishes, panics}
use affinitypool.Queue.System.{System, Reach, step}
use affinitypool.Queue.System.Safety.{IsPool}
use affinitypool.Queue.System.Closing.{Closed}
use affinitypool.Queue.Drain.{Tame, Run, stay, runs}
use affinitypool.Queue.Drain.Rest.{AtRest, rests_or_runs}
use affinitypool.Queue.Drain.Ends.{rested-IsJoined}
use affinitypool.Pool.Dropping.{
  Handle, DropStage, in_use, shutting, joining, returned, Pooled, Move, goes, drains, joins, stores,
  has_ended, is_allowed, note_panic, advance, Lives,
}
use affinitypool.Pool.Dropping.Handles.{Among}
use affinitypool.Pool.Dropping.Moves.{
  Happens, turned, crashed, begun, drained, joined, finished, was_stored, advance-Happens,
}
use affinitypool.Pool.Dropping.Tracked.{left_to_join}
use affinitypool.Pool.Dropping.Joins.{PhaseOf, Lives-PhaseOf}
use affinitypool.Pool.Dropping.Owners.{Lives-Owned, PhaseOf-Reach}
use affinitypool.Pool.Dropping.Winding.{Calm, Winds, rests, winds, Calm-Owns}

module _ {Task : Type 0} (env : Env Task) (bound num_workers dropper : ℕ) (shards : Option ℕ) where
  abbrev Begun : DropStage → Type 0
  Begun st = st ≢ in_use

  Happens-Begun :
      (d d' : Pooled Task) {m : Move env}
      → Happens env bound num_workers dropper d m d'
      → Begun d.stage
      → Begun d'.stage
  Happens-Begun d _ (turned i a c allowed mild e) b = b
  Happens-Begun d _ (crashed i a c allowed at crash e) b = b
  Happens-Begun d _ (begun c at owned e) b = λ e'. cc e'
  Happens-Begun d _ (drained at) b = λ e'. cc e'
  Happens-Begun d _ (joined h hs at over) b = λ e'. cc e'
  Happens-Begun d _ (finished at) b = λ e'. cc e'
  Happens-Begun d _ (was_stored k e) b = b

  pub Winds-Begun :
      (d : Pooled Task) (k : ℕ) (d' : Pooled Task)
      → Winds env bound num_workers dropper d k d'
      → Begun d.stage
      → Begun d'.stage
  Winds-Begun d zero d' rests b = b
  Winds-Begun d (suc k) d'' (winds {d' = d'} m w calm eq) b =
      Happens-Begun d' d''
        (advance-Happens env bound num_workers dropper m d' d''
          (Calm-Owns env bound num_workers dropper m d' calm) eq)
        (Winds-Begun d k d' w b)

  -- A calm move that is possible.
  abbrev pub Next : Pooled Task → Type 0
  Next d =
      (m : Move env) × (d' : Pooled Task) × Calm env m
      × (advance env bound num_workers dropper m d ≡ some d')

  Tame-is_allowed :
      (st : DropStage) (i : ℕ) (a : Action env.crossbeam)
      → Tame env.crossbeam a
      → st ≢ returned
      → is_allowed env bound num_workers dropper st i a ≡ true
  Tame-is_allowed returned i a tame on = absurd (on refl)
  Tame-is_allowed in_use i (go c) tame on = refl
  Tame-is_allowed in_use i finishes tame on = refl
  Tame-is_allowed in_use i panics tame on = refl
  Tame-is_allowed in_use i a tame on = absurd tame
  Tame-is_allowed shutting i (go c) tame on = refl
  Tame-is_allowed shutting i finishes tame on = refl
  Tame-is_allowed shutting i panics tame on = refl
  Tame-is_allowed shutting i a tame on = absurd tame
  Tame-is_allowed (joining hs) i (go c) tame on = refl
  Tame-is_allowed (joining hs) i finishes tame on = refl
  Tame-is_allowed (joining hs) i panics tame on = refl
  Tame-is_allowed (joining hs) i a tame on = absurd tame

  thread_goes :
      (d : Pooled Task) (i : ℕ) (a : Action env.crossbeam) (c : env.condvar.Choice)
      (s : System Task)
      → d.stage ≢ returned
      → Tame env.crossbeam a
      → step env bound d.system i a c ≡ some s
      → Next d
  unfolding advance
  thread_goes d i a c s on tame eq = (
    goes i a c,
    record (note_panic env bound num_workers dropper (d.system.threads i).pc a i d) { system = s },
    tame,
    rw (Tame-is_allowed d.stage i a tame on, eq) refl,
  )

  ended_at_rest :
      (d : Pooled Task) (h : Handle)
      → d.unstored ≡ []
      → (d.system.threads h.0).pc ≡ exited
      → has_ended h d ≡ true
  unfolding has_ended
  ended_at_rest d (w, k) stored_all gone = elim (Bool-cases (ltb k (d.incarnation w))) [
    | inl older ↦ rw (older, stored_all) refl
    | inr present ↦ rw (present, gone) refl
  ]

  -- At rest, the drop or a sentry has a move.
  drop_goes :
      (st : DropStage) (d : Pooled Task)
      → d.stage ≡ st
      → st ≢ in_use
      → st ≢ returned
      → d.unstored ≡ []
      → (d.system.threads dropper).pc ≡ running
      → ((h : Handle) → Among h (left_to_join st) → (d.system.threads h.0).pc ≡ exited)
      → Next d
  unfolding advance
  drop_goes in_use d at b on stored_all free gone = absurd (b refl)
  drop_goes shutting d at b on stored_all free gone = (
    drains,
    record d { thread_handles = []; stage = joining d.thread_handles },
    tt,
    rw (at, free) refl,
  )
  drop_goes (joining []) d at b on stored_all free gone =
      (joins, record d { thread_count = 0; stage = returned }, tt, rw at refl)
  drop_goes (joining (h ∷ hs)) d at b on stored_all free gone = (
    joins,
    record d { stage = joining hs },
    tt,
    rw (at, ended_at_rest d h stored_all (gone h (inl refl))) refl,
  )
  drop_goes returned d at b on stored_all free gone = absurd (on refl)

  sentry_goes : (d : Pooled Task) → (d.unstored ≡ []) ⊎ Next d
  unfolding advance
  sentry_goes d = from d.unstored refl
    where
      from : (hs : List Handle) → d.unstored ≡ hs → (d.unstored ≡ []) ⊎ Next d
      from [] e = inl e
      from (h ∷ hs) e = inr (
        stores 0,
        record d { thread_handles = d.thread_handles ++ (h ∷ []); unstored = hs },
        tt,
        rw e refl,
      )

  module _ (pool : IsPool bound num_workers) (foreign : num_workers ≤ dropper) where
    rest_goes :
        (d : Pooled Task)
        → Lives env bound num_workers dropper shards d
        → d.stage ≢ in_use
        → d.stage ≢ returned
        → d.unstored ≡ []
        → AtRest num_workers d.system
        → Next d
    rest_goes d l b on stored_all rest =
        drop_goes d.stage d refl b on stored_all (rest.callers dropper foreign) (λ h m.
          (rested-IsJoined env bound num_workers shards pool d.system 0 d.system closed stay
              rest).all_exited
            h.0 ((Lives-Owned env bound num_workers dropper shards pool d foreign l).left_over h m))
      where
        closed_in :
            (st : DropStage)
            → st ≢ in_use
            → PhaseOf env bound num_workers dropper shards st d.system
            → Closed env bound num_workers shards d.system
        closed_in in_use b ph = absurd (b refl)
        closed_in shutting b ph = ph
        closed_in (joining hs) b ph = ph
        closed_in returned b ph = ph

        closed : Closed env bound num_workers shards d.system
        closed =
            closed_in d.stage b (Lives-PhaseOf env bound num_workers dropper shards d foreign l)

    -- Until the drop has returned, some calm move is possible.
    pub Next-possible :
        (calm : env.crossbeam.Choice) (uncontended : Uncontended env.crossbeam calm)
        (c : env.condvar.Choice) (d : Pooled Task)
        → Lives env bound num_workers dropper shards d
        → d.stage ≢ in_use
        → d.stage ≢ returned
        → Next d
    Next-possible calm uncontended c d l b on = elim (sentry_goes d) [
      | inr next ↦ next
      | inl stored_all ↦
          (elim (rests_or_runs env bound num_workers shards pool calm uncontended c d.system 0
            d.system r stay) [
              | inl rest ↦ rest_goes d l b on stored_all rest
              | inr (s, run) ↦ first_turn s run
            ])
    ]
      where
        r : Reach env bound num_workers shards d.system
        r =
            PhaseOf-Reach env bound num_workers dropper shards pool d.stage d.system
              (Lives-PhaseOf env bound num_workers dropper shards d foreign l)

        first_turn : (s : System Task) → Run env bound d.system 1 s → Next d
        first_turn s (runs i a c' stay tame eq) = thread_goes d i a c' s on tame eq
