-- ===== src/Pool/Dropping/Winding.antt =====
-- src/lib.rs, src/sentry.rs and src/queue.rs: the moves of a pool whose drop has begun, and how many
-- there can be.
use affinitypool.Base.{
  ℕ, zero, suc, ◌+◌, ◌*◌, ◌≤◌, ◌≡◌, refl, ap, ◌∙◌, List, [], ◌∷◌, Option, none, some, arith, length,
  length-append,
}
use affinitypool.Queue.Threads.{Env}
use affinitypool.Queue.Turns.{Action}
use affinitypool.Queue.System.{System, Reach, step}
use affinitypool.Queue.System.Safety.{IsPool}
use affinitypool.Queue.Drain.{Tame, potential, stay, runs}
use affinitypool.Queue.Drain.Runs.{run-Spent}
use affinitypool.Pool.Dropping.{
  Handle, DropStage, in_use, shutting, joining, returned, Pooled, Move, goes, begins, cons_rest,
  take_at, advance, Owns, Lives, moves,
}
use affinitypool.Pool.Dropping.Moves.{
  Happens, turned, crashed, begun, drained, joined, finished, was_stored, advance-Happens,
}
use affinitypool.Pool.Dropping.Joins.{Lives-PhaseOf}
use affinitypool.Pool.Dropping.Owners.{PhaseOf-Reach}
use mathlib.Core.Path.{subst}

-- Tame turns of threads, and all moves of the drop but its call, and those of the sentries.
abbrev pub Calm : {Task : Type 0} (env : Env Task) → Move env → Type 0
Calm env (goes i a c) = Tame env.crossbeam a
Calm env (begins c) = ⊥
Calm env m = Unit

-- A number of them, in any order.
pub data Winds {Task : Type 0} (env : Env Task) (bound num_workers dropper : ℕ) (d : Pooled Task)
    : ℕ → Pooled Task → Type 0 where
  rests : Winds env bound num_workers dropper d 0 d
  winds :
      {k : ℕ} {d' d'' : Pooled Task} (m : Move env)
      → Winds env bound num_workers dropper d k d'
      → Calm env m
      → advance env bound num_workers dropper m d' ≡ some d''
      → Winds env bound num_workers dropper d (suc k) d''

-- What is left to do by the drop itself.
abbrev pub errands : DropStage → ℕ
errands in_use = 3
errands shutting = 2
errands (joining hs) = suc (length hs)
errands returned = 0

-- A panic leads to a handle to store, and a handle that is stored to one to join.
abbrev pub remaining : {Task : Type 0} → (mask n bound : ℕ) → Pooled Task → ℕ
remaining mask n bound d =
    3 * potential mask n bound d.system
    + 2 * length d.unstored
    + length d.thread_handles
    + errands d.stage

take_at-length :
    (k : ℕ) (hs : List Handle) (x : Handle) (rest : List Handle)
    → take_at k hs ≡ some (x, rest)
    → length hs ≡ suc (length rest)
take_at-length k [] x rest eq = absurd (cc eq)
take_at-length zero (y ∷ hs) x rest eq = ground (arith, eq)
take_at-length (suc k) (y ∷ hs) x rest eq = from (take_at k hs) (take_at-length k hs) eq
  where
    from :
        (o : Option (Handle × List Handle))
        → ((x : Handle) (rest : List Handle) → o ≡ some (x, rest) → length hs ≡ suc (length rest))
        → cons_rest y o ≡ some (x, rest)
        → suc (length hs) ≡ suc (length rest)
    from none h e = absurd (cc e)
    from (some (z, more)) h e = ground (arith, h z more refl, e)

pub Calm-Owns :
    {Task : Type 0} (env : Env Task) (bound num_workers dropper : ℕ) (m : Move env)
    (d : Pooled Task)
    → Calm env m
    → Owns env bound num_workers dropper m d
Calm-Owns env bound num_workers dropper (begins c) d calm = absurd calm
Calm-Owns env bound num_workers dropper m d calm = tt

module _ {Task : Type 0} (env : Env Task) (bound num_workers dropper : ℕ) (shards : Option ℕ)
    (pool : IsPool bound num_workers) where
  -- A tame turn takes from the potential, and leaves the mask.
  Tame-potential :
      (i : ℕ) (a : Action env.crossbeam) (c : env.condvar.Choice) (s s' : System Task)
      → Reach env bound num_workers shards s
      → Tame env.crossbeam a
      → step env bound s i a c ≡ some s'
      → (s'.queue.mask ≡ s.queue.mask)
        × (suc (potential s.queue.mask num_workers bound s')
            ≤ potential s.queue.mask num_workers bound s)
  Tame-potential i a c s s' r tame eq =
      let sp = run-Spent env bound num_workers shards pool s 1 s' r (runs i a c stay tame eq) in
      (sp.same_mask, omega (arith, sp.spent))

  -- Each calm move takes from what remains.
  Happens-less :
      (d d' : Pooled Task) {m : Move env}
      → Reach env bound num_workers shards d.system
      → Calm env m
      → Happens env bound num_workers dropper d m d'
      → (d'.system.queue.mask ≡ d.system.queue.mask)
        × (suc (remaining d.system.queue.mask num_workers bound d')
            ≤ remaining d.system.queue.mask num_workers bound d)
  Happens-less d _ r calm (turned {s} i a c allowed mild e) =
      let (same, less) = Tame-potential i a c d.system s r calm e in (same, omega (arith, less))
  Happens-less d _ r calm (crashed {s} i a c allowed at crash e) =
      let (same, less) = Tame-potential i a c d.system s r calm e in
      (same, omega (arith, less, length-append d.unstored ((i, suc (d.incarnation i)) ∷ [])))
  Happens-less d _ r calm (begun {s} c at owned e) = absurd calm
  Happens-less d _ r calm (drained at) = (refl, omega (arith, ap errands at))
  Happens-less d _ r calm (joined h hs at over) = (refl, omega (arith, ap errands at))
  Happens-less d _ r calm (finished at) = (refl, omega (arith, ap errands at))
  Happens-less d _ r calm (was_stored {x} {rest} k e) = (
    refl,
    omega (arith, take_at-length k d.unstored x rest e, length-append d.thread_handles (x ∷ [])),
  )

  -- What a number of calm moves keeps.
  pub record Wound (d : Pooled Task) (k : ℕ) (d' : Pooled Task) : Type 0 where
    pub lives : Lives env bound num_workers dropper shards d'
    pub same_mask : d'.system.queue.mask ≡ d.system.queue.mask
    pub spent :
        k + remaining d.system.queue.mask num_workers bound d'
        ≤ remaining d.system.queue.mask num_workers bound d

  pub Winds-Wound :
      (d : Pooled Task) (k : ℕ) (d' : Pooled Task)
      → num_workers ≤ dropper
      → Lives env bound num_workers dropper shards d
      → Winds env bound num_workers dropper d k d'
      → Wound d k d'
  Winds-Wound d zero d' foreign l rests = record {
    lives = l;
    same_mask = refl;
    spent = omega arith;
  }
  Winds-Wound d (suc k) d'' foreign l (winds {d' = d'} m w calm eq) =
      let before = Winds-Wound d k d' foreign l w in
      let r =
        PhaseOf-Reach env bound num_workers dropper shards pool d'.stage d'.system
          (Lives-PhaseOf env bound num_workers dropper shards d' foreign before.lives) in
      let owned = Calm-Owns env bound num_workers dropper m d' calm in
      let (same, less) =
        Happens-less d' d'' r calm
          (advance-Happens env bound num_workers dropper m d' d'' owned eq) in
      record {
        lives = moves m before.lives owned eq;
        same_mask = same ∙ before.same_mask;
        spent = omega (
          arith,
          before.spent,
          subst (λ k'. suc (remaining k' num_workers bound d'') ≤ remaining k' num_workers bound d')
              before.same_mask less,
        );
      }
