-- ===== src/Pool/Dropping/Returns.antt =====
-- src/lib.rs, src/sentry.rs and src/queue.rs: the drop of a pool comes to its return.
use affinitypool.Base.{ℕ, suc, zero, ◌+◌, ◌≤◌, ◌≡◌, ◌≢◌, refl, ◌⊎◌, inl, inr, Option, some, arith}
use affinitypool.Queue.Scan.Nearer.{Uncontended}
use affinitypool.Queue.Threads.{Env}
use affinitypool.Queue.System.Safety.{IsPool}
use affinitypool.Pool.Dropping.{
  DropStage, in_use, shutting, joining, returned, Pooled, Move, advance, Lives,
}
use affinitypool.Pool.Dropping.Winding.{Calm, Winds, rests, winds, Winds-Wound, remaining}
use affinitypool.Pool.Dropping.Progress.{Winds-Begun, Next-possible}

returned_or_not : (st : DropStage) → (st ≡ returned) ⊎ (st ≢ returned)
returned_or_not returned = inl refl
returned_or_not in_use = inr (λ e. cc e)
returned_or_not shutting = inr (λ e. cc e)
returned_or_not (joining hs) = inr (λ e. cc e)

module _ {Task : Type 0} (env : Env Task) (bound num_workers dropper : ℕ) (shards : Option ℕ)
    (pool : IsPool bound num_workers) (foreign : num_workers ≤ dropper) where
  -- For a pool of at least one and at most `MAX_THREADS` workers among fewer than `usize::MAX`
  -- threads, whose first threads were all created and whose drop is called by a thread that is
  -- no worker while no such thread is in a call of the pool, with no push by such a thread from
  -- there on, in every state that the pool reaches up to the return of the drop, in any order of
  -- the turns of its threads, of the drop and of the sentries of workers that panic: of moves
  -- from there, in any order, that are turns of threads with which nothing is pushed, `shutdown`
  -- is not called and no attempt to steal answers `Retry`, moves of the drop, or pushes of a
  -- handle by a sentry, the number and what is `remaining` in the state that they lead to are
  -- together at most what is `remaining` in the state that they start from.
  pub winding-bounded :
      (d : Pooled Task) (k : ℕ) (d' : Pooled Task)
      → Lives env bound num_workers dropper shards d
      → Winds env bound num_workers dropper d k d'
      → k + remaining d.system.queue.mask num_workers bound d'
        ≤ remaining d.system.queue.mask num_workers bound d
  winding-bounded d k d' l w =
      (Winds-Wound env bound num_workers dropper shards pool d k d' foreign l w).spent

  module _ (calm : env.crossbeam.Choice) (uncontended : Uncontended env.crossbeam calm)
      (c : env.condvar.Choice) where
    -- For any `crossbeam_deque` that answers as documented and may do so without `Retry`: for a
    -- pool of at least one and at most `MAX_THREADS` workers among fewer than `usize::MAX`
    -- threads, whose first threads were all created and whose drop is called by a thread that is
    -- no worker while no such thread is in a call of the pool, with no push by such a thread
    -- from there on, in every state that the pool reaches up to the return of the drop, in any
    -- order of the turns of its threads, of the drop and of the sentries of workers that panic:
    -- if the drop has begun, and moves from there, in any order, that are turns of threads with
    -- which nothing is pushed, `shutdown` is not called and no attempt to steal answers `Retry`,
    -- moves of the drop, or pushes of a handle by a sentry, lead to a state where no such move
    -- is possible, then the drop has returned there.
    pub stuck-returned :
        (d : Pooled Task) (k : ℕ) (d' : Pooled Task)
        → Lives env bound num_workers dropper shards d
        → d.stage ≢ in_use
        → Winds env bound num_workers dropper d k d'
        → ((m : Move env) (d'' : Pooled Task)
            → Calm env m
            → advance env bound num_workers dropper m d' ≡ some d''
            → ⊥)
        → d'.stage ≡ returned
    stuck-returned d k d' l begun w stuck = elim (returned_or_not d'.stage) [
      | inl over ↦ over
      | inr on ↦
          let after = Winds-Wound env bound num_workers dropper shards pool d k d' foreign l w in
          let (m, d'', mild, eq) =
            Next-possible env bound num_workers dropper shards pool foreign calm uncontended c d'
              after.lives (Winds-Begun env bound num_workers dropper shards d k d' w begun) on in
          absurd (stuck m d'' mild eq)
    ]

    returned_or_further :
        (d : Pooled Task) (k : ℕ) (d' : Pooled Task)
        → Lives env bound num_workers dropper shards d
        → d.stage ≢ in_use
        → Winds env bound num_workers dropper d k d'
        → (d'.stage ≡ returned)
          ⊎ ((d'' : Pooled Task) × Winds env bound num_workers dropper d (suc k) d'')
    returned_or_further d k d' l begun w = elim (returned_or_not d'.stage) [
      | inl over ↦ inl over
      | inr on ↦
          let after = Winds-Wound env bound num_workers dropper shards pool d k d' foreign l w in
          let (m, d'', mild, eq) =
            Next-possible env bound num_workers dropper shards pool foreign calm uncontended c d'
              after.lives (Winds-Begun env bound num_workers dropper shards d k d' w begun) on in
          inr (d'', winds m w mild eq)
    ]

    -- With enough fuel, the moves go on to the return.
    wind_on :
        (fuel k : ℕ) (d d' : Pooled Task)
        → Lives env bound num_workers dropper shards d
        → d.stage ≢ in_use
        → Winds env bound num_workers dropper d k d'
        → remaining d.system.queue.mask num_workers bound d ≤ k + fuel
        → (k' : ℕ) × (last : Pooled Task) × Winds env bound num_workers dropper d k' last
          × (last.stage ≡ returned)
    wind_on zero k d d' l begun w enough = elim (returned_or_further d k d' l begun w) [
      | inl over ↦ (k, d', w, over)
      | inr (d'', w') ↦ absurd (omega (arith, enough, winding-bounded d (suc k) d'' l w'))
    ]
    wind_on (suc fuel) k d d' l begun w enough = elim (returned_or_further d k d' l begun w) [
      | inl over ↦ (k, d', w, over)
      | inr (d'', w') ↦ wind_on fuel (suc k) d d'' l begun w' (omega (arith, enough))
    ]

    -- x
    pub drop-returns :
        (d : Pooled Task)
        → Lives env bound num_workers dropper shards d
        → d.stage ≢ in_use
        → (k : ℕ) × (d' : Pooled Task) × Winds env bound num_workers dropper d k d'
          × (d'.stage ≡ returned)
    drop-returns d l begun =
        wind_on (remaining d.system.queue.mask num_workers bound d) 0 d d l begun rests
          (omega arith)
