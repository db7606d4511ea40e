-- ===== src/Queue/Drain/Rest.antt =====
-- src/queue.rs: the rest of all threads, and the turns that are left before it.
use affinitypool.Base.{
  ℕ, zero, suc, ◌+◌, ◌≤◌, ◌<◌, ◌≡◌, ◌≢◌, refl, sym, ◌⊎◌, inl, inr, Option, ℕ_discrete, dec_lt, some,
  false, arith,
}
use affinitypool.Queue.Scan.{own}
use affinitypool.Queue.Scan.Nearer.{Uncontended}
use affinitypool.Queue.Threads.{Thread, asleep, exited, running, scanning, first, quiet, Env}
use affinitypool.Queue.Turns.{Action, go, finishes, act}
use affinitypool.Queue.Turns.Classes.{HasRole}
use affinitypool.Base.Family.{update, update_ne}
use affinitypool.Queue.System.{System, Reach, init, start, later, step, after}
use affinitypool.Queue.System.Wake.{IsWoken, wakes-IsWoken}
use affinitypool.Queue.System.Preserve.{step-turn}
use affinitypool.Queue.System.Safety.{IsPool, Reach-Inv}
use affinitypool.Queue.System.Liveness.{step-possible, ltb-true}
use affinitypool.Queue.Drain.{Tame, potential, Run, stay, runs}
use affinitypool.Queue.Drain.Runs.{run-Spent, run-bounded}
use mathlib.Core.Path.{subst}

module _ {Task : Type 0} where
  -- Asleep, at its exit, or in a caller's own code.
  abbrev pub Rests : (num_workers i : ℕ) → Thread Task → Type 0
  Rests num_workers i t = (t.pc ≡ asleep) ⊎ (t.pc ≡ exited) ⊎ ((num_workers ≤ i) × (t.pc ≡ running))

  Rests-or_not : (n i : ℕ) (t : Thread Task) → Rests n i t ⊎ (Rests n i t → ⊥)
  Rests-or_not n i t = ground arith

  running_or_not : (t : Thread Task) → (t.pc ≡ running) ⊎ (t.pc ≢ running)
  running_or_not t = ground arith

  -- A thread that is not at rest, or none.
  restless :
      (n bound : ℕ) (ts : ℕ → Thread Task)
      → ((i : ℕ) → i < bound → Rests n i (ts i)) ⊎ ((i : ℕ) × (i < bound) × (Rests n i (ts i) → ⊥))
  restless n zero ts = inl (λ i lt. absurd (omega arith))
  restless n (suc bound) ts = elim (restless n bound ts) [
    | inr (i, lt, late) ↦ inr (i, omega arith, late)
    | inl all ↦ (elim (Rests-or_not n bound (ts bound)) [
      | inr late ↦ inr (bound, omega arith, late)
      | inl last ↦ inl (λ i lt. elim (ℕ_discrete i bound) [
        | yes same ↦ subst (λ k. Rests n k (ts k)) (sym same) last
        | no apart ↦ all i (omega arith)
      ])
    ])
  ]

  woken-running : (t t' : Thread Task) → IsWoken t t' → t.pc ≡ running → t'.pc ≡ running
  woken-running t t' w h = ground arith

  foreign-running :
      (n i : ℕ) (t : Thread Task) → n ≤ i → HasRole n i t t.pc → Rests n i t → t.pc ≡ running
  foreign-running n i t le role rests = ground arith

-- All threads are at rest.
pub record AtRest {Task : Type 0} (num_workers : ℕ) (s : System Task) : Type 0 where
  pub callers : (i : ℕ) → num_workers ≤ i → (s.threads i).pc ≡ running
  pub workers :
      (i : ℕ) → i < num_workers → ((s.threads i).pc ≡ asleep) ⊎ ((s.threads i).pc ≡ exited)

module _ {Task : Type 0} (env : Env Task) (bound num_workers : ℕ) (shards : Option ℕ)
    (pool : IsPool bound num_workers) where
  -- The threads from `bound` on never move.
  Reach-above :
      (s : System Task)
      → Reach env bound num_workers shards s
      → (i : ℕ) → bound ≤ i
      → num_workers ≤ i
      → (s.threads i).pc ≡ running
  Reach-above _ (start {q} made) i above foreign =
      let (e, inv) = Reach-Inv env bound num_workers shards pool (init q) (start made) in
      ground (arith, inv.num_workers)
  Reach-above s' (later {s = s} i a c r eq) j above foreign =
      let (lt, eff, turn, same) = step-turn env bound s s' i a c eq in
      subst (λ (x : System Task). (x.threads j).pc ≡ running) (sym same)
        (woken-running (s.threads j) ((after env bound s i c eff).threads j)
          (subst (λ t. IsWoken t ((after env bound s i c eff).threads j))
            (update_ne s.threads i j eff.thread (omega arith))
            (wakes-IsWoken env bound c eff.signal (update s.threads i eff.thread) j))
          (Reach-above s r j above foreign))

  at_rest :
      (s : System Task)
      → Reach env bound num_workers shards s
      → ((i : ℕ) → i < bound → Rests num_workers i (s.threads i))
      → AtRest num_workers s
  at_rest s r all =
      let (e, inv) = Reach-Inv env bound num_workers shards pool s r in
      record {
        callers = λ i le. elim (dec_lt i bound) [
          | yes below ↦ foreign-running num_workers i (s.threads i) le (inv.role i) (all i below)
          | no above ↦ Reach-above s r i (omega arith) le
        ];
        workers = λ i lt. elim (all i (omega (arith, pool.among))) [
          | inl sleeps ↦ inl sleeps
          | inr (inl left) ↦ inr left
          | inr (inr (le, at)) ↦ absurd (omega arith)
        ];
      }

  module _ (calm : env.crossbeam.Choice) (uncontended : Uncontended env.crossbeam calm)
      (d : env.condvar.Choice) where
    -- A worker in a runnable can return from it.
    finish-possible :
        (s : System Task) (w : ℕ)
        → Reach env bound num_workers shards s
        → w < num_workers
        → (s.threads w).pc ≡ running
        → (s' : System Task) × (step env bound s w finishes d ≡ some s')
    unfolding step act
    finish-possible s w r lt at =
        let (e, inv) = Reach-Inv env bound num_workers shards pool s r in
        elim (subst (HasRole num_workers w (s.threads w)) at (inv.role w))
          as (λ _. (s' : System Task) × (step env bound s w finishes d ≡ some s')) [
            | inl (worker, below) ↦ (
              after env bound s w d (record {
                queue = s.queue;
                thread = record (s.threads w) { pc = scanning first own false };
                signal = quiet;
              }),
              rw (ltb-true w bound (omega (arith, pool.among)), at, worker) refl,
            )
            | inr (foreign, above) ↦ absurd (omega arith)
          ]

    -- While a thread is not at rest, some thread has a tame turn.
    Tame-possible :
        (s : System Task) (i : ℕ)
        → Reach env bound num_workers shards s
        → i < bound
        → (Rests num_workers i (s.threads i) → ⊥)
        → (k : ℕ) × (a : Action env.crossbeam) × (s' : System Task) × Tame env.crossbeam a
          × (step env bound s k a d ≡ some s')
    Tame-possible s i r lt late = elim (running_or_not (s.threads i)) [
      | inl at ↦
          let (s', eq) =
            finish-possible s i r
              (elim (dec_lt i num_workers) [
                | yes worker ↦ worker
                | no caller ↦ absurd (late (inr (inr (omega arith, at))))
              ])
              at in
          (i, finishes, s', tt, eq)
      | inr away ↦
          let (k, s', eq, which) =
            step-possible env bound num_workers shards pool s i calm d r lt (λ e. late (inl e))
              (λ e. late (inr (inl e))) away in
          (k, go calm, s', uncontended, eq)
    ]

    -- Where no thread has a tame turn, all are at rest.
    pub stuck-AtRest :
        (s : System Task)
        → Reach env bound num_workers shards s
        → ((i : ℕ) (a : Action env.crossbeam) (s' : System Task)
            → Tame env.crossbeam a
            → step env bound s i a d ≡ some s'
            → ⊥)
        → AtRest num_workers s
    stuck-AtRest s r stuck = elim (restless num_workers bound s.threads) [
      | inl all ↦ at_rest s r all
      | inr (i, lt, late) ↦
          let (k, a, s', tame, eq) = Tame-possible s i r lt late in absurd (stuck k a s' tame eq)
    ]

    -- Where no worker is in a runnable and no thread has a turn of its own, all are at rest.
    pub still-AtRest :
        (s : System Task)
        → Reach env bound num_workers shards s
        → ((w : ℕ) → w < num_workers → (s.threads w).pc ≢ running)
        → ((i : ℕ) (c : env.crossbeam.Choice) (s' : System Task)
            → Uncontended env.crossbeam c
            → step env bound s i (go c) d ≡ some s'
            → ⊥)
        → AtRest num_workers s
    still-AtRest s r idle stuck = elim (restless num_workers bound s.threads) [
      | inl all ↦ at_rest s r all
      | inr (i, lt, late) ↦ (elim (running_or_not (s.threads i)) [
        | inl at ↦ (elim (dec_lt i num_workers) [
          | yes worker ↦ absurd (idle i worker at)
          | no caller ↦ absurd (late (inr (inr (omega arith, at))))
        ])
        | inr away ↦
            let (k, s', eq, which) =
              step-possible env bound num_workers shards pool s i calm d r lt (λ e. late (inl e))
                (λ e. late (inr (inl e))) away in
            absurd (stuck k calm s' uncontended eq)
      ])
    ]

    pub rests_or_runs :
        (s : System Task) (k : ℕ) (s' : System Task)
        → Reach env bound num_workers shards s
        → Run env bound s k s'
        → AtRest num_workers s' ⊎ ((s'' : System Task) × Run env bound s (suc k) s'')
    rests_or_runs s k s' r run =
        let sp = run-Spent env bound num_workers shards pool s k s' r run in
        elim (restless num_workers bound s'.threads) [
          | inl all ↦ inl (at_rest s' sp.reached all)
          | inr (i, lt, late) ↦
              let (j, a, s'', tame, eq) = Tame-possible s' i sp.reached lt late in
              inr (s'', runs j a d run tame eq)
        ]

    -- With enough fuel, a run goes on to the rest of all threads.
    go_on :
        (fuel k : ℕ) (s s' : System Task)
        → Reach env bound num_workers shards s
        → Run env bound s k s'
        → potential s.queue.mask num_workers bound s ≤ k + fuel
        → (k' : ℕ) × (last : System Task) × Run env bound s k' last × AtRest num_workers last
    go_on zero k s s' r run enough = elim (rests_or_runs s k s' r run) [
      | inl rest ↦ (k, s', run, rest)
      | inr (s'', run') ↦ absurd (
          omega (arith, enough, run-bounded env bound num_workers shards pool s (suc k) s'' r run'))
    ]
    go_on (suc fuel) k s s' r run enough = elim (rests_or_runs s k s' r run) [
      | inl rest ↦ (k, s', run, rest)
      | inr (s'', run') ↦ go_on fuel (suc k) s s'' r run' (omega (arith, enough))
    ]

    pub AtRest-reached :
        (s : System Task)
        → Reach env bound num_workers shards s
        → (k : ℕ) × (s' : System Task) × Run env bound s k s' × AtRest num_workers s'
    AtRest-reached s r =
        go_on (potential s.queue.mask num_workers bound s) 0 s s r stay (omega arith)
