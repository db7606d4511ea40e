-- ===== src/Pool/Dropping/Owners.antt =====
-- src/lib.rs and src/sentry.rs: every handle of a pool belongs to one of its workers.
use affinitypool.Base.{ℕ, ◌≤◌, ◌<◌, ◌≡◌, sym, inl, inr, List, [], ◌∷◌, ◌++◌, Option, none, some}
use affinitypool.Queue.{Queue, new}
use affinitypool.Queue.Threads.{running, Env}
use affinitypool.Queue.Turns.{panics, act}
use affinitypool.Queue.Turns.Classes.{HasRole}
use affinitypool.Queue.System.{System, Reach, step}
use affinitypool.Queue.System.Invariant.{new-fresh}
use affinitypool.Queue.System.Preserve.{step-turn}
use affinitypool.Queue.System.Safety.{IsPool, Reach-Inv}
use affinitypool.Queue.System.Closing.{Closed-Reach}
use affinitypool.Pool.Dropping.{
  Handle, DropStage, in_use, shutting, joining, returned, Pooled, Move, new_pooled, Lives, starts,
  moves,
}
use affinitypool.Pool.Dropping.Handles.{
  Among, Among-append_split, TakenFrom, take_at-TakenFrom, Among-first_handles,
}
use affinitypool.Pool.Dropping.Moves.{
  Happens, turned, crashed, begun, drained, joined, finished, was_stored, advance-Happens,
}
use affinitypool.Pool.Dropping.Tracked.{left_to_join}
use affinitypool.Pool.Dropping.Joins.{PhaseOf, Lives-PhaseOf}
use mathlib.Core.Path.{subst}

abbrev pub OfWorkers : ℕ → List Handle → Type 0
OfWorkers n hs = (h : Handle) → Among h hs → h.0 < n

pub record Owned {Task : Type 0} (n : ℕ) (d : Pooled Task) : Type 0 where
  pub unstored : OfWorkers n d.unstored
  pub handles : OfWorkers n d.thread_handles
  pub left_over : OfWorkers n (left_to_join d.stage)

module _ (n : ℕ) where
  OfWorkers-append :
      (xs : List Handle) (x : Handle) → OfWorkers n xs → x.0 < n → OfWorkers n (xs ++ (x ∷ []))
  OfWorkers-append xs x all lt h m = elim (Among-append_split h xs (x ∷ []) m) [
    | inl old ↦ all h old
    | inr (inl same) ↦ subst (λ y. y.0 < n) (sym same) lt
    | inr (inr more) ↦ absurd more
  ]

module _ {Task : Type 0} (env : Env Task) (bound num_workers dropper : ℕ) (shards : Option ℕ)
    (pool : IsPool bound num_workers) where
  pub PhaseOf-Reach :
      (st : DropStage) (s : System Task)
      → PhaseOf env bound num_workers dropper shards st s
      → Reach env bound num_workers shards s
  PhaseOf-Reach in_use s (r, open') = r
  PhaseOf-Reach shutting s closed = Closed-Reach env bound num_workers shards s closed
  PhaseOf-Reach (joining hs) s closed = Closed-Reach env bound num_workers shards s closed
  PhaseOf-Reach returned s closed = Closed-Reach env bound num_workers shards s closed

  foreign_calm :
      (i : ℕ) (s s' : System Task) (c : env.condvar.Choice)
      → (s.threads i).pc ≡ running
      → (s.threads i).current_worker ≡ none
      → step env bound s i panics c ≡ some s'
      → ⊥
  unfolding act
  foreign_calm i s s' c at foreign eq =
      let (lt, eff, turn, same) = step-turn env bound s s' i panics c eq in
      cc (rw (at, foreign) at turn)

  -- Only workers unwind with a sentry.
  crashed_worker :
      (i : ℕ) (s s' : System Task) (c : env.condvar.Choice)
      → Reach env bound num_workers shards s
      → (s.threads i).pc ≡ running
      → step env bound s i panics c ≡ some s'
      → i < num_workers
  crashed_worker i s s' c r at eq =
      let (e, inv) = Reach-Inv env bound num_workers shards pool s r in
      elim (subst (HasRole num_workers i (s.threads i)) at (inv.role i)) as (λ _. i < num_workers) [
        | inl (worker, below) ↦ below
        | inr (foreign, above) ↦ absurd (foreign_calm i s s' c at foreign eq)
      ]

  Happens-Owned :
      (d d' : Pooled Task) {m : Move env}
      → Reach env bound num_workers shards d.system
      → Happens env bound num_workers dropper d m d'
      → Owned num_workers d
      → Owned num_workers d'
  Happens-Owned d _ r (turned {s} i a c allowed mild e) o = record {
    unstored = o.unstored;
    handles = o.handles;
    left_over = o.left_over;
  }
  Happens-Owned d _ r (crashed {s} i a c allowed at crash e) o = record {
    unstored = OfWorkers-append num_workers d.unstored _ o.unstored (
        crashed_worker i d.system s c r at
          (subst (λ b. step env bound d.system i b c ≡ some s) crash e));
    handles = o.handles;
    left_over = o.left_over;
  }
  Happens-Owned d _ r (begun {s} c at owned e) o = record {
    unstored = o.unstored;
    handles = o.handles;
    left_over = λ h m. absurd m;
  }
  Happens-Owned d _ r (drained at) o = record {
    unstored = o.unstored;
    handles = λ h m. absurd m;
    left_over = o.handles;
  }
  Happens-Owned d _ r (joined h hs at over) o = record {
    unstored = o.unstored;
    handles = o.handles;
    left_over =
        λ x m. subst (λ st. OfWorkers num_workers (left_to_join st)) at o.left_over x (inr m);
  }
  Happens-Owned d _ r (finished at) o = record {
    unstored = o.unstored;
    handles = o.handles;
    left_over = λ h m. absurd m;
  }
  Happens-Owned d _ r (was_stored {x} {rest} k e) o =
      let (there, split, back) = subst (TakenFrom d.unstored) e (take_at-TakenFrom k d.unstored) in
      record {
        unstored = λ h m. o.unstored h (back h m);
        handles = OfWorkers-append num_workers d.thread_handles x o.handles (o.unstored x there);
        left_over = o.left_over;
      }

  start-Owned :
      (q : Queue Task) → new num_workers shards ≡ some q → Owned num_workers (new_pooled q)
  start-Owned q made =
      let (count, same) = new-fresh num_workers shards q made in
      subst (λ x. Owned num_workers (new_pooled x)) (sym same)
        (record {
          unstored = λ h m. absurd m;
          handles = Among-first_handles num_workers;
          left_over = λ h m. absurd m;
        })

  pub Lives-Owned :
      (d : Pooled Task)
      → num_workers ≤ dropper
      → Lives env bound num_workers dropper shards d
      → Owned num_workers d
  Lives-Owned _ foreign (starts {q} made) = start-Owned q made
  Lives-Owned d' foreign (moves {d} m l owned eq) =
      Happens-Owned d d'
        (PhaseOf-Reach d.stage d.system
          (Lives-PhaseOf env bound num_workers dropper shards d foreign l))
        (advance-Happens env bound num_workers dropper m d d' owned eq) (Lives-Owned d foreign l)
