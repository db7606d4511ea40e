-- ===== src/Pool/Dropping.antt =====
-- src/lib.rs and src/sentry.rs: the drop of a pool, turn by turn between those of its workers and of the
-- sentries of workers that panic.
pub mod Handles
pub mod Phases
pub mod Moves
pub mod Exits
pub mod Tracked
pub mod Joins
pub mod Owners
pub mod Unbroken
pub mod Winding
pub mod Progress
pub mod Returns
use affinitypool.Base.{
  ℕ, suc, zero, ◌≡◌, ◌≤◌, List, [], ◌∷◌, ◌++◌, Option, none, some, Bool, true, false, not, ◌&&◌,
  ◌||◌, ltb, ◌==◌, if◌then◌else◌,
}
use affinitypool.Base.Family.{update}
use affinitypool.Queue.{Queue, new, ◌>>=◌}
use affinitypool.Queue.Threads.{Pc, running, exited, Env}
use affinitypool.Queue.Turns.{Action, pushes, closes, panics, fetch_add}
use affinitypool.Queue.System.{System, init, step}

-- The handle of a thread: its worker, and which of the threads it is that the worker has had.
abbrev pub Handle : Type 0
Handle = ℕ × ℕ

-- Where the drop stands: not called, in `shutdown`, with these handles left to join, or over.
pub data DropStage : Type 0 where
  in_use shutting : DropStage
  joining : List Handle → DropStage
  returned : DropStage

-- The queue and the threads, and what the pool knows of them. `incarnation w` is the present thread of
-- the worker `w`. A sentry has started the threads of `unstored`, and not stored their handles yet.
pub record Pooled (Task : Type 0) : Type 0 where
  pub system : System Task
  pub incarnation : ℕ → ℕ
  pub thread_count : ℕ
  pub thread_handles : List Handle
  pub unstored : List Handle
  pub stage : DropStage

-- A turn of a thread, one of the drop, or the push of a handle by the sentry that has started its thread.
pub data Move {Task : Type 0} (env : Env Task) : Type 0 where
  goes : ℕ → Action env.crossbeam → env.condvar.Choice → Move env
  begins : env.condvar.Choice → Move env
  drains joins : Move env
  stores : ℕ → Move env

abbrev same_handle : Handle → Handle → Bool
same_handle (w, k) (w', k') = (w == w') && (k == k')

abbrev pub is_among : Handle → List Handle → Bool
is_among h [] = false
is_among h (x ∷ xs) = same_handle h x || is_among h xs

abbrev pub cons_rest : Handle → Option (Handle × List Handle) → Option (Handle × List Handle)
cons_rest h none = none
cons_rest h (some (x, rest)) = some (x, h ∷ rest)

abbrev pub take_at : ℕ → List Handle → Option (Handle × List Handle)
take_at k [] = none
take_at zero (h ∷ hs) = some (h, hs)
take_at (suc k) (h ∷ hs) = cons_rest h (take_at k hs)

-- The first threads of the workers.
abbrev pub first_handles : ℕ → List Handle
first_handles zero = []
first_handles (suc n) = first_handles n ++ ((n, 0) ∷ [])

module _ {Task : Type 0} where
  abbrev pub has_exited : Pc Task → Bool
  has_exited p = elim p [ exited ↦ true | _ ↦ false ]

  abbrev pub is_running : Pc Task → Bool
  is_running p = elim p [ running ↦ true | _ ↦ false ]

  -- The pool as `new` leaves it.
  abbrev pub new_pooled : Queue Task → Pooled Task
  new_pooled q = record {
    system = init q;
    incarnation = λ w. 0;
    thread_count = q.num_workers;
    thread_handles = first_handles q.num_workers;
    unstored = [];
    stage = in_use;
  }

  -- `join` returns: the thread has left its loop, or it has panicked and its sentry is done.
  unfoldable pub has_ended : Handle → Pooled Task → Bool
  has_ended (w, k) d =
      if ltb k (d.incarnation w)
      then not (is_among (w, suc k) d.unstored)
      else has_exited (d.system.threads w).pc

  -- `Sentry::drop` and the `spin_up` in it, up to the push of the handle.
  abbrev pub replace_worker : ℕ → Pooled Task → Pooled Task
  replace_worker w d = record d {
    incarnation = update d.incarnation w (suc (d.incarnation w));
    thread_count = fetch_add d.thread_count;
    unstored = d.unstored ++ ((w, suc (d.incarnation w)) ∷ []);
  }

  -- `Drop for Threadpool` behind its `shutdown`: all handles are taken; then each is joined, and at the
  -- end the counter is reset.
  abbrev pub drain : Pooled Task → Option (Pooled Task)
  drain d = some (record d { thread_handles = []; stage = joining d.thread_handles })

  abbrev pub join : List Handle → Pooled Task → Option (Pooled Task)
  join [] d = some (record d { thread_count = 0; stage = returned })
  join (h ∷ hs) d = if has_ended h d then some (record d { stage = joining hs }) else none

  abbrev pub store_handle : Option (Handle × List Handle) → Pooled Task → Option (Pooled Task)
  store_handle none d = none
  store_handle (some (h, rest)) d =
      some (record d { thread_handles = d.thread_handles ++ (h ∷ []); unstored = rest })

module _ {Task : Type 0} (env : Env Task) (bound num_workers dropper : ℕ) where
  open env use {crossbeam, condvar}

  -- No thread calls `shutdown` but the drop, and behind it only workers push.
  abbrev pub is_allowed : DropStage → ℕ → Action crossbeam → Bool
  is_allowed returned i a = false
  is_allowed st i closes = false
  is_allowed in_use i (pushes r) = true
  is_allowed st i (pushes r) = ltb i num_workers
  is_allowed st i a = true

  -- A panic in running code drops the sentry of the worker.
  abbrev pub note_panic : Pc Task → Action crossbeam → ℕ → Pooled Task → Pooled Task
  note_panic running panics i d = replace_worker i d
  note_panic _ _ i d = d

  abbrev pub go_turn : ℕ → Action crossbeam → condvar.Choice → Pooled Task → Option (Pooled Task)
  go_turn i a c d = step env bound d.system i a c >>= λ s.
      some (record (note_panic (d.system.threads i).pc a i d) { system = s })

  abbrev pub begin_turn : condvar.Choice → DropStage → Pooled Task → Option (Pooled Task)
  begin_turn c in_use d = step env bound d.system dropper closes c >>= λ s.
      some (record d { system = s; stage = shutting })
  begin_turn c _ d = none

  abbrev pub drain_turn : DropStage → Pooled Task → Option (Pooled Task)
  drain_turn shutting d = if is_running (d.system.threads dropper).pc then drain d else none
  drain_turn _ d = none

  abbrev pub join_turn : DropStage → Pooled Task → Option (Pooled Task)
  join_turn (joining hs) d = join hs d
  join_turn _ d = none

  unfoldable pub advance : Move env → Pooled Task → Option (Pooled Task)
  unfolding step has_ended
  advance (goes i a c) d = if is_allowed d.stage i a then go_turn i a c d else none
  advance (begins c) d = begin_turn c d.stage d
  advance drains d = drain_turn d.stage d
  advance joins d = join_turn d.stage d
  advance (stores k) d = store_handle (take_at k d.unstored) d

  -- The drop owns the pool: it begins while no foreign thread is in a call.
  abbrev pub Owns : Move env → Pooled Task → Type 0
  Owns (begins c) d = (j : ℕ) → num_workers ≤ j → (d.system.threads j).pc ≡ running
  Owns m d = Unit

-- The states that a pool reaches from its start on, up to the return of its drop.
pub data Lives {Task : Type 0} (env : Env Task) (bound num_workers dropper : ℕ) (shards : Option ℕ)
    : Pooled Task → Type 0 where
  starts :
      {q : Queue Task}
      → new num_workers shards ≡ some q
      → Lives env bound num_workers dropper shards (new_pooled q)
  moves :
      {d d' : Pooled Task} (m : Move env)
      → Lives env bound num_workers dropper shards d
      → Owns env bound num_workers dropper m d
      → advance env bound num_workers dropper m d ≡ some d'
      → Lives env bound num_workers dropper shards d'
