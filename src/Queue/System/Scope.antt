-- ===== src/Queue/System/Scope.antt =====
-- src/queue.rs: `CURRENT_WORKER` and the scope of a worker, `WorkerScope`.
--
-- `push` writes through the pointer that the cell holds: it has to be the deque that is on the stack of
-- the very thread, and it is there from `enter_worker_scope` to the drop of the scope.
use affinitypool.Base.{ℕ, ◌≡◌, refl, sym, inl, inr, Option, none, some, arith, ltb, if◌then◌else◌}
use affinitypool.Base.Family.{update_elim, update}
use affinitypool.Queue.{Queue}
use affinitypool.Queue.Scan.{Outcome, scan_step}
use affinitypool.Queue.Threads.{
  Phase, took, quit, again, Pc, starting, scanning, arming, locked_in, check_shutdown, asleep,
  woken, settle, unpark, unlock, exited, running, pushed, peeked, notifying, checking, raised,
  released, closing, broadcasting, Thread, Env,
}
use affinitypool.Queue.Turns.{
  Action, go, pushes, finishes, closes, panics, act, after_scan, foreign_push, probe_of,
}
use affinitypool.Queue.Turns.Classes.{HasRole}
use affinitypool.Queue.Turns.Ensures.{Ensures, Ensures-some, lock-Ensures, run-Ensures}
use affinitypool.Queue.System.{System, Reach, start, later}
use affinitypool.Queue.System.Wake.{IsWoken, wakes-IsWoken}
use affinitypool.Queue.System.Preserve.{step-turn}
use affinitypool.Queue.System.Safety.{IsPool, Reach-Inv}
use mathlib.Core.Path.{subst}

module _ {Task : Type 0} where
  -- Before its scope and behind it, a worker thread has no current worker.
  abbrev pub Cleared : Thread Task → Pc Task → Type 0
  Cleared t starting = t.current_worker ≡ none
  Cleared t exited = t.current_worker ≡ none
  Cleared t _ = Unit

  abbrev IsCleared : Thread Task → Type 0
  IsCleared t = Cleared t t.pc

  woken-Cleared : (t t' : Thread Task) → IsWoken t t' → IsCleared t → IsCleared t'
  woken-Cleared t t' (inl same) h = subst IsCleared (sym same) h
  woken-Cleared t t' (inr (sleeps, e)) h = subst IsCleared (sym e) tt

  after_scan-Cleared :
      (t : Thread Task) (ph : Phase) (o : Outcome Task) → Cleared t (after_scan ph o)
  after_scan-Cleared t ph o = ground arith

  act-Cleared :
      (env : Env Task) (i : ℕ) (q : Queue Task) (t : Thread Task) (p : Pc Task)
      (a : Action env.crossbeam)
      → Ensures (λ x. IsCleared x.thread) (act env p a i q t)
  unfolding act foreign_push
  act-Cleared env i q t starting a = tt
  act-Cleared env i q t (scanning ph st contended) (go c) =
      let r = scan_step env.crossbeam c (probe_of ph) i q t.rng st contended in
      after_scan-Cleared (record t { pc = after_scan ph r.outcome; rng = r.rng }) ph r.outcome
  act-Cleared env i q t (scanning ph st contended) (pushes r) = tt
  act-Cleared env i q t (scanning ph st contended) finishes = tt
  act-Cleared env i q t (scanning ph st contended) closes = tt
  act-Cleared env i q t (scanning ph st contended) panics = tt
  act-Cleared env i q t arming a = lock-Ensures _ i q t locked_in (λ free. tt)
  act-Cleared env i q t locked_in a = tt
  act-Cleared env i q t check_shutdown a = ground arith
  act-Cleared env i q t asleep a = tt
  act-Cleared env i q t woken a = lock-Ensures _ i q t (settle again) (λ free. tt)
  act-Cleared env i q t (settle x) a = tt
  act-Cleared env i q t (unpark x) a = tt
  act-Cleared env i q t (unlock (took r)) a = tt
  act-Cleared env i q t (unlock quit) a = refl
  act-Cleared env i q t (unlock again) a = tt
  act-Cleared env i q t exited a = tt
  act-Cleared env i q t running a =
      run-Ensures _ env a i q t (λ r foreign. ground arith) (λ r idx worker. tt) (λ idx worker. tt)
        tt (λ idx worker. refl)
  act-Cleared env i q t pushed a = tt
  act-Cleared env i q t (peeked k) a = ground arith
  act-Cleared env i q t notifying a = lock-Ensures _ i q t checking (λ free. tt)
  act-Cleared env i q t checking a = ground arith
  act-Cleared env i q t raised a = tt
  act-Cleared env i q t released a = tt
  act-Cleared env i q t closing a = lock-Ensures _ i q t broadcasting (λ free. tt)
  act-Cleared env i q t broadcasting a = tt

  -- What the cell of thread `i` is to hold at this place.
  abbrev pub scope_of : (num_workers i : ℕ) → Pc Task → Option ℕ
  scope_of num_workers i starting = none
  scope_of num_workers i exited = none
  scope_of num_workers i _ = if ltb i num_workers then some i else none

  role-scope_of :
      (n i : ℕ) (t : Thread Task) (p : Pc Task)
      → HasRole n i t p
      → Cleared t p
      → t.current_worker ≡ scope_of n i p
  role-scope_of n i t p role cleared = ground arith

module _ {Task : Type 0} (env : Env Task) (bound num_workers : ℕ) (shards : Option ℕ)
    (pool : IsPool bound num_workers) where
  Reach-Cleared :
      (s : System Task) → Reach env bound num_workers shards s → (i : ℕ) → IsCleared (s.threads i)
  Reach-Cleared _ (start {q} made) i = ground arith
  Reach-Cleared s' (later {s = s} i a c r eq) j =
      let (lt, eff, turn, same) = step-turn env bound s s' i a c eq in
      subst (λ (x : System Task). IsCleared (x.threads j)) (sym same)
        (woken-Cleared (update s.threads i eff.thread j) _
          (wakes-IsWoken env bound c eff.signal (update s.threads i eff.thread) j)
          (update_elim (λ j t. IsCleared t) s.threads i eff.thread
            (Ensures-some _ _ turn (act-Cleared env i s.queue (s.threads i) (s.threads i).pc a))
            (λ k ne. Reach-Cleared s r k) j))

  -- For a pool of at least one and at most `MAX_THREADS` workers among fewer than `usize::MAX`
  -- threads, in every state that the threads reach over a new queue: the handle to this queue in
  -- the cell `CURRENT_WORKER` of a thread, the only kind that `push` goes by, is there exactly
  -- if the thread is a worker of the queue between its registration and its exit from the worker
  -- loop or its panic, and it is then to the deque of the thread itself.
  pub current_worker-scope_of :
      (s : System Task)
      → Reach env bound num_workers shards s
      → (i : ℕ) → (s.threads i).current_worker ≡ scope_of num_workers i (s.threads i).pc
  current_worker-scope_of s r i =
      let (e, inv) = Reach-Inv env bound num_workers shards pool s r in
      role-scope_of num_workers i (s.threads i) (s.threads i).pc (inv.role i) (Reach-Cleared s r i)
