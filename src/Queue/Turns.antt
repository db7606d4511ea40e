-- ===== src/Queue/Turns.antt =====
-- src/queue.rs: `push`, `pop_blocking` and `shutdown`, one access to shared memory at a time, with
-- `register_worker`, `enter_worker_scope` and the worker loop of src/lib.rs, `spin_up`, around them.
--
-- Accesses are sequentially consistent, which is what the `SeqCst` fences are there for. A turn of a
-- thread that has to wait is `none`.
pub mod Classes
pub mod Ensures
pub mod Counters
pub mod Mutex
pub mod Roles
pub mod Coverage
pub mod Signals
pub mod Balance
pub mod Waking
pub mod Leaving
pub mod Shutdown
pub mod Unbroken
use affinitypool.Base.{
  ℕ, suc, ◌-◌, [], ◌∷◌, ◌++◌, Option, none, some, Bool, true, false, ltb, ◌==◌, if◌then◌else◌,
  usize_max,
}
use affinitypool.Base.Family.{update}
use affinitypool.Cpu.{route_shard}
use affinitypool.Queue.{Queue, Probe, cheap, strict, spin_rounds}
use affinitypool.Queue.Rng.{seed}
use affinitypool.Queue.Scan.{Crossbeam, Stage, own, Outcome, next, found, nothing, scan_step}
use affinitypool.Queue.Threads.{
  Phase, first, spin, armed, Exit, took, quit, again, Pc, starting, scanning, arming, locked_in,
  check_shutdown, asleep, woken, settle, unpark, unlock, exited, running, pushed, peeked, notifying,
  checking, raised, released, closing, broadcasting, Thread, Signal, quiet, sends, delivers, drops,
  wakes_one, wakes_all, Effect, Env,
}

-- `fetch_add(1)` and `fetch_sub(1)` on an `AtomicUsize` wrap.
abbrev pub fetch_add : ℕ → ℕ
fetch_add n = if n == usize_max then 0 else suc n

abbrev pub fetch_sub : ℕ → ℕ
fetch_sub n = if n == 0 then usize_max else n - 1

abbrev pub probe_of : Phase → Probe
probe_of first = cheap
probe_of (spin round) = cheap
probe_of armed = strict

module _ {Task : Type 0} where
  -- Where `pop_blocking` goes on after a step of a scan.
  abbrev pub after_scan : Phase → Outcome Task → Pc Task
  after_scan ph (next st contended) = scanning ph st contended
  after_scan first (found r) = running
  after_scan (spin round) (found r) = running
  after_scan armed (found r) = settle (took r)
  after_scan first nothing = scanning (spin 0) own false
  after_scan (spin round) nothing =
      if ltb (suc round) spin_rounds then scanning (spin (suc round)) own false else arming
  after_scan armed nothing = check_shutdown

  -- `pop_blocking` returns a runnable that an unarmed scan found.
  abbrev pub signal_of : Phase → Outcome Task → Signal Task
  signal_of first (found r) = delivers r
  signal_of (spin round) (found r) = delivers r
  signal_of _ _ = quiet

  abbrev pub silently : Queue Task → Thread Task → Option (Effect Task)
  silently q t = some (record { queue = q; thread = t; signal = quiet })

  -- `self.park.lock()`: the thread waits while the mutex is held.
  abbrev pub lock : ℕ → Queue Task → Thread Task → Pc Task → Option (Effect Task)
  lock i q t pc = elim q.park [
    | none ↦ silently (record q { park = some i }) (record t { pc = pc })
    | some holder ↦ none
  ]

  -- `register_worker`: a fresh deque, and its stealer in the slot of the worker.
  abbrev pub register_worker : ℕ → Queue Task → Queue Task
  register_worker i q = record q {
    deques = update q.deques i [];
    stealers = update q.stealers i true;
  }

  -- `enter_worker_scope`, with the generator of the worker's context, and the drop of the scope.
  abbrev pub enter_worker_scope : ℕ → Thread Task → Thread Task
  enter_worker_scope i t = record t { rng = seed i; current_worker = some i }

  abbrev pub drop_scope : Thread Task → Thread Task
  drop_scope t = record t { current_worker = none }

  -- The start of a worker thread. The new stealer takes the slot of the one before, with
  -- which the deque of a worker that panicked goes, and what is left in it.
  abbrev pub register : ℕ → Queue Task → Thread Task → Option (Effect Task)
  register i q t = some (record {
    queue = register_worker i q;
    thread = record (enter_worker_scope i t) { pc = scanning first own false };
    signal = drops (q.deques i);
  })

  -- The guard is dropped; then `pop_blocking` returns, or its loop goes on. Without a runnable the
  -- worker loop ends, and the scope is dropped.
  abbrev pub leave : Exit Task → Queue Task → Thread Task → Option (Effect Task)
  leave (took r) q t = some (record {
    queue = record q { park = none };
    thread = record t { pc = running };
    signal = delivers r;
  })
  leave quit q t = silently (record q { park = none }) (record (drop_scope t) { pc = exited })
  leave again q t = silently (record q { park = none }) (record t { pc = scanning first own false })

  -- `push` up to the fence: into the worker's own deque, or into an injector.
  abbrev pub self_push : Task → ℕ → Queue Task → Thread Task → Effect Task
  self_push r idx q t = record {
    queue = record q { deques = update q.deques idx (q.deques idx ++ (r ∷ [])) };
    thread = record t { pc = pushed };
    signal = sends r;
  }

  abbrev pub inject : Task → ℕ → Queue Task → Queue Task
  inject r target q = record q {
    injectors = update q.injectors target (q.injectors target ++ (r ∷ []));
    foreign_pushes = suc q.foreign_pushes;
  }

  unfoldable pub foreign_push : ℕ → Task → Queue Task → Thread Task → Effect Task
  foreign_push hint r q t =
      let (target, route) = route_shard hint q.mask t.route in
      if q.mask == 0
      then record { queue = inject r 0 q; thread = record t { pc = pushed }; signal = sends r }
      else record {
        queue = inject r target q;
        thread = record t { pc = pushed; route = some route };
        signal = sends r;
      }

  abbrev pub push_from : Option ℕ → ℕ → Task → Queue Task → Thread Task → Effect Task
  push_from none hint r q t = foreign_push hint r q t
  push_from (some idx) hint r q t = self_push r idx q t

  abbrev pub push : ℕ → Task → Queue Task → Thread Task → Effect Task
  push hint r q t = push_from t.current_worker hint r q t

  -- A runnable has returned to the worker loop.
  abbrev pub finish_from : Option ℕ → Queue Task → Thread Task → Option (Effect Task)
  finish_from none q t = none
  finish_from (some idx) q t = silently q (record t { pc = scanning first own false })

  -- The store of `shutdown`, called from the drop of the pool, by whichever thread drops its last owner.
  abbrev pub close : Queue Task → Thread Task → Option (Effect Task)
  close q t = silently (record q { shutdown = true }) (record t { pc = closing })

  -- A panic that leaves the runnable unwinds the worker thread: the scope is dropped, and the sentry
  -- starts another thread with the same index.
  abbrev pub panic_from : Option ℕ → Queue Task → Thread Task → Option (Effect Task)
  panic_from none q t = none
  panic_from (some idx) q t = silently q (record (drop_scope t) { pc = starting; route = none })

-- What the thread does next, where that is not settled by its place: the choice for a steal, or what
-- the running code asks for.
pub data Action {Task : Type 0} (cb : Crossbeam Task) : Type 0 where
  go : cb.Choice → Action cb
  pushes : Task → Action cb
  finishes closes panics : Action cb

module _ {Task : Type 0} (env : Env Task) where
  open env use {crossbeam}

  abbrev pub scan_turn :
      crossbeam.Choice → ℕ → Queue Task → Thread Task → Phase → Stage → Bool → Effect Task
  scan_turn c i q t ph st contended =
      let r = scan_step crossbeam c (probe_of ph) i q t.rng st contended in
      record {
        queue = r.queue;
        thread = record t { pc = after_scan ph r.outcome; rng = r.rng };
        signal = signal_of ph r.outcome;
      }

  -- In a runnable, a worker may push, return to `pop_blocking`, panic, or drop the pool; a foreign thread
  -- may push, or drop the pool. A worker that takes no turn is in a runnable that runs on, or blocks.
  abbrev pub run_turn : Action crossbeam → ℕ → Queue Task → Thread Task → Option (Effect Task)
  run_turn (go c) i q t = none
  run_turn (pushes r) i q t = some (push (env.hash_thread_id i) r q t)
  run_turn finishes i q t = finish_from t.current_worker q t
  run_turn closes i q t = close q t
  run_turn panics i q t = panic_from t.current_worker q t

  -- One turn of thread `i`.
  unfoldable pub act :
      Pc Task → Action crossbeam → ℕ → Queue Task → Thread Task → Option (Effect Task)
  act starting a i q t = register i q t
  act (scanning ph st contended) (go c) i q t = some (scan_turn c i q t ph st contended)
  act (scanning ph st contended) _ i q t = none
  act arming a i q t = lock i q t locked_in
  act locked_in a i q t =
      silently (record q { parked = fetch_add q.parked })
        (record t { pc = scanning armed own false })
  act check_shutdown a i q t =
      if q.shutdown
      then silently q (record t { pc = settle quit })
      else silently (record q { park = none }) (record t { pc = asleep })
  act asleep a i q t = none
  act woken a i q t = lock i q t (settle again)
  act (settle x) a i q t =
      silently
        (record q { notified = if ltb 0 q.notified then fetch_sub q.notified else q.notified })
        (record t { pc = unpark x })
  act (unpark x) a i q t =
      silently (record q { parked = fetch_sub q.parked }) (record t { pc = unlock x })
  act (unlock x) a i q t = leave x q t
  act exited a i q t = none
  act running a i q t = run_turn a i q t
  act pushed a i q t = silently q (record t { pc = peeked q.parked })
  act (peeked p) a i q t =
      silently q (record t { pc = if ltb q.notified p then notifying else running })
  act notifying a i q t = lock i q t checking
  act checking a i q t =
      if ltb q.notified q.parked
      then silently (record q { notified = fetch_add q.notified }) (record t { pc = raised })
      else silently q (record t { pc = released })
  act raised a i q t =
      some (record { queue = q; thread = record t { pc = released }; signal = wakes_one })
  act released a i q t = silently (record q { park = none }) (record t { pc = running })
  act closing a i q t = lock i q t broadcasting
  act broadcasting a i q t =
      some (record { queue = q; thread = record t { pc = released }; signal = wakes_all })
