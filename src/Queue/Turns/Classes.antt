-- ===== src/Queue/Turns/Classes.antt =====
-- src/queue.rs: which threads count as parked, as notified, as holders of the mutex, and what a
-- thread's place says of its role and of its own deque.
use affinitypool.Base.{ℕ, ◌≤◌, ◌<◌, ◌≡◌, ◌⊎◌, List, [], none, some, bit_and}
use affinitypool.Queue.Scan.{own}
use affinitypool.Queue.Scan.Pass.{OwnDone}
use affinitypool.Queue.Scan.Coverage.{Covers}
use affinitypool.Queue.Threads.{
  Phase, first, spin, armed, Exit, took, quit, again, Pc, starting, scanning, arming, locked_in,
  check_shutdown, asleep, woken, settle, unpark, unlock, exited, running, peeked, checking, raised,
  released, closing, broadcasting, Thread, Signal, wakes_one,
}

abbrev pub is_armed : Phase → ℕ
is_armed first = 0
is_armed (spin round) = 0
is_armed armed = 1

module _ {Task : Type 0} where
  -- Between the two updates of `parked`.
  abbrev pub is_parked : Pc Task → ℕ
  is_parked (scanning ph st contended) = is_armed ph
  is_parked check_shutdown = 1
  is_parked asleep = 1
  is_parked woken = 1
  is_parked (settle x) = 1
  is_parked (unpark x) = 1
  is_parked _ = 0

  -- Those of them that hold the mutex.
  abbrev pub is_parked_inside : Pc Task → ℕ
  is_parked_inside asleep = 0
  is_parked_inside woken = 0
  is_parked_inside p = is_parked p

  abbrev pub is_asleep : Pc Task → ℕ
  is_asleep asleep = 1
  is_asleep _ = 0

  -- A wake-up under way: a sleeper that has been woken and has not yet updated `notified`, or a
  -- producer that is about to wake one.
  abbrev pub is_signalled : Pc Task → ℕ
  is_signalled woken = 1
  is_signalled (settle again) = 1
  is_signalled raised = 1
  is_signalled _ = 0

  abbrev pub holds_lock : Pc Task → ℕ
  holds_lock (scanning ph st contended) = is_armed ph
  holds_lock locked_in = 1
  holds_lock check_shutdown = 1
  holds_lock (settle x) = 1
  holds_lock (unpark x) = 1
  holds_lock (unlock x) = 1
  holds_lock checking = 1
  holds_lock raised = 1
  holds_lock released = 1
  holds_lock broadcasting = 1
  holds_lock _ = 0

  abbrev pub credit : Signal Task → ℕ
  credit wakes_one = 1
  credit _ = 0

  -- The worker is on its way to the end of its loop.
  abbrev pub is_leaving : Pc Task → ℕ
  is_leaving (settle quit) = 1
  is_leaving (unpark quit) = 1
  is_leaving (unlock quit) = 1
  is_leaving exited = 1
  is_leaving _ = 0

  abbrev pub WorkerRole : ℕ → ℕ → Thread Task → Type 0
  WorkerRole n i t = (t.current_worker ≡ some i) × (i < n)

  abbrev pub ForeignRole : ℕ → ℕ → Thread Task → Type 0
  ForeignRole n i t = (t.current_worker ≡ none) × (n ≤ i)

  -- A worker inside its scope is at a place of `pop_blocking`, of `push` or in a runnable.
  abbrev pub HasRole : ℕ → ℕ → Thread Task → Pc Task → Type 0
  HasRole n i t starting = i < n
  HasRole n i t exited = i < n
  HasRole n i t (scanning ph st contended) = WorkerRole n i t
  HasRole n i t arming = WorkerRole n i t
  HasRole n i t locked_in = WorkerRole n i t
  HasRole n i t check_shutdown = WorkerRole n i t
  HasRole n i t asleep = WorkerRole n i t
  HasRole n i t woken = WorkerRole n i t
  HasRole n i t (settle x) = WorkerRole n i t
  HasRole n i t (unpark x) = WorkerRole n i t
  HasRole n i t (unlock x) = WorkerRole n i t
  HasRole n i t _ = WorkerRole n i t ⊎ ForeignRole n i t

  abbrev pub DrainedExit : Exit Task → List Task → Type 0
  DrainedExit (took r) ts = Unit
  DrainedExit quit ts = ts ≡ []
  DrainedExit again ts = ts ≡ []

  -- Where the worker has drained its deque: it is empty.
  abbrev pub Drained : Pc Task → List Task → Type 0
  Drained (scanning ph st contended) ts = OwnDone st ts
  Drained arming ts = ts ≡ []
  Drained locked_in ts = ts ≡ []
  Drained check_shutdown ts = ts ≡ []
  Drained asleep ts = ts ≡ []
  Drained woken ts = ts ≡ []
  Drained (settle x) ts = DrainedExit x ts
  Drained (unpark x) ts = DrainedExit x ts
  Drained (unlock x) ts = DrainedExit x ts
  Drained exited ts = ts ≡ []
  Drained _ ts = Unit

  -- A worker that is going to come to shard `s` with a full scan, or a producer whose handshake will
  -- see to it that some worker does.
  abbrev pub Agent : (n mask i s : ℕ) → Pc Task → Type 0
  Agent n mask i s (scanning first st contended) = Unit
  Agent n mask i s (scanning (spin round) st contended) = Unit
  Agent n mask i s (scanning armed st contended) = Covers mask (bit_and i mask) s st contended
  Agent n mask i s check_shutdown = ⊥
  Agent n mask i s asleep = ⊥
  Agent n mask i s (settle quit) = ⊥
  Agent n mask i s (unpark quit) = ⊥
  Agent n mask i s (unlock quit) = ⊥
  Agent n mask i s exited = ⊥
  Agent n mask i s running = i < n
  Agent n mask i s released = i < n
  Agent n mask i s (peeked parked) = (i < n) ⊎ (0 < parked)
  Agent n mask i s closing = i < n
  Agent n mask i s broadcasting = i < n
  Agent n mask i s _ = Unit

  pub Drained-mono :
      (p : Pc Task) (ts ts' : List Task) → (ts ≡ [] → ts' ≡ []) → Drained p ts → Drained p ts'
  Drained-mono (scanning ph own contended) ts ts' h d = tt
  Drained-mono (scanning ph st contended) ts ts' h d = h d
  Drained-mono arming ts ts' h d = h d
  Drained-mono locked_in ts ts' h d = h d
  Drained-mono check_shutdown ts ts' h d = h d
  Drained-mono asleep ts ts' h d = h d
  Drained-mono woken ts ts' h d = h d
  Drained-mono (settle (took r)) ts ts' h d = tt
  Drained-mono (settle x) ts ts' h d = h d
  Drained-mono (unpark (took r)) ts ts' h d = tt
  Drained-mono (unpark x) ts ts' h d = h d
  Drained-mono (unlock (took r)) ts ts' h d = tt
  Drained-mono (unlock x) ts ts' h d = h d
  Drained-mono exited ts ts' h d = h d
  Drained-mono p ts ts' h d = tt
