-- ===== src/Queue/Alone.antt =====
-- src/queue.rs: `pop_blocking` after `shutdown`, by a worker that runs alone.
pub mod Scans
pub mod Turns
pub mod Returns
pub mod Pushes
use affinitypool.Base.{
  ℕ, zero, suc, ◌+◌, ◌*◌, ◌-◌, ◌≤◌, ◌<◌, ◌≡◌, refl, sym, ◌∙◌, ap, ◌⊎◌, inl, inr, Option, none, some,
  Bool, true, false, ltb, arith, Bool-cases, if◌then◌else◌,
}
use affinitypool.Queue.{Queue, spin_rounds, ◌>>=◌}
use affinitypool.Queue.Scan.{Stage, own, Outcome, next, found, nothing, scan_step}
use affinitypool.Queue.Scan.Attempts.{SameControl}
use affinitypool.Queue.Scan.Pass.{scan_step-Fills}
use affinitypool.Queue.Scan.Whole.{steps_left}
use affinitypool.Queue.Scan.Nearer.{passes_left}
use affinitypool.Queue.Threads.{
  Phase, first, spin, armed, took, quit, again, Pc, starting, scanning, arming, locked_in,
  check_shutdown, asleep, woken, settle, unpark, unlock, exited, running, Thread, Effect, delivers,
  Env,
}
use affinitypool.Queue.Turns.{Action, go, act, after_scan, signal_of, probe_of, lock}
use affinitypool.Queue.Turns.Classes.{is_armed, holds_lock}
use mathlib.Core.Path.{subst}

abbrev pub has_ended : {Task : Type 0} → Pc Task → Bool
has_ended running = true
has_ended exited = true
has_ended _ = false

-- The steps of `count` whole scans.
unfoldable pub scans : (size count : ℕ) → ℕ
scans size zero = 0
scans size (suc count) = size + scans size count

-- The turns that are left at most, with `size` steps for a scan.
abbrev pub turns_left : {Task : Type 0} → (mask n : ℕ) → Pc Task → ℕ
turns_left mask n starting = scans (8 + mask + n) 8 + (30 + mask + n)
turns_left mask n (scanning first st contended) =
    passes_left mask n st contended + scans (8 + mask + n) 7 + (28 + mask + n)
turns_left mask n (scanning (spin round) st contended) =
    passes_left mask n st contended + scans (8 + mask + n) (spin_rounds - round) + (28 + mask + n)
turns_left mask n (scanning armed st contended) = passes_left mask n st contended + 6
turns_left mask n arming = 16 + mask + n
turns_left mask n locked_in = 15 + mask + n
turns_left mask n check_shutdown = 6
turns_left mask n woken = scans (8 + mask + n) 8 + (34 + mask + n)
turns_left mask n (settle again) = scans (8 + mask + n) 8 + (33 + mask + n)
turns_left mask n (unpark again) = scans (8 + mask + n) 8 + (32 + mask + n)
turns_left mask n (unlock again) = scans (8 + mask + n) 8 + (31 + mask + n)
turns_left mask n (settle x) = 4
turns_left mask n (unpark x) = 3
turns_left mask n (unlock x) = 2
turns_left mask n _ = 1

-- The thread is in `pop_blocking` and awake, or starts.
abbrev pub Popping : {Task : Type 0} → Pc Task → Type 0
Popping starting = Unit
Popping (scanning ph st contended) = Unit
Popping arming = Unit
Popping locked_in = Unit
Popping check_shutdown = Unit
Popping woken = Unit
Popping (settle x) = Unit
Popping (unpark x) = Unit
Popping (unlock x) = Unit
Popping _ = ⊥

-- The queue is shut down, and no other thread holds the mutex.
pub record IsAlone {Task : Type 0} (mask n : ℕ) (q : Queue Task) (p : Pc Task) : Type 0 where
  pub same_mask : q.mask ≡ mask
  pub same_workers : q.num_workers ≡ n
  pub shut : q.shutdown ≡ true
  pub free : holds_lock p ≡ 0 → q.park ≡ none
  pub popping : Popping p

-- The worker has exited, or `pop_blocking` has returned a runnable.
abbrev pub Returned : {Task : Type 0} → Effect Task → Type 0
Returned {Task} e =
    (e.thread.pc ≡ exited) ⊎ ((r : Task) × (e.thread.pc ≡ running) × (e.signal ≡ delivers r))

abbrev pub Goes : {Task : Type 0} → (mask n left : ℕ) → Effect Task → Type 0
Goes mask n left e =
    Returned e ⊎ (IsAlone mask n e.queue e.thread.pc × (suc (turns_left mask n e.thread.pc) ≤ left))

module _ {Task : Type 0} (env : Env Task) (choices : ℕ → env.crossbeam.Choice) (i : ℕ) where
  -- The turns of worker `i` alone, until `pop_blocking` returns a runnable or the worker exits.
  unfoldable pub pop_alone : (fuel : ℕ) → Queue Task → Thread Task → Option (Effect Task)
  unfolding act
  pop_alone zero q t = none
  pop_alone (suc fuel) q t = act env t.pc (go (choices fuel)) i q t >>= λ e.
      if has_ended e.thread.pc then some e else pop_alone fuel e.queue e.thread
