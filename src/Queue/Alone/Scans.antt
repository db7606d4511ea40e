-- ===== src/Queue/Alone/Scans.antt =====
-- src/queue.rs: how far the worker is from its return after a step of a scan.
use affinitypool.Base.{
  ℕ, suc, ◌+◌, ◌-◌, ◌≤◌, ◌<◌, ◌≡◌, refl, ◌∙◌, ap, ◌⊎◌, inl, inr, Bool, ltb, arith, Bool-cases,
}
use affinitypool.Queue.{Queue, spin_rounds}
use affinitypool.Queue.Scan.{Stage, Outcome, next, found, nothing}
use affinitypool.Queue.Scan.Attempts.{SameControl}
use affinitypool.Queue.Scan.Nearer.{Nearer, passes_left, passes_left-pos}
use affinitypool.Queue.Threads.{Phase, first, spin, armed, Pc, running, delivers, scanning, Thread}
use affinitypool.Queue.Turns.{after_scan, signal_of}
use affinitypool.Queue.Turns.Classes.{holds_lock}
use mathlib.Core.Path.{subst}
use affinitypool.Queue.Alone.{scans, turns_left, Popping, IsAlone, Goes}

scans-left :
    (size round : ℕ)
    → suc round < spin_rounds
    → scans size (spin_rounds - round) ≡ size + scans size (spin_rounds - suc round)
unfolding scans
scans-left size round lt =
    let e : spin_rounds - round ≡ suc (spin_rounds - suc round) = omega arith in ap (scans size) e

module _ {Task : Type 0} (mask n : ℕ) where
  stays-IsAlone :
      (q q' : Queue Task) (p p' : Pc Task)
      → IsAlone mask n q p
      → SameControl q q'
      → (holds_lock p' ≡ 0 → holds_lock p ≡ 0)
      → Popping p'
      → IsAlone mask n q' p'
  stays-IsAlone q q' p p' alone same lock_kept popping = record {
    same_mask = same.mask ∙ alone.same_mask;
    same_workers = same.num_workers ∙ alone.same_workers;
    shut = same.shutdown ∙ alone.shut;
    free = λ e. same.park ∙ alone.free (lock_kept e);
    popping = popping;
  }

  -- A step of a scan brings the worker nearer to its return.
  pub scanned-turns_left :
      (ph : Phase) (st : Stage) (contended : Bool) (q q' : Queue Task) (o : Outcome Task)
      → q.mask ≡ mask
      → q.num_workers ≡ n
      → Nearer q q' contended (passes_left mask n st contended) o
      → suc (turns_left {Task = Task} mask n (after_scan ph o))
        ≤ turns_left {Task = Task} mask n (scanning ph st contended)
  unfolding scans
  scanned-turns_left ph st contended q q' (next st' contended') same_mask same_workers near =
      by_phase ph
    where
      nearer : suc (passes_left mask n st' contended') ≤ passes_left mask n st contended
      nearer =
          subst (λ m. suc (passes_left m n st' contended') ≤ passes_left mask n st contended)
            same_mask
            (subst
              (λ k. suc (passes_left q.mask k st' contended') ≤ passes_left mask n st contended)
              same_workers near.0)

      by_phase :
          (ph' : Phase)
          → suc (turns_left {Task = Task} mask n (scanning ph' st' contended'))
            ≤ turns_left {Task = Task} mask n (scanning ph' st contended)
      by_phase first = omega (arith, nearer)
      by_phase (spin round) = omega (arith, nearer)
      by_phase armed = omega (arith, nearer)
  scanned-turns_left first st contended q q' (found r) m k near =
      omega (arith, passes_left-pos mask n st contended)
  scanned-turns_left (spin round) st contended q q' (found r) m k near =
      omega (arith, passes_left-pos mask n st contended)
  scanned-turns_left armed st contended q q' (found r) m k near =
      omega (arith, passes_left-pos mask n st contended)
  scanned-turns_left first st contended q q' nothing m k near =
      omega (arith, passes_left-pos mask n st contended)
  scanned-turns_left (spin round) st contended q q' nothing m k near =
      elim (Bool-cases (ltb (suc round) spin_rounds)) [
        | inl more ↦ rw more (
            omega (
              arith,
              passes_left-pos mask n st contended,
              scans-left (8 + mask + n) round (ground arith),
            ))
        | inr over ↦ rw over (omega (arith, passes_left-pos mask n st contended))
      ]
  scanned-turns_left armed st contended q q' nothing m k near =
      omega (arith, passes_left-pos mask n st contended)

  -- The scan goes on under the same hold of the mutex, or the worker has its runnable.
  pub scanned-Popping :
      (ph : Phase) (st : Stage) (contended : Bool) (o : Outcome Task)
      → ((r : Task) × (after_scan ph o ≡ running) × (signal_of ph o ≡ delivers r))
        ⊎ (Popping (after_scan ph o)
            × (holds_lock (after_scan ph o) ≡ 0
                → holds_lock {Task = Task} (scanning ph st contended) ≡ 0))
  scanned-Popping first st contended (next st' c) = inr (tt, λ e. e)
  scanned-Popping (spin round) st contended (next st' c) = inr (tt, λ e. e)
  scanned-Popping armed st contended (next st' c) = inr (tt, λ e. e)
  scanned-Popping first st contended (found r) = inl (r, refl, refl)
  scanned-Popping (spin round) st contended (found r) = inl (r, refl, refl)
  scanned-Popping armed st contended (found r) = inr (tt, λ e. e)
  scanned-Popping first st contended nothing = inr (tt, λ e. e)
  scanned-Popping (spin round) st contended nothing = ground arith
  scanned-Popping armed st contended nothing = inr (tt, λ e. e)

  pub scanned-Goes :
      (ph : Phase) (st : Stage) (contended : Bool) (q q' : Queue Task) (t : Thread Task) (rng : ℕ)
      (o : Outcome Task)
      → IsAlone mask n q (scanning ph st contended)
      → SameControl q q'
      → Nearer q q' contended (passes_left mask n st contended) o
      → Goes mask n (turns_left {Task = Task} mask n (scanning ph st contended)) (record {
        queue = q';
        thread = record t { pc = after_scan ph o; rng = rng };
        signal = signal_of ph o;
      })
  scanned-Goes ph st contended q q' t rng o alone same near =
      elim (scanned-Popping ph st contended o) [
        | inl (r, runs, gives) ↦ inl (inr (r, runs, gives))
        | inr (popping, kept) ↦ inr (
          stays-IsAlone q q' (scanning ph st contended) (after_scan ph o) alone same kept popping,
          scanned-turns_left ph st contended q q' o alone.same_mask alone.same_workers near,
        )
      ]
