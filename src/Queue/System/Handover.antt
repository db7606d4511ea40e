-- ===== src/Queue/System/Handover.antt =====
-- src/queue.rs: who sees to a shard when a producer skips its notification.
use affinitypool.Base.{ℕ, zero, suc, ◌≤◌, ◌<◌, ◌≡◌, refl, ◌⊎◌, inl, inr, arith, ℕ_discrete, dec_lt}
use affinitypool.Base.Family.{total, total_pos, le-total}
use affinitypool.Queue.{Queue}
use affinitypool.Queue.Threads.{
  first, spin, armed, took, quit, again, Pc, starting, scanning, arming, locked_in, check_shutdown,
  asleep, woken, settle, unpark, unlock, exited, running, pushed, peeked, notifying, checking,
  raised, released, closing, broadcasting, Thread,
}
use affinitypool.Queue.Turns.Classes.{is_parked, is_signalled, HasRole, Agent}
use affinitypool.Queue.Turns.Coverage.{Handover}
use affinitypool.Queue.System.Invariant.{parked_weight, signal_weight, SeenTo}
use mathlib.Core.Path.{subst}

module _ {Task : Type 0} (n mask sh : ℕ) where
  -- A wake-up under way sees to every shard.
  signalled-Agent : (i : ℕ) (p : Pc Task) → 0 < is_signalled p → Agent n mask i sh p
  signalled-Agent i woken h = tt
  signalled-Agent i (settle again) h = tt
  signalled-Agent i raised h = tt
  signalled-Agent i (settle (took r)) h = absurd (omega arith)
  signalled-Agent i (settle quit) h = absurd (omega arith)
  signalled-Agent i p h = absurd (omega arith)

  -- So does a worker that is not parked, unless it has left.
  unparked-Agent :
      (w : ℕ) (t : Thread Task) (p : Pc Task)
      → w < n
      → HasRole n w t p
      → is_parked p ≡ 0
      → Agent n mask w sh p ⊎ ((p ≡ exited) ⊎ (p ≡ unlock quit))
  unparked-Agent w t starting lt r h = inl tt
  unparked-Agent w t (scanning first st contended) lt r h = inl tt
  unparked-Agent w t (scanning (spin round) st contended) lt r h = inl tt
  unparked-Agent w t (scanning armed st contended) lt r h = absurd (omega arith)
  unparked-Agent w t arming lt r h = inl tt
  unparked-Agent w t locked_in lt r h = inl tt
  unparked-Agent w t check_shutdown lt r h = absurd (omega arith)
  unparked-Agent w t asleep lt r h = absurd (omega arith)
  unparked-Agent w t woken lt r h = inl tt
  unparked-Agent w t (settle x) lt r h = absurd (omega arith)
  unparked-Agent w t (unpark x) lt r h = absurd (omega arith)
  unparked-Agent w t (unlock (took r')) lt r h = inl tt
  unparked-Agent w t (unlock quit) lt r h = inr (inr refl)
  unparked-Agent w t (unlock again) lt r h = inl tt
  unparked-Agent w t exited lt r h = inr (inl refl)
  unparked-Agent w t running lt r h = inl lt
  unparked-Agent w t pushed lt r h = inl tt
  unparked-Agent w t (peeked k) lt r h = inl (inl lt)
  unparked-Agent w t notifying lt r h = inl tt
  unparked-Agent w t checking lt r h = inl tt
  unparked-Agent w t raised lt r h = inl tt
  unparked-Agent w t released lt r h = inl lt
  unparked-Agent w t closing lt r h = inl lt
  unparked-Agent w t broadcasting lt r h = inl lt

  module _ (bound : ℕ) (ts : ℕ → Thread Task) where
    pub signalled-SeenTo : 0 < total signal_weight bound ts → SeenTo n mask sh ts
    signalled-SeenTo h =
        let (i, lt, pos) = total_pos signal_weight bound ts h in
        inl (i, signalled-Agent i (ts i).pc pos)

    -- The first `m` workers: one sees to the shard, or all have left.
    some_worker :
        (m : ℕ)
        → ((w : ℕ)
            → w < m
            → Agent n mask w sh (ts w).pc ⊎ (((ts w).pc ≡ exited) ⊎ ((ts w).pc ≡ unlock quit)))
        → ((i : ℕ) × Agent n mask i sh (ts i).pc)
          ⊎ ((w : ℕ) → w < m → ((ts w).pc ≡ exited) ⊎ ((ts w).pc ≡ unlock quit))
    some_worker zero h = inr (λ w lt. absurd (omega arith))
    some_worker (suc m) h = decide (h m (omega arith)) (some_worker m (λ w lt. h w (omega arith)))
      where
        Left : ℕ → Type 0
        Left w = ((ts w).pc ≡ exited) ⊎ ((ts w).pc ≡ unlock quit)

        decide :
            Agent n mask m sh (ts m).pc ⊎ Left m
            → ((i : ℕ) × Agent n mask i sh (ts i).pc) ⊎ ((w : ℕ) → w < m → Left w)
            → ((i : ℕ) × Agent n mask i sh (ts i).pc) ⊎ ((w : ℕ) → w < suc m → Left w)
        decide (inl agent) rest = inl (m, agent)
        decide (inr gone) (inl found) = inl found
        decide (inr gone) (inr all) = inr λ w lt. elim (ℕ_discrete m w) [
          | yes same ↦ subst Left same gone
          | no apart ↦ all w (omega arith)
        ]

    pub unparked-SeenTo :
        n ≤ bound
        → ((w : ℕ) → HasRole n w (ts w) (ts w).pc)
        → total parked_weight bound ts ≡ 0
        → SeenTo n mask sh ts
    unparked-SeenTo le roles none_parked = some_worker n λ w lt.
        unparked-Agent w (ts w) (ts w).pc lt (roles w)
          (omega (arith, le-total parked_weight bound ts w (omega arith)))

-- Each way to end a push without a notification leaves a wake-up under way, or no parked thread.
pub resolve :
    {Task X : Type 0} (q : Queue Task) (p : Pc Task)
    → Handover q p
    → (p ≡ raised → 0 < q.notified)
    → (0 < q.notified → X)
    → (q.parked ≡ 0 → X)
    → X
resolve q pushed h claimed signalled unparked = unparked h
resolve q (peeked k) h claimed signalled unparked = signalled (omega (arith, h.0, h.1))
resolve q checking h claimed signalled unparked = elim (dec_lt 0 q.notified) [
  | yes pos ↦ signalled pos
  | no zero' ↦ unparked (omega arith)
]
resolve q raised h claimed signalled unparked = signalled (claimed refl)
resolve q p h claimed signalled unparked = absurd h
