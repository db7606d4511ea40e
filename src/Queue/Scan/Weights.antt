-- ===== src/Queue/Scan/Weights.antt =====
-- src/queue.rs: what the steps of `scan` do to the runnables that are queued.
use affinitypool.Base.{
  ℕ, ◌+◌, ◌-◌, ◌≤◌, ◌<◌, ◌≡◌, ◌≢◌, refl, ap, List, [], ◌∷◌, ◌++◌, Bool, ◌&&◌, arith, Bool-cases,
  inl, inr,
}
use affinitypool.Base.Family.{update, update_ne, total, total-update, weight, weight-append}
use affinitypool.Queue.{Queue, Probe, cheap, strict}
use affinitypool.Queue.Victims.{probe_limit}
use affinitypool.Queue.Scan.{
  Steal, success, retry, empty, Crossbeam, Stage, peers, Outcome, next, found, nothing,
  steal_injector, steal_peer, take_from_injector, take_from_peer, on_steal, pop_own, is_cheap,
  is_empty,
}
use affinitypool.Queue.Scan.Attempts.{stolen, attempt_keeps}

-- The weight of all that is queued.
unfoldable pub queued : {Task : Type 0} → (Task → ℕ) → Queue Task → ℕ
queued w q = total (weight w) q.num_injectors q.injectors + total (weight w) q.num_workers q.deques

-- The weight of the runnable that a step returns.
abbrev pub found_weight : {Task : Type 0} → (Task → ℕ) → Outcome Task → ℕ
found_weight w (found r) = w r
found_weight w (next st contended) = 0
found_weight w nothing = 0

pub on_steal-weight :
    {Task : Type 0} (w : Task → ℕ) (res : Steal Task) (st : Stage) (contended : Bool)
    → found_weight w (on_steal res st contended) ≡ stolen w res
on_steal-weight w (success r) st contended = refl
on_steal-weight w retry st contended = refl
on_steal-weight w empty st contended = refl

-- The rotation over the peers starts within their number.
abbrev pub StartsWithin : ℕ → Stage → Type 0
StartsWithin num_workers (peers start k) = start < num_workers - 1
StartsWithin num_workers _ = Unit

abbrev pub GoesWithin : {Task : Type 0} → ℕ → Outcome Task → Type 0
GoesWithin num_workers (next st contended) = StartsWithin num_workers st
GoesWithin num_workers _ = Unit

pub on_steal-GoesWithin :
    {Task : Type 0} (num_workers : ℕ) (res : Steal Task) (st : Stage) (contended : Bool)
    → StartsWithin num_workers st
    → GoesWithin num_workers (on_steal res st contended)
on_steal-GoesWithin num_workers (success r) st contended h = tt
on_steal-GoesWithin num_workers retry st contended h = h
on_steal-GoesWithin num_workers empty st contended h = h

pub probe_limit-le : (span : ℕ) (probe : Probe) → probe_limit span probe ≤ span
unfolding probe_limit
probe_limit-le span cheap = omega arith
probe_limit-le span strict = omega arith

module _ {Task : Type 0} (cb : Crossbeam Task) (c : cb.Choice) (w : Task → ℕ) (idx : ℕ)
    (q : Queue Task) where
  take_from_injector-weight :
      (victim : ℕ)
      → victim < q.num_injectors
      → idx < q.num_workers
      → let a = cb.steal_batch_and_pop c (q.injectors victim) in
        queued w (take_from_injector cb q victim idx a) + stolen w a.result ≡ queued w q
  unfolding queued
  take_from_injector-weight victim hv hi =
      let a = cb.steal_batch_and_pop c (q.injectors victim) in
      omega (
        arith,
        total-update (weight w) q.num_injectors q.injectors victim a.left hv,
        total-update (weight w) q.num_workers q.deques idx (q.deques idx ++ a.moved) hi,
        weight-append w (q.deques idx) a.moved,
        attempt_keeps cb c (q.injectors victim) w,
      )

  take_from_peer-weight :
      (victim : ℕ)
      → victim < q.num_workers
      → victim ≢ idx
      → idx < q.num_workers
      → let a = cb.steal_batch_and_pop c (q.deques victim) in
        queued w (take_from_peer cb q victim idx a) + stolen w a.result ≡ queued w q
  unfolding queued
  take_from_peer-weight victim hv ne hi =
      let a = cb.steal_batch_and_pop c (q.deques victim) in
      omega (
        arith,
        total-update (weight w) q.num_workers q.deques victim a.left hv,
        total-update (weight w) q.num_workers (update q.deques victim a.left) idx
            (q.deques idx ++ a.moved) hi,
        ap (weight w) (update_ne q.deques victim idx a.left ne),
        weight-append w (q.deques idx) a.moved,
        attempt_keeps cb c (q.deques victim) w,
      )

  pub steal_injector-weight :
      (victim : ℕ) (probe : Probe)
      → victim < q.num_injectors
      → idx < q.num_workers
      → let r = steal_injector cb c q victim idx probe in queued w r.0 + stolen w r.1 ≡ queued w q
  unfolding steal_injector
  steal_injector-weight victim probe hv hi =
      elim (Bool-cases (is_cheap probe && is_empty (q.injectors victim))) [
        | inl skip ↦ rw skip (omega arith)
        | inr steal ↦ rw steal (take_from_injector-weight victim hv hi)
      ]

  pub steal_peer-weight :
      (victim : ℕ) (probe : Probe)
      → victim < q.num_workers
      → victim ≢ idx
      → idx < q.num_workers
      → let r = steal_peer cb c q victim idx probe in queued w r.0 + stolen w r.1 ≡ queued w q
  unfolding steal_peer
  steal_peer-weight victim probe hv ne hi = elim (Bool-cases (q.stealers victim)) [
    | inl filled ↦ elim (Bool-cases (is_cheap probe && is_empty (q.deques victim))) [
      | inl skip ↦ rw (filled, skip) (omega arith)
      | inr steal ↦ rw (filled, steal) (take_from_peer-weight victim hv ne hi)
    ]
    | inr vacant ↦ rw vacant (omega arith)
  ]

  pub pop_own-weight :
      (rng : ℕ) (ts : List Task)
      → idx < q.num_workers
      → q.deques idx ≡ ts
      → queued w (pop_own q idx rng ts).queue + found_weight w (pop_own q idx rng ts).outcome
        ≡ queued w q
  unfolding queued
  pop_own-weight rng [] hi e = omega arith
  pop_own-weight rng (r ∷ rest) hi e =
      omega (arith, total-update (weight w) q.num_workers q.deques idx rest hi, ap (weight w) e)
