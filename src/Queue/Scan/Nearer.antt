-- ===== src/Queue/Scan/Nearer.antt =====
-- src/queue.rs: how far a scan is from its end, if no other thread gets in its way.
use affinitypool.Base.{
  ℕ, suc, ◌+◌, ◌-◌, ◌≤◌, ◌<◌, ◌≡◌, ◌≢◌, refl, inl, inr, List, [], ◌∷◌, Bool, true, false, ◌&&◌, ltb,
  bit_and, arith, Bool-cases,
}
use affinitypool.Base.Family.{update}
use affinitypool.Queue.{Queue, Probe}
use affinitypool.Queue.Victims.{probe_limit, shard_victim, peer_victim}
use affinitypool.Queue.Scan.{
  Steal, success, retry, empty, Crossbeam, Stage, own, preferred, enter_others, others, enter_peers,
  peers, pass_end, Outcome, next, scan_step, steal_injector, steal_peer, on_steal, pop_own,
  is_cheap, is_empty,
}
use affinitypool.Queue.Scan.Weights.{probe_limit-le}
use affinitypool.Queue.Scan.Whole.{steps_left}

-- No attempt meets another thread: crossbeam says `Retry` only if one got in between.
abbrev pub Uncontended : {Task : Type 0} (cb : Crossbeam Task) → cb.Choice → Type 0
Uncontended {Task} cb c = (q : List Task) → (cb.steal_batch_and_pop c q).result ≢ retry

-- The steps that are left at most: a pass that was contended before is followed by another.
abbrev pub passes_left : (mask n : ℕ) → Stage → (contended : Bool) → ℕ
passes_left mask n st false = steps_left mask n st
passes_left mask n st true = 8 + mask + n + steps_left mask n st

-- The scan is one step nearer to its end, contended no more than before, and the shards are as they
-- were.
abbrev pub Nearer : {Task : Type 0} → Queue Task → Queue Task → Bool → ℕ → Outcome Task → Type 0
Nearer q q' before left (next st contended) =
    (suc (passes_left q.mask q.num_workers st contended) ≤ left)
    × (contended ≡ true → before ≡ true)
    × ((s : ℕ) → q'.injectors s ≡ q.injectors s)
Nearer q q' before left _ = Unit

module _ {Task : Type 0} (cb : Crossbeam Task) (c : cb.Choice) (calm : Uncontended cb c)
    (probe : Probe) (idx : ℕ) (q : Queue Task) where
  steal_injector-calm :
      (victim : ℕ)
      → let r = steal_injector cb c q victim idx probe in
        (r.1 ≢ retry) × (r.1 ≡ empty → (s : ℕ) → r.0.injectors s ≡ q.injectors s)
  unfolding steal_injector
  steal_injector-calm victim = elim (Bool-cases (is_cheap probe && is_empty (q.injectors victim))) [
    | inl skip ↦ rw skip (λ e. cc e, λ e s. refl)
    | inr steal ↦ rw steal (calm (q.injectors victim), emptied)
  ]
    where
      emptied :
          (cb.steal_batch_and_pop c (q.injectors victim)).result ≡ empty
          → (s : ℕ)
          → update q.injectors victim (cb.steal_batch_and_pop c (q.injectors victim)).left s
            ≡ q.injectors s
      emptied e s = ground (arith, cb.empty_only c (q.injectors victim) e)

  steal_peer-calm :
      (victim : ℕ)
      → let r = steal_peer cb c q victim idx probe in
        (r.1 ≢ retry) × ((s : ℕ) → r.0.injectors s ≡ q.injectors s)
  unfolding steal_peer
  steal_peer-calm victim = elim (Bool-cases (q.stealers victim)) [
    | inl filled ↦ elim (Bool-cases (is_cheap probe && is_empty (q.deques victim))) [
      | inl skip ↦ rw (filled, skip) (λ e. cc e, λ s. refl)
      | inr steal ↦ rw (filled, steal) (calm (q.deques victim), λ s. refl)
    ]
    | inr vacant ↦ rw vacant (λ e. cc e, λ s. refl)
  ]

  on_steal-Nearer :
      (q' : Queue Task) (res : Steal Task) (st : Stage) (contended : Bool) (left : ℕ)
      → res ≢ retry
      → (res ≡ empty → (s : ℕ) → q'.injectors s ≡ q.injectors s)
      → suc (passes_left q.mask q.num_workers st contended) ≤ left
      → Nearer q q' contended left (on_steal res st contended)
  on_steal-Nearer q' (success r) st contended left ne same h = tt
  on_steal-Nearer q' retry st contended left ne same h = absurd (ne refl)
  on_steal-Nearer q' empty st contended left ne same h = (h, λ e. e, same refl)

  pub scan_step-Nearer :
      (rng : ℕ) (st : Stage) (contended : Bool)
      → let r = scan_step cb c probe idx q rng st contended in
        Nearer q r.queue contended (passes_left q.mask q.num_workers st contended) r.outcome
  unfolding scan_step
  scan_step-Nearer rng own contended = popped (q.deques idx)
    where
      popped :
          (ts : List Task)
          → Nearer q
              (pop_own q idx rng ts).queue
              contended
              (passes_left q.mask q.num_workers own contended)
              (pop_own q idx rng ts).outcome
      popped [] = (ground arith, λ e. cc, λ s. refl)
      popped (r ∷ rest) = tt
  scan_step-Nearer rng preferred contended =
      let (ne, same) = steal_injector-calm (bit_and idx q.mask) in
      on_steal-Nearer (steal_injector cb c q (bit_and idx q.mask) idx probe).0 _ enter_others
        contended (passes_left q.mask q.num_workers preferred contended) ne same (ground arith)
  scan_step-Nearer rng enter_others contended = elim (Bool-cases (ltb 1 (q.mask + 1))) [
    | inl more ↦ rw more (ground arith, λ e. e, λ s. refl)
    | inr one ↦ rw one (ground arith, λ e. e, λ s. refl)
  ]
  scan_step-Nearer rng (others start k) contended =
      elim (Bool-cases (ltb k (probe_limit q.mask probe))) [
        | inl more ↦ rw more (
            let (ne, same) = steal_injector-calm _ in
            on_steal-Nearer
              (steal_injector cb c q (shard_victim q.mask (bit_and idx q.mask) start k) idx probe).0
              _ (others start (suc k)) contended
              (passes_left q.mask q.num_workers (others start k) contended) ne same
              (ground (arith, probe_limit-le q.mask probe)))
        | inr over ↦ rw over (ground arith, λ e. e, λ s. refl)
      ]
  scan_step-Nearer rng enter_peers contended = elim (Bool-cases (ltb 1 q.num_workers)) [
    | inl more ↦ rw more (ground arith, λ e. e, λ s. refl)
    | inr one ↦ rw one (ground arith, λ e. e, λ s. refl)
  ]
  scan_step-Nearer rng (peers start k) contended =
      elim (Bool-cases (ltb k (probe_limit (q.num_workers - 1) probe))) [
        | inl more ↦ rw more (
            let (ne, same) = steal_peer-calm _ in
            on_steal-Nearer (steal_peer cb c q (peer_victim q.num_workers idx start k) idx probe).0
              _ (peers start (suc k)) contended
              (passes_left q.mask q.num_workers (peers start k) contended) ne (λ e. same)
              (ground (arith, probe_limit-le (q.num_workers - 1) probe)))
        | inr over ↦ rw over (ground arith, λ e. e, λ s. refl)
      ]
  scan_step-Nearer rng pass_end false = tt
  scan_step-Nearer rng pass_end true = (omega arith, λ e. cc, λ s. refl)

pub steps_left-pos : (mask n : ℕ) (st : Stage) → 0 < steps_left mask n st
steps_left-pos mask n st = ground arith

pub passes_left-pos :
    (mask n : ℕ) (st : Stage) (contended : Bool) → 0 < passes_left mask n st contended
passes_left-pos mask n st contended = ground (arith, steps_left-pos mask n st)
