-- ===== src/Queue/Order/Scans.antt =====
-- src/queue.rs: the order of the runnables over a step of a scan by the one worker.
use affinitypool.Base.{
  ℕ, ◌+◌, ◌-◌, ◌≡◌, refl, sym, ◌∙◌, List, [], ◌∷◌, ◌++◌, Bool, true, false, ◌&&◌, ltb, bit_and,
  arith, ℕ_discrete, Bool-cases, inl, inr,
}
use affinitypool.Base.Family.{update_self}
use affinitypool.Queue.{Queue, Probe}
use affinitypool.Queue.Victims.{probe_limit}
use affinitypool.Queue.Scan.{
  Steal, success, retry, empty, Crossbeam, Stage, own, preferred, enter_others, others, enter_peers,
  peers, pass_end, Outcome, found, scan_step, steal_injector, on_steal, pop_own, is_cheap, is_empty,
  take_from_injector,
}
use affinitypool.Queue.Scan.Pass.{OwnDone}
use affinitypool.Queue.Scan.Weights.{probe_limit-le}
use affinitypool.Queue.Order.{Ordered, waiting}
use mathlib.Core.Path.{subst}

module _ {Task : Type 0} where
  -- What a step has found, in front of what waits.
  abbrev pub stolen_first : Steal Task → List Task → List Task
  stolen_first (success r) rs = r ∷ rs
  stolen_first _ rs = rs

  abbrev pub found_first : Outcome Task → List Task → List Task
  found_first (found r) rs = r ∷ rs
  found_first _ rs = rs

  on_steal-first :
      (res : Steal Task) (st : Stage) (contended : Bool) (rs : List Task)
      → found_first (on_steal res st contended) rs ≡ stolen_first res rs
  on_steal-first (success r) st contended rs = refl
  on_steal-first retry st contended rs = refl
  on_steal-first empty st contended rs = refl

module _ {Task : Type 0} (cb : Crossbeam Task) (c : cb.Choice) (ordered : Ordered cb)
    (probe : Probe) (q : Queue Task) where
  abbrev taken : List Task
  taken =
      (cb.steal_batch_and_pop c (q.injectors 0)).moved
      ++ (cb.steal_batch_and_pop c (q.injectors 0)).left

  after_steal-waiting :
      q.deques 0 ≡ []
      → waiting (take_from_injector cb q 0 0 (cb.steal_batch_and_pop c (q.injectors 0))) ≡ taken
  unfolding ℕ_discrete
  after_steal-waiting vacant = cc vacant

  -- A steal from the one shard, into an empty deque.
  stolen-waiting :
      (res : Steal Task)
      → q.deques 0 ≡ []
      → (cb.steal_batch_and_pop c (q.injectors 0)).result ≡ res
      → stolen_first res taken ≡ waiting q
  stolen-waiting (success r) vacant e = cc (vacant, ordered c (q.injectors 0) r e)
  stolen-waiting retry vacant e =
      let (left, moved) = cb.retry_keeps c (q.injectors 0) e in cc (vacant, left, moved)
  stolen-waiting empty vacant e =
      let (none_left, left, moved) = cb.empty_only c (q.injectors 0) e in
      cc (vacant, left, moved, none_left)

  steal_injector-waiting :
      q.deques 0 ≡ []
      → let r = steal_injector cb c q 0 0 probe in stolen_first r.1 (waiting r.0) ≡ waiting q
  unfolding steal_injector
  steal_injector-waiting vacant = elim (Bool-cases (is_cheap probe && is_empty (q.injectors 0))) [
    | inl skip ↦ rw skip refl
    | inr steal ↦
        rw (steal, after_steal-waiting vacant)
          (stolen-waiting (cb.steal_batch_and_pop c (q.injectors 0)).result vacant refl)
  ]

  own-waiting :
      (rng : ℕ) (ts : List Task)
      → q.deques 0 ≡ ts
      → let r = pop_own q 0 rng ts in found_first r.outcome (waiting r.queue) ≡ waiting q
  own-waiting rng [] e = refl
  own-waiting rng (r ∷ rest) e = cc (update_self q.deques 0 rest, e)

  -- No round of a loop over others is there for one worker with one shard.
  no_round : (span k : ℕ) → span ≡ 0 → ltb k (probe_limit span probe) ≡ false
  no_round span k none_there = ground (arith, probe_limit-le span probe)

  only_shard : q.mask ≡ 0 → bit_and 0 q.mask ≡ 0
  only_shard one = rw one refl

  pub scan_step-waiting :
      (rng : ℕ) (st : Stage) (contended : Bool)
      → q.mask ≡ 0
      → q.num_workers ≡ 1
      → OwnDone st (q.deques 0)
      → let r = scan_step cb c probe 0 q rng st contended in
        found_first r.outcome (waiting r.queue) ≡ waiting q
  unfolding scan_step
  scan_step-waiting rng own contended one alone vacant = own-waiting rng (q.deques 0) refl
  scan_step-waiting rng preferred contended one alone vacant =
      subst
        (λ victim.
          let r = steal_injector cb c q victim 0 probe in
          found_first (on_steal r.1 enter_others contended) (waiting r.0) ≡ waiting q)
        (sym (only_shard one))
        (on_steal-first (steal_injector cb c q 0 0 probe).1 enter_others contended
            (waiting (steal_injector cb c q 0 0 probe).0)
          ∙ steal_injector-waiting vacant)
  scan_step-waiting rng enter_others contended one alone vacant =
      elim (Bool-cases (ltb 1 (q.mask + 1))) [ inl more ↦ rw more refl | inr over ↦ rw over refl ]
  scan_step-waiting rng (others start k) contended one alone vacant =
      rw (no_round q.mask k one) refl
  scan_step-waiting rng enter_peers contended one alone vacant =
      elim (Bool-cases (ltb 1 q.num_workers)) [ inl more ↦ rw more refl | inr over ↦ rw over refl ]
  scan_step-waiting rng (peers start k) contended one alone vacant =
      rw (no_round (q.num_workers - 1) k (omega (arith, alone))) refl
  scan_step-waiting rng pass_end true one alone vacant = refl
  scan_step-waiting rng pass_end false one alone vacant = refl
