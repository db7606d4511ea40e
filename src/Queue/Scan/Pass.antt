-- ===== src/Queue/Scan/Pass.antt =====
-- src/queue.rs: what one step of `scan` does to the queue and the worker's generator.
use affinitypool.Base.{
  ℕ, ◌+◌, ◌-◌, ◌≡◌, refl, inl, inr, List, [], ◌∷◌, Bool, true, false, ltb, arith, Bool-cases,
}
use affinitypool.Queue.{Queue, Probe}
use affinitypool.Queue.Rng.{next_rand-IsState, IsState}
use affinitypool.Queue.Victims.{probe_limit}
use affinitypool.Queue.Scan.{
  Steal, success, retry, empty, Crossbeam, Stage, own, preferred, enter_others, others, enter_peers,
  peers, pass_end, Outcome, next, found, nothing, scan_step, on_steal, pop_own,
}
use affinitypool.Queue.Scan.Attempts.{
  Fills, Fills-refl, SameControl-contents, stolen, steal_injector-Fills, steal_peer-Fills,
  steal_injector-own, steal_peer-own,
}

-- The worker's own deque has been drained, from the stage after `own` on.
abbrev pub OwnDone : {Task : Type 0} → Stage → List Task → Type 0
OwnDone own ts = Unit
OwnDone _ ts = ts ≡ []

abbrev pub OwnAfter : {Task : Type 0} → Outcome Task → List Task → Type 0
OwnAfter (next st contended) ts = OwnDone st ts
OwnAfter (found r) ts = Unit
OwnAfter nothing ts = ts ≡ []

on_steal-own :
    {Task : Type 0} (res : Steal Task) (st : Stage) (contended : Bool) (ts : List Task)
    → (stolen (λ _. 1) res ≡ 0 → ts ≡ [])
    → OwnAfter (on_steal res st contended) ts
on_steal-own (success r) st contended ts h = tt
on_steal-own retry own contended ts h = tt
on_steal-own retry st contended ts h = h refl
on_steal-own empty own contended ts h = tt
on_steal-own empty st contended ts h = h refl

module _ {Task : Type 0} (cb : Crossbeam Task) (c : cb.Choice) where
  pub scan_step-Fills :
      (probe : Probe) (idx : ℕ) (q : Queue Task) (rng : ℕ) (st : Stage) (contended : Bool)
      → Fills idx q (scan_step cb c probe idx q rng st contended).queue
  unfolding scan_step
  scan_step-Fills probe idx q rng own contended = go (q.deques idx)
    where
      go : (ts : List Task) → Fills idx q (pop_own q idx rng ts).queue
      go [] = Fills-refl idx q
      go (r ∷ rest) = record {
        control = SameControl-contents q _ _;
        shard_stays = λ s e. e;
        deque_stays = λ j ne e. ground arith;
      }
  scan_step-Fills probe idx q rng preferred contended = steal_injector-Fills cb c q _ idx probe
  scan_step-Fills probe idx q rng enter_others contended = elim (Bool-cases (ltb 1 (q.mask + 1))) [
    | inl more ↦ rw more (Fills-refl idx q)
    | inr one ↦ rw one (Fills-refl idx q)
  ]
  scan_step-Fills probe idx q rng (others start k) contended =
      elim (Bool-cases (ltb k (probe_limit q.mask probe))) [
        | inl more ↦ rw more (steal_injector-Fills cb c q _ idx probe)
        | inr over ↦ rw over (Fills-refl idx q)
      ]
  scan_step-Fills probe idx q rng enter_peers contended = elim (Bool-cases (ltb 1 q.num_workers)) [
    | inl more ↦ rw more (Fills-refl idx q)
    | inr one ↦ rw one (Fills-refl idx q)
  ]
  scan_step-Fills probe idx q rng (peers start k) contended =
      elim (Bool-cases (ltb k (probe_limit (q.num_workers - 1) probe))) [
        | inl more ↦ rw more (steal_peer-Fills cb c q _ idx probe)
        | inr over ↦ rw over (Fills-refl idx q)
      ]
  scan_step-Fills probe idx q rng pass_end true = Fills-refl idx q
  scan_step-Fills probe idx q rng pass_end false = Fills-refl idx q

  pub scan_step-own :
      (probe : Probe) (idx : ℕ) (q : Queue Task) (rng : ℕ) (st : Stage) (contended : Bool)
      → OwnDone st (q.deques idx)
      → let r = scan_step cb c probe idx q rng st contended in
        OwnAfter r.outcome (r.queue.deques idx)
  unfolding scan_step
  scan_step-own probe idx q rng own contended o = go (q.deques idx) refl
    where
      go :
          (ts : List Task)
          → q.deques idx ≡ ts
          → OwnAfter (pop_own q idx rng ts).outcome ((pop_own q idx rng ts).queue.deques idx)
      go [] e = e
      go (r ∷ rest) e = tt
  scan_step-own probe idx q rng preferred contended o =
      on_steal-own _ _ contended _ (λ z. steal_injector-own cb c q _ idx probe z o)
  scan_step-own probe idx q rng enter_others contended o = elim (Bool-cases (ltb 1 (q.mask + 1))) [
    | inl more ↦ rw more o
    | inr one ↦ rw one o
  ]
  scan_step-own probe idx q rng (others start k) contended o =
      elim (Bool-cases (ltb k (probe_limit q.mask probe))) [
        | inl more ↦
            rw more (on_steal-own _ _ contended _ (λ z. steal_injector-own cb c q _ idx probe z o))
        | inr over ↦ rw over o
      ]
  scan_step-own probe idx q rng enter_peers contended o = elim (Bool-cases (ltb 1 q.num_workers)) [
    | inl more ↦ rw more o
    | inr one ↦ rw one o
  ]
  scan_step-own probe idx q rng (peers start k) contended o =
      elim (Bool-cases (ltb k (probe_limit (q.num_workers - 1) probe))) [
        | inl more ↦
            rw more (on_steal-own _ _ contended _ (λ z. steal_peer-own cb c q _ idx probe z o))
        | inr over ↦ rw over o
      ]
  scan_step-own probe idx q rng pass_end true o = tt
  scan_step-own probe idx q rng pass_end false o = o

module _ {Task : Type 0} (cb : Crossbeam Task) (c : cb.Choice) (idx : ℕ) (q : Queue Task) where
  -- Every step of a scan leaves the generator in a proper state.
  pub scan_step-rng :
      (probe : Probe) (rng : ℕ) (st : Stage) (contended : Bool)
      → IsState rng
      → IsState (scan_step cb c probe idx q rng st contended).rng
  unfolding scan_step
  scan_step-rng probe rng own contended state = own_rng (q.deques idx)
    where
      own_rng : (ts : List Task) → IsState (pop_own q idx rng ts).rng
      own_rng [] = state
      own_rng (r ∷ rest) = state
  scan_step-rng probe rng preferred contended state = state
  scan_step-rng probe rng enter_others contended state = elim (Bool-cases (ltb 1 (q.mask + 1))) [
    | inl more ↦ rw more (next_rand-IsState rng state)
    | inr one ↦ rw one state
  ]
  scan_step-rng probe rng (others start k) contended state =
      elim (Bool-cases (ltb k (probe_limit q.mask probe))) [
        | inl more ↦ rw more state
        | inr over ↦ rw over state
      ]
  scan_step-rng probe rng enter_peers contended state = elim (Bool-cases (ltb 1 q.num_workers)) [
    | inl more ↦ rw more (next_rand-IsState rng state)
    | inr one ↦ rw one state
  ]
  scan_step-rng probe rng (peers start k) contended state =
      elim (Bool-cases (ltb k (probe_limit (q.num_workers - 1) probe))) [
        | inl more ↦ rw more state
        | inr over ↦ rw over state
      ]
  scan_step-rng probe rng pass_end true state = state
  scan_step-rng probe rng pass_end false state = state
