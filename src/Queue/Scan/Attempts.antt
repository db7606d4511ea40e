-- ===== src/Queue/Scan/Attempts.antt =====
-- src/queue.rs: what one attempt to steal does to the queue.
use affinitypool.Base.{
  ℕ, ◌+◌, ◌≡◌, ◌≢◌, refl, ◌∙◌, inl, inr, List, [], ◌∷◌, ◌++◌, ◌&&◌, arith, Bool-cases,
}
use affinitypool.Base.Family.{update, update_self, weight, weight-append}
use affinitypool.Queue.{Queue, Probe}
use affinitypool.Queue.Scan.{
  Steal, success, retry, empty, Attempt, Crossbeam, is_empty, is_cheap, steal_injector, steal_peer,
  take_from_injector, take_from_peer,
}

-- The fields of a queue that no scan touches.
pub record SameControl {Task : Type 0} (q q' : Queue Task) : Type 0 where
  pub num_injectors : q'.num_injectors ≡ q.num_injectors
  pub stealers : q'.stealers ≡ q.stealers
  pub num_workers : q'.num_workers ≡ q.num_workers
  pub mask : q'.mask ≡ q.mask
  pub park : q'.park ≡ q.park
  pub parked : q'.parked ≡ q.parked
  pub notified : q'.notified ≡ q.notified
  pub shutdown : q'.shutdown ≡ q.shutdown

-- The weight of the runnable that an attempt returns.
abbrev pub stolen : {Task : Type 0} → (Task → ℕ) → Steal Task → ℕ
stolen w (success r) = w r
stolen w retry = 0
stolen w empty = 0

weight_one-zero : {Task : Type 0} (xs : List Task) → weight (λ _. 1) xs ≡ 0 → xs ≡ []
weight_one-zero [] h = refl
weight_one-zero (x ∷ xs) h = absurd (omega arith)

module _ {Task : Type 0} (cb : Crossbeam Task) (c : cb.Choice) where
  abbrev attempt : List Task → Attempt Task
  attempt = cb.steal_batch_and_pop c

  attempt-cases :
      (q : List Task) (s : Steal Task)
      → (attempt q).result ≡ s
      → (w : Task → ℕ)
      → weight w q ≡ stolen w s + (weight w (attempt q).moved + weight w (attempt q).left)
  attempt-cases q (success r) e w =
      omega (arith, cb.success_keeps c q r e w, weight-append w (attempt q).moved (attempt q).left)
  attempt-cases q retry e w = let (l, m) = cb.retry_keeps c q e in ground arith
  attempt-cases q empty e w = let (z, l, m) = cb.empty_only c q e in ground arith

  -- No attempt changes what there is.
  pub attempt_keeps :
      (q : List Task) (w : Task → ℕ)
      → weight w q
        ≡ stolen w (attempt q).result + (weight w (attempt q).moved + weight w (attempt q).left)
  attempt_keeps q w = attempt-cases q _ refl w

  attempt_none : (q : List Task) → q ≡ [] → ((attempt q).left ≡ []) × ((attempt q).moved ≡ [])
  attempt_none q e = (
    weight_one-zero _ (ground (arith, attempt_keeps q (λ _. 1))),
    weight_one-zero _ (ground (arith, attempt_keeps q (λ _. 1))),
  )

-- What a step of a scan by worker `idx` may change: it puts runnables nowhere but into that worker's
-- deque.
pub record Fills {Task : Type 0} (idx : ℕ) (q q' : Queue Task) : Type 0 where
  pub control : SameControl q q'
  pub shard_stays : (s : ℕ) → q.injectors s ≡ [] → q'.injectors s ≡ []
  pub deque_stays : (j : ℕ) → j ≢ idx → q.deques j ≡ [] → q'.deques j ≡ []

-- New contents change no other field.
pub SameControl-contents :
    {Task : Type 0} (q : Queue Task) (injectors deques : ℕ → List Task)
    → SameControl q (record q { injectors = injectors; deques = deques })
SameControl-contents q injectors deques = record {
  num_injectors = refl;
  stealers = refl;
  num_workers = refl;
  mask = refl;
  park = refl;
  parked = refl;
  notified = refl;
  shutdown = refl;
}

pub Fills-refl : {Task : Type 0} (idx : ℕ) (q : Queue Task) → Fills idx q q
Fills-refl idx q = record {
  control = SameControl-contents q _ _;
  shard_stays = λ s e. e;
  deque_stays = λ j ne e. e;
}

module _ {Task : Type 0} (cb : Crossbeam Task) (c : cb.Choice) where
  take_from_injector-Fills :
      (q : Queue Task) (victim idx : ℕ)
      → Fills idx q
          (take_from_injector cb q victim idx (cb.steal_batch_and_pop c (q.injectors victim)))
  take_from_injector-Fills q victim idx = record {
    control = SameControl-contents q _ _;
    shard_stays = λ s e. ground (arith, attempt_none cb c (q.injectors victim));
    deque_stays = λ j ne e. ground arith;
  }

  take_from_peer-Fills :
      (q : Queue Task) (victim idx : ℕ)
      → Fills idx q (take_from_peer cb q victim idx (cb.steal_batch_and_pop c (q.deques victim)))
  take_from_peer-Fills q victim idx = record {
    control = SameControl-contents q _ _;
    shard_stays = λ s e. e;
    deque_stays = λ j ne e. ground (arith, attempt_none cb c (q.deques victim));
  }

  pub steal_injector-Fills :
      (q : Queue Task) (victim idx : ℕ) (probe : Probe)
      → Fills idx q (steal_injector cb c q victim idx probe).0
  unfolding steal_injector
  steal_injector-Fills q victim idx probe =
      elim (Bool-cases (is_cheap probe && is_empty (q.injectors victim))) [
        | inl skip ↦ rw skip (Fills-refl idx q)
        | inr steal ↦ rw steal (take_from_injector-Fills q victim idx)
      ]

  pub steal_peer-Fills :
      (q : Queue Task) (victim idx : ℕ) (probe : Probe)
      → Fills idx q (steal_peer cb c q victim idx probe).0
  unfolding steal_peer
  steal_peer-Fills q victim idx probe = elim (Bool-cases (q.stealers victim)) [
    | inl filled ↦ elim (Bool-cases (is_cheap probe && is_empty (q.deques victim))) [
      | inl skip ↦ rw (filled, skip) (Fills-refl idx q)
      | inr steal ↦ rw (filled, steal) (take_from_peer-Fills q victim idx)
    ]
    | inr vacant ↦ rw vacant (Fills-refl idx q)
  ]

  own_kept :
      (source own : List Task)
      → let a = cb.steal_batch_and_pop c source in
        (s : Steal Task) → a.result ≡ s → stolen (λ _. 1) s ≡ 0 → own ≡ [] → own ++ a.moved ≡ []
  own_kept source own (success r) e z o = absurd (omega arith)
  own_kept source own retry e z o = ground (arith, (cb.retry_keeps c source e).1)
  own_kept source own empty e z o = ground (arith, (cb.empty_only c source e).2)

  -- A failed attempt puts nothing into the thief's deque.
  pub steal_injector-own :
      (q : Queue Task) (victim idx : ℕ) (probe : Probe)
      → stolen (λ _. 1) (steal_injector cb c q victim idx probe).1 ≡ 0
      → q.deques idx ≡ []
      → (steal_injector cb c q victim idx probe).0.deques idx ≡ []
  unfolding steal_injector
  steal_injector-own q victim idx probe =
      elim (Bool-cases (is_cheap probe && is_empty (q.injectors victim))) [
        | inl skip ↦ rw skip (λ z o. o)
        | inr steal ↦ rw steal λ z o.
            update_self q.deques idx _ ∙ own_kept (q.injectors victim) (q.deques idx) _ refl z o
      ]

  pub steal_peer-own :
      (q : Queue Task) (victim idx : ℕ) (probe : Probe)
      → stolen (λ _. 1) (steal_peer cb c q victim idx probe).1 ≡ 0
      → q.deques idx ≡ []
      → (steal_peer cb c q victim idx probe).0.deques idx ≡ []
  unfolding steal_peer
  steal_peer-own q victim idx probe = elim (Bool-cases (q.stealers victim)) [
    | inl filled ↦ elim (Bool-cases (is_cheap probe && is_empty (q.deques victim))) [
      | inl skip ↦ rw (filled, skip) (λ z o. o)
      | inr steal ↦
          rw (filled, steal)
            λ z o.
              update_self (update q.deques victim _) idx _
              ∙ own_kept (q.deques victim) (q.deques idx) _ refl z o
    ]
    | inr vacant ↦ rw vacant (λ z o. o)
  ]

  -- An injector that an attempt finds empty is empty.
  pub steal_injector-empty :
      (q : Queue Task) (victim idx : ℕ) (probe : Probe)
      → (steal_injector cb c q victim idx probe).1 ≡ empty
      → q.injectors victim ≡ []
  unfolding steal_injector
  steal_injector-empty q victim idx probe =
      elim (Bool-cases (is_cheap probe && is_empty (q.injectors victim))) [
        | inl skip ↦ λ e. ground arith
        | inr steal ↦ rw steal (λ e. (cb.empty_only c (q.injectors victim) e).0)
      ]
