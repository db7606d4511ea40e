-- ===== src/Queue/System/Joined.antt =====
-- src/queue.rs and src/lib.rs: what is left when the drop of a pool has joined all workers.
use affinitypool.Base.{
  ℕ, ◌≤◌, ◌<◌, ◌^◌, ◌≡◌, ◌≢◌, sym, inl, inr, [], Option, false, arith, dec_lt, List-cases,
}
use affinitypool.Queue.Threads.{exited, Env}
use affinitypool.Queue.Turns.{closes}
use affinitypool.Queue.Turns.Classes.{Agent}
use affinitypool.Queue.Turns.Leaving.{IsOutside}
use affinitypool.Queue.System.{System}
use affinitypool.Queue.System.Invariant.{Inv, SeenTo}
use affinitypool.Queue.System.Preserve.{step-turn, turn-Inv}
use affinitypool.Queue.System.Safety.{IsPool, Reach-Inv}
use mathlib.Core.Path.{subst}
use affinitypool.Queue.System.Closing.{
  Closed, shuts, goes, after-IsOutside, after-Agent, Leaves-is_leaving, outside-Agent,
}

-- Once the drop of the pool has begun: no foreign thread pushes, and some thread sees to each filled
-- shard, whoever has left.
pub record IsClosed {Task : Type 0} (n bound e : ℕ) (s : System Task) : Type 0 where
  pub inv : Inv n bound e s
  pub outside : (j : ℕ) → n ≤ j → IsOutside (s.threads j).pc
  pub seen :
      (sh : ℕ)
      → sh < 2 ^ e
      → s.queue.injectors sh ≢ []
      → (j : ℕ) × Agent n s.queue.mask j sh (s.threads j).pc

module _ {Task : Type 0} (env : Env Task) (bound num_workers : ℕ) (shards : Option ℕ)
    (pool : IsPool bound num_workers) where
  -- Before `shutdown` no worker has left, so that each filled shard was seen to.
  open-Agent :
      (s : System Task) (e : ℕ) (inv : Inv num_workers bound e s)
      → s.queue.shutdown ≡ false
      → (sh : ℕ) → sh < 2 ^ e
      → s.queue.injectors sh ≢ []
      → (j : ℕ) × Agent num_workers s.queue.mask j sh (s.threads j).pc
  open-Agent s e inv open' sh hs filled = from (inv.seen sh hs filled)
    where
      from :
          SeenTo num_workers s.queue.mask sh s.threads
          → (j : ℕ) × Agent num_workers s.queue.mask j sh (s.threads j).pc
      from (inl agent) = agent
      from (inr gone) =
          absurd (
            cc (inv.leaves 0 (Leaves-is_leaving (s.threads 0).pc (gone 0 pool.some_worker)), open'))

  pub Closed-IsClosed :
      (s : System Task)
      → Closed env bound num_workers shards s
      → (e : ℕ) × IsClosed num_workers bound e s
  Closed-IsClosed s' (shuts {s = s} i c r callers open' foreign eq) =
      let (e, inv) = Reach-Inv env bound num_workers shards pool s r in
      let (lt, eff, turn, same) = step-turn env bound s s' i closes c eq in
      let outside : (j : ℕ) → num_workers ≤ j → IsOutside (s.threads j).pc =
        λ j le. subst IsOutside (sym (callers j le)) tt in
      (
        e,
        subst (IsClosed num_workers bound e) (sym same) (record {
          inv = turn-Inv env inv i lt closes turn c;
          outside = after-IsOutside env inv outside i lt closes (λ r p. absurd (cc p)) turn c;
          seen =
              after-Agent env inv outside i lt closes (λ r p. absurd (cc p)) turn c
                (open-Agent s e inv open');
        }),
      )
  Closed-IsClosed s' (goes {s = s} i a c d silent eq) =
      let (e, old) = Closed-IsClosed s d in
      let (lt, eff, turn, same) = step-turn env bound s s' i a c eq in
      (
        e,
        subst (IsClosed num_workers bound e) (sym same) (record {
          inv = turn-Inv env old.inv i lt a turn c;
          outside = after-IsOutside env old.inv old.outside i lt a silent turn c;
          seen = after-Agent env old.inv old.outside i lt a silent turn c old.seen;
        }),
      )

  exited-Agent :
      (s : System Task) (e : ℕ)
      → IsClosed num_workers bound e s
      → ((w : ℕ) → w < num_workers → (s.threads w).pc ≡ exited)
      → (sh j : ℕ) → Agent num_workers s.queue.mask j sh (s.threads j).pc
      → ⊥
  exited-Agent s e closed joined sh j agent = elim (dec_lt j num_workers) [
    | yes below ↦ subst (Agent num_workers s.queue.mask j sh) (joined j below) agent
    | no ge ↦
        outside-Agent num_workers s.queue.mask j sh (s.threads j).pc (omega arith)
          (closed.outside j (omega arith)) agent
  ]

  -- Once all workers are joined, every shard is empty.
  pub joined-shards :
      (s : System Task)
      → Closed env bound num_workers shards s
      → ((w : ℕ) → w < num_workers → (s.threads w).pc ≡ exited)
      → (sh : ℕ) → sh < s.queue.num_injectors
      → s.queue.injectors sh ≡ []
  joined-shards s d joined sh hs =
      let (e, closed) = Closed-IsClosed s d in
      elim (List-cases (s.queue.injectors sh)) [
        | inl vacant ↦ vacant
        | inr filled ↦
            let (j, agent) = closed.seen sh (omega (arith, closed.inv.num_injectors)) filled in
            absurd (exited-Agent s e closed joined sh j agent)
      ]
