-- ===== src/Queue/System/Invariant.antt =====
-- src/queue.rs: what holds in every state of the queue and its threads.
use affinitypool.Base.{
  ℕ, ◌≤◌, ◌<◌, ◌^◌, ◌≡◌, ◌≢◌, refl, sym, ◌⊎◌, List, [], Option, none, some, true, arith, usize_max,
}
use affinitypool.Base.Family.{total, total-zero}
use affinitypool.Queue.{Queue, max_threads, num_shards, fresh, new, ◌>>=◌}
use affinitypool.Queue.Shards.{num_shards-IsShardCount}
use affinitypool.Queue.Rng.{IsState}
use affinitypool.Queue.Scan.Coverage.{IsSharded}
use affinitypool.Queue.Threads.{Thread, raised, exited, unlock, quit}
use affinitypool.Queue.Turns.Classes.{
  is_parked, is_signalled, is_leaving, holds_lock, HasRole, Drained, Agent,
}
use affinitypool.Queue.System.{System, init, init_thread}
use mathlib.Core.Path.{subst}

-- A new queue is a fresh one.
pub new-fresh :
    {Task : Type 0} (n : ℕ) (shards : Option ℕ) (q : Queue Task)
    → new n shards ≡ some q
    → (count : ℕ) × (q ≡ fresh n count)
unfolding new
new-fresh {Task} n shards q made = from (num_shards n shards) made
  where
    from :
        (o : Option ℕ)
        → (o >>= λ count. some (fresh {Task = Task} n count)) ≡ some q
        → (count : ℕ) × (q ≡ fresh n count)
    from none e = absurd (cc e)
    from (some count) e = (count, cc e)

module _ {Task : Type 0} where
  abbrev pub parked_weight : Thread Task → ℕ
  parked_weight t = is_parked t.pc

  abbrev pub signal_weight : Thread Task → ℕ
  signal_weight t = is_signalled t.pc

  -- No worker is left to come: each has been told to exit.
  abbrev pub AllLeft : ℕ → (ℕ → Thread Task) → Type 0
  AllLeft n ts = (w : ℕ) → w < n → ((ts w).pc ≡ exited) ⊎ ((ts w).pc ≡ unlock quit)

  -- Some thread sees to shard `s`, or no worker is left.
  abbrev pub SeenTo : (n mask s : ℕ) → (ℕ → Thread Task) → Type 0
  SeenTo n mask s ts = ((i : ℕ) × Agent n mask i s (ts i).pc) ⊎ AllLeft n ts

  pub record Inv (n bound e : ℕ) (s : System Task) : Type 0 where
    pub sharded : IsSharded e s.queue
    pub num_workers : s.queue.num_workers ≡ n
    pub num_injectors : s.queue.num_injectors ≡ 2 ^ e
    pub workers : n ≤ bound
    pub countable : bound < usize_max
    pub parked : s.queue.parked ≡ total parked_weight bound s.threads
    pub notified : s.queue.notified ≤ total signal_weight bound s.threads
    pub held : (i : ℕ) → holds_lock (s.threads i).pc ≡ 1 → s.queue.park ≡ some i
    pub claimed :
        (i : ℕ)
        → (s.threads i).pc ≡ raised
        → (0 < s.queue.notified) × (s.queue.notified ≤ s.queue.parked)
    pub leaves : (i : ℕ) → is_leaving (s.threads i).pc ≡ 1 → s.queue.shutdown ≡ true
    pub role : (i : ℕ) → HasRole n i (s.threads i) (s.threads i).pc
    pub drained : (i : ℕ) → Drained (s.threads i).pc (s.queue.deques i)
    pub rng : (i : ℕ) → IsState (s.threads i).rng
    pub seen :
        (sh : ℕ) → sh < 2 ^ e → s.queue.injectors sh ≢ [] → SeenTo n s.queue.mask sh s.threads

  init-weights :
      (n i : ℕ)
      → (is_parked (init_thread {Task = Task} n i).pc ≡ 0)
        × (is_signalled (init_thread {Task = Task} n i).pc ≡ 0)
        × (holds_lock (init_thread {Task = Task} n i).pc ≡ 0)
        × (is_leaving (init_thread {Task = Task} n i).pc ≡ 0)
        × ((init_thread {Task = Task} n i).pc ≢ raised)
        × HasRole n i (init_thread {Task = Task} n i) (init_thread {Task = Task} n i).pc
  init-weights n i = ground arith

  init-Drained :
      (n i : ℕ) (ts : List Task) → ts ≡ [] → Drained (init_thread {Task = Task} n i).pc ts
  init-Drained n i ts e = ground arith

  fresh-Inv :
      (n bound e : ℕ)
      → 2 ^ e ≤ max_threads
      → n ≤ bound
      → bound < usize_max
      → Inv n bound e (init (fresh n (2 ^ e)))
  fresh-Inv n bound e few le fits = record {
    sharded = record { mask_ones = refl; few = few };
    num_workers = refl;
    num_injectors = refl;
    workers = le;
    countable = fits;
    parked = sym (total-zero parked_weight bound _ (λ i lt. (init-weights n i).0));
    notified = omega arith;
    held = λ i h. absurd (omega (arith, h, (init-weights n i).2));
    claimed = λ i h. absurd ((init-weights n i).4 h);
    leaves = λ i h. absurd (omega (arith, h, (init-weights n i).3));
    role = λ i. (init-weights n i).5;
    drained = λ i. init-Drained n i [] refl;
    rng = λ i. record { fits = omega arith; nonzero = omega arith };
    seen = λ sh lt filled. absurd (filled refl);
  }

  -- It holds at the start, for every shard override.
  pub init-Inv :
      (n bound : ℕ) (shards : Option ℕ) (q : Queue Task)
      → 0 < n
      → n ≤ max_threads
      → n ≤ bound
      → bound < usize_max
      → new n shards ≡ some q
      → (e : ℕ) × Inv n bound e (init q)
  unfolding new
  init-Inv n bound shards q pos small le fits made =
      let (count, chosen, good) = num_shards-IsShardCount n shards pos small in
      (
        good.exponent,
        subst (λ q'. Inv n bound good.exponent (init q'))
            (built count good.exponent chosen good.power)
            (fresh-Inv n bound good.exponent (omega (arith, good.power, good.bounded)) le fits),
      )
    where
      built : (count e : ℕ) → num_shards n shards ≡ some count → count ≡ 2 ^ e → fresh n (2 ^ e) ≡ q
      built count e chosen power = ground arith
