-- ===== src/Queue/Shards.antt =====
-- src/queue.rs: the shard count of a new queue.
use native.Mathlib.Nat.{pow-succ', one-le-pow}
use affinitypool.Base.{
  ℕ, zero, suc, ◌+◌, ◌-◌, ◌*◌, ◌/◌, ◌^◌, ◌≤◌, ◌<◌, ◌≡◌, refl, ap, ◌∙◌, leb, if◌then◌else◌, Option,
  none, some, arith, dec_lt,
}
use affinitypool.Queue.{max_threads, max_shards, clamp, ceil_log2, next_power_of_two, num_shards}
use Prim.Native.Nat.{min, max}

-- One step of the recursion of `ceil_log2`.
ceil_log2_small : (fuel n : ℕ) → n ≤ 1 → ceil_log2 fuel n ≡ 0
unfolding ceil_log2
ceil_log2_small zero n h = refl
ceil_log2_small (suc fuel) n h = ground arith

ceil_log2_zero : (n : ℕ) → 2 ^ ceil_log2 0 n ≡ 1
unfolding ceil_log2
ceil_log2_zero n = refl

ceil_log2_halve :
    (fuel n : ℕ) → 1 < n → 2 ^ ceil_log2 (suc fuel) n ≡ 2 * 2 ^ ceil_log2 fuel ((n + 1) / 2)
ceil_log2_halve fuel n h = ap (λ (t : ℕ). 2 ^ t) step ∙ pow-succ' 2 _
  where
    step : ceil_log2 (suc fuel) n ≡ suc (ceil_log2 fuel ((n + 1) / 2))
    step = unfold ceil_log2 in ground arith

-- The power of two is at least `n`, and at most `2 * (n - 1)` unless `n` is 1.
ceil_log2-bounds :
    (fuel n : ℕ)
    → n ≤ fuel
    → 0 < n
    → (n ≤ 2 ^ ceil_log2 fuel n) × (2 ^ ceil_log2 fuel n ≤ 1 + (2 * (n - 1) - 1))
ceil_log2-bounds zero n le pos = absurd (omega arith)
ceil_log2-bounds (suc fuel) n le pos = elim (dec_lt 1 n) [
  | yes more ↦ omega (
    arith,
    ceil_log2_halve fuel n more,
    ceil_log2-bounds fuel ((n + 1) / 2) (omega arith) (omega arith),
  )
  | no one ↦ rw (ceil_log2_small (suc fuel) n (omega arith)) (omega arith)
]

-- No smaller power of two is at least `n`.
ceil_log2-least : (fuel j n : ℕ) → n ≤ 2 ^ j → 2 ^ ceil_log2 fuel n ≤ 2 ^ j
ceil_log2-least zero j n h = rw (ceil_log2_zero n) (one-le-pow j 2 (omega arith))
ceil_log2-least (suc fuel) zero n h = rw (ceil_log2_small (suc fuel) n h) (omega arith)
ceil_log2-least (suc fuel) (suc j) n h = elim (dec_lt 1 n) [
  | yes more ↦ omega (
    arith,
    ceil_log2_halve fuel n more,
    pow-succ' 2 j,
    ceil_log2-least fuel j ((n + 1) / 2) (omega (arith, pow-succ' 2 j)),
  )
  | no one ↦ rw (ceil_log2_small (suc fuel) n (omega arith)) (one-le-pow (suc j) 2 (omega arith))
]

-- The number of shards that is asked for: the override within `1..=num_workers`, or one for each
-- worker and at most `max_shards`.
abbrev pub wanted : ℕ → Option ℕ → ℕ
wanted num_workers none = min num_workers max_shards
wanted num_workers (some n) = min (max n 1) num_workers

-- What a shard count has to satisfy: a power of two within the bounds.
pub record IsShardCount (num_workers : ℕ) (shard_override : Option ℕ) (shards : ℕ) : Type 0 where
  pub exponent : ℕ
  pub power : shards ≡ 2 ^ exponent
  pub positive : 0 < shards
  pub enough : wanted num_workers shard_override ≤ shards
  pub tight : shards < 2 * wanted num_workers shard_override
  pub bounded : shards ≤ max_threads

clamp-some : (x lo hi : ℕ) → lo ≤ hi → clamp x lo hi ≡ some (min (max x lo) hi)
unfolding clamp
clamp-some x lo hi h = ground arith

next_power_of_two-some : (n : ℕ) → n ≤ max_threads → next_power_of_two n ≡ some (2 ^ ceil_log2 n n)
unfolding next_power_of_two
next_power_of_two-some n h = ground arith

wanted-le :
    (num_workers : ℕ) (shard_override : Option ℕ)
    → num_workers ≤ max_threads
    → wanted num_workers shard_override ≤ max_threads
wanted-le num_workers none h = omega arith
wanted-le num_workers (some n) h = omega arith

wanted-pos :
    (num_workers : ℕ) (shard_override : Option ℕ)
    → 0 < num_workers
    → 0 < wanted num_workers shard_override
wanted-pos num_workers none h = omega arith
wanted-pos num_workers (some n) h = omega arith

-- The exponent of the shard count.
shard_exponent : ℕ → Option ℕ → ℕ
shard_exponent num_workers none =
    if leb num_workers max_shards then ceil_log2 num_workers num_workers else 3
shard_exponent num_workers (some n) = let w = wanted num_workers (some n) in ceil_log2 w w

num_shards-eq :
    (num_workers : ℕ) (shard_override : Option ℕ)
    → 0 < num_workers
    → num_workers ≤ max_threads
    → num_shards num_workers shard_override ≡ some (2 ^ shard_exponent num_workers shard_override)
unfolding num_shards shard_exponent
num_shards-eq num_workers none pos small =
    rw (next_power_of_two-some num_workers small, clamp-some _ 1 max_shards (omega arith))
      (ground (
        arith,
        ceil_log2-bounds num_workers num_workers,
        ceil_log2-least num_workers 3 num_workers,
        one-le-pow (ceil_log2 num_workers num_workers) 2,
      ))
num_shards-eq num_workers (some n) pos small =
    rw (clamp-some n 1 num_workers pos) (next_power_of_two-some _ (omega arith))

shard_exponent-bounds :
    (num_workers : ℕ) (shard_override : Option ℕ)
    → 0 < num_workers
    → let w = wanted num_workers shard_override in
      let shards = 2 ^ shard_exponent num_workers shard_override in
      (w ≤ shards) × (shards ≤ 1 + (2 * (w - 1) - 1))
unfolding shard_exponent
shard_exponent-bounds num_workers none pos =
    ground (arith, ceil_log2-bounds num_workers num_workers)
shard_exponent-bounds num_workers (some n) pos =
    ceil_log2-bounds _ (wanted num_workers (some n)) (omega arith) (omega arith)

shard_exponent-least :
    (num_workers : ℕ) (shard_override : Option ℕ) (j : ℕ)
    → wanted num_workers shard_override ≤ 2 ^ j
    → 2 ^ shard_exponent num_workers shard_override ≤ 2 ^ j
unfolding shard_exponent
shard_exponent-least num_workers none j h =
    ground (arith, ceil_log2-least num_workers j num_workers)
shard_exponent-least num_workers (some n) j h = ceil_log2-least _ j _ h

-- For one to `MAX_THREADS` workers and any shard override, `Queue::new` finds a shard count: a
-- power of two, at least the number asked for, less than twice that, and at most `MAX_THREADS`.
pub num_shards-IsShardCount :
    (num_workers : ℕ) (shard_override : Option ℕ)
    → 0 < num_workers
    → num_workers ≤ max_threads
    → (shards : ℕ) × (num_shards num_workers shard_override ≡ some shards)
      × IsShardCount num_workers shard_override shards
num_shards-IsShardCount num_workers shard_override pos small = (
  2 ^ e,
  num_shards-eq num_workers shard_override pos small,
  record {
    exponent = e;
    power = refl;
    positive = one-le-pow e 2 (omega arith);
    enough = bounds.0;
    tight = omega (arith, bounds.1, wanted-pos num_workers shard_override pos);
    bounded = shard_exponent-least num_workers shard_override 9 below;
  },
)
  where
    e : ℕ
    e = shard_exponent num_workers shard_override

    bounds :
        (wanted num_workers shard_override ≤ 2 ^ e)
        × (2 ^ e ≤ 1 + (2 * (wanted num_workers shard_override - 1) - 1))
    bounds = shard_exponent-bounds num_workers shard_override pos

    below : wanted num_workers shard_override ≤ 2 ^ 9
    below = wanted-le num_workers shard_override small

-- For one to `MAX_THREADS` workers, the shard count that `Queue::new` finds is at most any power
-- of two that is at least the number asked for.
num_shards_least :
    (num_workers : ℕ) (shard_override : Option ℕ) (shards j : ℕ)
    → 0 < num_workers
    → num_workers ≤ max_threads
    → num_shards num_workers shard_override ≡ some shards
    → wanted num_workers shard_override ≤ 2 ^ j
    → shards ≤ 2 ^ j
num_shards_least num_workers shard_override shards j pos small e h = ground (
  arith,
  num_shards-eq num_workers shard_override pos small,
  shard_exponent-least num_workers shard_override j h,
)
