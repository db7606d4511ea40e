-- ===== src/Cpu/Route.antt =====
-- src/cpu.rs: where one push goes, and the shards that consecutive pushes of one thread take.
use native.Mathlib.Nat.{mod-eq_of_lt, mod-add-mod}
use affinitypool.Base.{
  ℕ, zero, suc, ◌+◌, ◌-◌, ◌%◌, ◌^◌, ◌≤◌, ◌<◌, ◌≡◌, refl, ap, ◌∙◌, Option, none, some, bit_and,
  arith, dec_lt, u64_mod,
}
use affinitypool.Base.Mask.{bit_and-mask, bit_and-mask-lt}
use affinitypool.Cpu.{
  ProducerRoute, route_shard, spill_target, spill_threshold, u32_max, saturating_add_one,
}

spill_target-lt :
    (k preferred count : ℕ) → preferred < 2 ^ k → spill_target (2 ^ k - 1) preferred count < 2 ^ k
spill_target-lt k preferred count h =
    ground (arith, bit_and-mask-lt k ((preferred + (count - spill_threshold)) % u64_mod))

-- Whatever the hash of the thread and its cached route, the shard chosen for a push is below `2
-- ^ k` if there are `2 ^ k` shards.
pub route_shard-lt :
    (k hint : ℕ) (cell : Option ProducerRoute) → (route_shard hint (2 ^ k - 1) cell).0 < 2 ^ k
unfolding route_shard
route_shard-lt k hint none = spill_target-lt k _ _ (bit_and-mask-lt k hint)
route_shard-lt k hint (some r) = spill_target-lt k _ _ (bit_and-mask-lt k r.shard_hint)

-- The route of a thread after its first `n` pushes, all to a queue with this mask.
unfoldable pub route_after : ℕ → ℕ → ℕ → Option ProducerRoute
route_after hint mask zero = none
route_after hint mask (suc n) = some (route_shard hint mask (route_after hint mask n)).1

-- The shard of push number `n`, from 0, of a thread that pushes to one queue only.
unfoldable pub shard_of_push : ℕ → ℕ → ℕ → ℕ
unfolding route_after
shard_of_push hint mask n = (route_shard hint mask (route_after hint mask n)).0

-- The consecutive count that push number `n` is routed with.
abbrev pub count_of_push : ℕ → ℕ
count_of_push zero = 1
count_of_push (suc n) = saturating_add_one (count_of_push n)

-- The route once the thread's preferred shard is the one it pushed to last.
abbrev settled : ℕ → ℕ → ℕ → ProducerRoute
settled k hint count = record {
  shard_hint = hint;
  last_preferred = bit_and hint (2 ^ k - 1);
  consecutive = count;
}

route_shard_fresh :
    (k hint : ℕ)
    → 2 ^ k ≤ 512
    → route_shard hint (2 ^ k - 1) none
      ≡ (spill_target (2 ^ k - 1) (bit_and hint (2 ^ k - 1)) 1, settled k hint 1)
unfolding route_shard
route_shard_fresh k hint small = ground (arith, bit_and-mask-lt k hint)

route_shard-settled :
    (k hint count : ℕ)
    → route_shard hint (2 ^ k - 1) (some (settled k hint count)) ≡ (
      spill_target (2 ^ k - 1) (bit_and hint (2 ^ k - 1)) (saturating_add_one count),
      settled k hint (saturating_add_one count),
    )
unfolding route_shard
route_shard-settled k hint count = ground arith

route_after-suc :
    (k hint n : ℕ)
    → 2 ^ k ≤ 512
    → route_after hint (2 ^ k - 1) (suc n) ≡ some (settled k hint (count_of_push n))
unfolding route_after
route_after-suc k hint zero small = rw (route_shard_fresh k hint small)
route_after-suc k hint (suc n) small =
    ap (λ c. some (route_shard hint (2 ^ k - 1) c).1) (route_after-suc k hint n small)
    ∙ ap (λ (r : ℕ × ProducerRoute). some r.1) (route_shard-settled k hint (count_of_push n))

pub shard_of_push_lem :
    (k hint n : ℕ)
    → 2 ^ k ≤ 512
    → shard_of_push hint (2 ^ k - 1) n
      ≡ spill_target (2 ^ k - 1) (bit_and hint (2 ^ k - 1)) (count_of_push n)
unfolding shard_of_push
shard_of_push_lem k hint zero small =
    ap (λ (r : ℕ × ProducerRoute). r.0) (route_shard_fresh k hint small)
shard_of_push_lem k hint (suc n) small =
    ap (λ c. (route_shard hint (2 ^ k - 1) c).0) (route_after-suc k hint n small)
    ∙ ap (λ (r : ℕ × ProducerRoute). r.0) (route_shard-settled k hint (count_of_push n))

pub count_of_push-eq : (n : ℕ) → n < u32_max → count_of_push n ≡ suc n
count_of_push-eq zero h = refl
count_of_push-eq (suc n) h = ground (arith, count_of_push-eq n)

pub count_of_push_saturated : (n : ℕ) → u32_max ≤ suc n → count_of_push n ≡ u32_max
count_of_push_saturated zero h = absurd (omega arith)
count_of_push_saturated (suc n) h = elim (dec_lt n u32_max) [
  | yes below ↦ ground (arith, count_of_push-eq n)
  | no above ↦ ground (arith, count_of_push_saturated n)
]

-- The spill is a remainder: no intermediate sum wraps.
pub spill_target-mod :
    (k hint d : ℕ)
    → 2 ^ k ≤ 512
    → d < u32_max
    → bit_and ((bit_and hint (2 ^ k - 1) + d) % u64_mod) (2 ^ k - 1) ≡ (hint + d) % 2 ^ k
spill_target-mod k hint d small h =
    bit_and-mask k _
    ∙ ap (λ (t : ℕ). t % 2 ^ k) (mod-eq_of_lt (omega (arith, bit_and-mask-lt k hint)))
    ∙ ap (λ (t : ℕ). (t + d) % 2 ^ k) (bit_and-mask k hint)
    ∙ mod-add-mod hint (2 ^ k) d
