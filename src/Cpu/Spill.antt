-- ===== src/Cpu/Spill.antt =====
-- src/cpu.rs: affinity below the spill threshold, rotation above it.
use native.Mathlib.Nat.{mod-lt, mod-add-mod, add-mod-mod}
use affinitypool.Base.{ℕ, suc, ◌+◌, ◌-◌, ◌%◌, ◌^◌, ◌≤◌, ◌<◌, ◌≡◌, ap, sym, ◌∙◌, arith}
use affinitypool.Base.Mask.{bit_and-mask}
use affinitypool.Cpu.{u32_max}
use affinitypool.Cpu.Route.{
  shard_of_push, shard_of_push_lem, count_of_push-eq, count_of_push_saturated, spill_target-mod,
}

-- A thread that pushes to one queue only, with `2 ^ k` shards and at most 512: its first 8
-- pushes go to the shard that its hash prefers.
shard_of_push_affine :
    (k hint n : ℕ) → 2 ^ k ≤ 512 → n < 8 → shard_of_push hint (2 ^ k - 1) n ≡ hint % 2 ^ k
shard_of_push_affine k hint n small h =
    ground (arith, shard_of_push_lem k hint n, count_of_push-eq n, bit_and-mask k hint)

-- A thread that pushes to one queue only, with `2 ^ k` shards and at most 512: its push number
-- `n`, counted from 0, goes to the shard `n - 7` after the preferred one, cyclically, for `n`
-- from 8 to below `u32::MAX`.
shard_of_push_spill :
    (k hint n : ℕ)
    → 2 ^ k ≤ 512
    → 8 ≤ n
    → n < u32_max
    → shard_of_push hint (2 ^ k - 1) n ≡ (hint + (n - 7)) % 2 ^ k
shard_of_push_spill k hint n small above below =
    ground (arith, shard_of_push_lem k hint n, count_of_push-eq n, spill_target-mod k hint (n - 7))

-- The number to add to `c` for the remainder `s`.
abbrev gap : ℕ → ℕ → ℕ → ℕ
gap m c s = (s + m - c % m) % m

add-gap-mod : (m c s : ℕ) → s < m → (c + gap m c s) % m ≡ s
add-gap-mod m c s h =
    add-mod-mod c (s + m - c % m) m
    ∙ sym (mod-add-mod c m (s + m - c % m))
    ∙ ap (λ (t : ℕ). t % m) over
    ∙ wrap
  where
    over : c % m + (s + m - c % m) ≡ s + m
    over = omega (arith, mod-lt c {m = m} (omega arith))

    wrap : (s + m) % m ≡ s
    wrap = grind arith

-- A thread that pushes to one queue only, with `2 ^ k` shards and at most 512: from its push
-- number 8 on, counted from 0, and while the count stays in a `u32`, any `2 ^ k` consecutive
-- pushes reach every shard.
pub shard_of_push_covers :
    (k hint m s : ℕ)
    → 2 ^ k ≤ 512
    → 8 ≤ m
    → m + 2 ^ k ≤ u32_max
    → s < 2 ^ k
    → (j : ℕ) × (j < 2 ^ k) × (shard_of_push hint (2 ^ k - 1) (m + j) ≡ s)
shard_of_push_covers k hint m s small above room h = (j, near, reached)
  where
    j : ℕ
    j = gap (2 ^ k) (hint + (m - 7)) s

    near : j < 2 ^ k
    near = mod-lt _ (omega arith)

    same : hint + (m + j - 7) ≡ hint + (m - 7) + j
    same = omega arith

    reached : shard_of_push hint (2 ^ k - 1) (m + j) ≡ s
    reached =
        shard_of_push_spill k hint (m + j) small (omega arith) (omega arith)
        ∙ ap (λ (t : ℕ). t % 2 ^ k) same
        ∙ add-gap-mod (2 ^ k) (hint + (m - 7)) s h

-- A thread that pushes to one queue only, with `2 ^ k` shards and at most 512: once it has
-- pushed `u32::MAX` times, each push goes to the shard of the push before.
pub shard_of_push_saturated :
    (k hint n : ℕ)
    → 2 ^ k ≤ 512
    → u32_max ≤ suc n
    → shard_of_push hint (2 ^ k - 1) (suc n) ≡ shard_of_push hint (2 ^ k - 1) n
shard_of_push_saturated k hint n small full = rw (
  shard_of_push_lem k hint (suc n) small,
  shard_of_push_lem k hint n small,
  count_of_push_saturated (suc n) (omega arith),
  count_of_push_saturated n full,
)
