-- ===== src/Cpu.antt =====
-- src/cpu.rs: the choice of an injector shard for a push, with its per-thread cache.
--
-- The thread-local `ROUTE` is an argument and a result. The hash of the thread's id comes from the
-- standard library's `DefaultHasher`: it is the argument `hint`, any number.
pub mod Route
pub mod Spill
use affinitypool.Base.{
  ℕ, suc, ◌+◌, ◌-◌, ◌%◌, Option, none, some, bit_and, ◌==◌, leb, ltb, if◌then◌else◌, usize_max,
  u64_mod,
}

abbrev pub spill_threshold : ℕ
spill_threshold = 8

abbrev pub u32_max : ℕ
u32_max = 0xffff_ffff

pub record ProducerRoute : Type 0 where
  pub shard_hint : ℕ
  pub last_preferred : ℕ
  pub consecutive : ℕ

-- `u32::saturating_add(1)`.
abbrev pub saturating_add_one : ℕ → ℕ
saturating_add_one n = if ltb n u32_max then suc n else u32_max

-- The cached route, or a fresh one on a thread that has not pushed yet.
abbrev pub cached_route : ℕ → Option ProducerRoute → ProducerRoute
cached_route hint (some r) = r
cached_route hint none = record { shard_hint = hint; last_preferred = usize_max; consecutive = 0 }

abbrev pub preferred_shard : ℕ → ProducerRoute → ℕ
preferred_shard mask r = bit_and r.shard_hint mask

abbrev pub new_count : ℕ → ProducerRoute → ℕ
new_count mask r =
    if r.last_preferred == preferred_shard mask r then saturating_add_one r.consecutive else 1

abbrev pub spill_target : ℕ → ℕ → ℕ → ℕ
spill_target mask preferred count =
    if leb count spill_threshold
    then preferred
    else bit_and ((preferred + (count - spill_threshold)) % u64_mod) mask

-- The target shard, and the route that the thread keeps.
unfoldable pub route_shard : ℕ → ℕ → Option ProducerRoute → ℕ × ProducerRoute
route_shard hint mask cell =
    let r = cached_route hint cell in
    let preferred = preferred_shard mask r in
    let count = new_count mask r in
    (
      spill_target mask preferred count,
      record r { last_preferred = preferred; consecutive = count },
    )
