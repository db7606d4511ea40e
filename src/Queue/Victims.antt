-- ===== src/Queue/Victims.antt =====
-- src/queue.rs, steps 3 and 4 of `scan`: the victims of the two cross-worker loops, in their order.
pub mod Rounds
use native.Mathlib.Nat.{mod-eq_of_lt, mod-eq-sub-mod}
use affinitypool.Base.{
  ℕ, ◌+◌, ◌-◌, ◌*◌, ◌%◌, ◌^◌, ◌<◌, ◌≡◌, ◌≢◌, refl, ◌∙◌, ap, leb, if◌then◌else◌, bit_and, arith,
  dec_lt,
}
use affinitypool.Base.Mask.{bit_and-mask}
use affinitypool.Queue.{Probe, cheap, strict, cheap_scan_victims}
use Prim.Native.Nat.{min}

-- How many victims a loop walks.
unfoldable pub probe_limit : ℕ → Probe → ℕ
probe_limit span cheap = min span cheap_scan_victims
probe_limit span strict = span

-- `rot` of round `k`, for the rotation that starts at `start`.
unfoldable pub rotation : ℕ → ℕ → ℕ → ℕ
rotation span start k = if leb span (start + k) then start + k - span else start + k

unfoldable pub shard_victim : ℕ → ℕ → ℕ → ℕ → ℕ
shard_victim mask my_shard start k = bit_and (my_shard + 1 + rotation mask start k) mask

unfoldable pub peer_victim : ℕ → ℕ → ℕ → ℕ → ℕ
peer_victim num_workers idx start k =
    let victim = idx + 1 + rotation (num_workers - 1) start k in
    if leb num_workers victim then victim - num_workers else victim

rotation-lt : (span start k : ℕ) → start < span → k < span → rotation span start k < span
unfolding rotation
rotation-lt span start k hs hk = ground arith

rotation-injective :
    (span start j k : ℕ)
    → start < span
    → j < span
    → k < span
    → rotation span start j ≡ rotation span start k
    → j ≡ k
unfolding rotation
rotation-injective span start j k hs hj hk e = ground arith

-- The round in which the rotation takes the value `r`.
abbrev round_of : ℕ → ℕ → ℕ → ℕ
round_of span start r = if leb start r then r - start else r + span - start

round_of-lt : (span start r : ℕ) → start < span → r < span → round_of span start r < span
round_of-lt span start r hs hr = ground arith

rotation-round_of :
    (span start r : ℕ) → start < span → r < span → rotation span start (round_of span start r) ≡ r
unfolding rotation
rotation-round_of span start r hs hr = ground arith

-- A loop over the rounds below `span` that visits each index below `count` but `me` once.
pub record VisitsOthers (count me span : ℕ) (victim : ℕ → ℕ) : Type 0 where
  pub in_range : (k : ℕ) → k < span → victim k < count
  pub not_me : (k : ℕ) → k < span → victim k ≢ me
  pub once : (j k : ℕ) → j < span → k < span → victim j ≡ victim k → j ≡ k
  pub reaches : (v : ℕ) → v < count → v ≢ me → (k : ℕ) × (k < span) × (victim k ≡ v)

-- The shard after `my_shard` by `r + 1`, cyclically.
after_me : ℕ → ℕ → ℕ → ℕ
after_me count me r = if leb count (me + 1 + r) then me + 1 + r - count else me + 1 + r

abbrev before_me : ℕ → ℕ → ℕ → ℕ
before_me count me v = if leb v me then v + count - me - 1 else v - me - 1

mod_once : (m x : ℕ) → x < 2 * m → x % m ≡ (if leb m x then x - m else x)
mod_once m x h = elim (dec_lt x m) [
  | yes below ↦ mod-eq_of_lt below ∙ ground arith
  | no above ↦ mod-eq-sub-mod (omega arith) ∙ mod-eq_of_lt (omega arith) ∙ ground arith
]

VisitsOthers-rotation :
    (count me start : ℕ) (victim : ℕ → ℕ)
    → me < count
    → start < count - 1
    → ((k : ℕ) → k < count - 1 → victim k ≡ after_me count me (rotation (count - 1) start k))
    → VisitsOthers count me (count - 1) victim
unfolding after_me
VisitsOthers-rotation count me start victim hm hs e = record {
  in_range = λ k h. ground (arith, e k h, rotation-lt (count - 1) start k);
  not_me = λ k h. ground (arith, e k h, rotation-lt (count - 1) start k);
  once = λ j k hj hk same. ground (
    arith,
    e j hj,
    e k hk,
    rotation-lt (count - 1) start j,
    rotation-lt (count - 1) start k,
    rotation-injective (count - 1) start j k,
  );
  reaches = λ v hv ne.
      let r = before_me count me v in
      let k = round_of (count - 1) start r in
      let small : r < count - 1 = ground arith in
      let near : k < count - 1 = round_of-lt (count - 1) start r hs small in
      (
        k,
        near,
        e k near
            ∙ ap (after_me count me) (rotation-round_of (count - 1) start r hs small)
            ∙ ground arith,
      );
}

-- For a preferred shard and a start of the rotation in range, the rounds of the loop over the
-- other injectors visit each of the `2 ^ e` shards but the preferred one exactly once.
pub shard_victim-VisitsOthers :
    (e my_shard start : ℕ)
    → my_shard < 2 ^ e
    → start < 2 ^ e - 1
    → VisitsOthers (2 ^ e) my_shard (2 ^ e - 1) (shard_victim (2 ^ e - 1) my_shard start)
unfolding shard_victim after_me
shard_victim-VisitsOthers e my_shard start hm hs =
    VisitsOthers-rotation (2 ^ e) my_shard start _ hm hs
      λ k h. bit_and-mask e _ ∙ wrapped k (rotation-lt (2 ^ e - 1) start k hs h)
  where
    wrapped :
        (k : ℕ)
        → rotation (2 ^ e - 1) start k < 2 ^ e - 1
        → (my_shard + 1 + rotation (2 ^ e - 1) start k) % 2 ^ e
          ≡ after_me (2 ^ e) my_shard (rotation (2 ^ e - 1) start k)
    wrapped k h = mod_once (2 ^ e) (my_shard + 1 + rotation (2 ^ e - 1) start k) (omega arith)

-- For a worker and a start of the rotation in range, the rounds of the loop over the peers visit
-- each worker but the scanning one exactly once.
pub peer_victim-VisitsOthers :
    (num_workers idx start : ℕ)
    → idx < num_workers
    → start < num_workers - 1
    → VisitsOthers num_workers idx (num_workers - 1) (peer_victim num_workers idx start)
unfolding peer_victim after_me
peer_victim-VisitsOthers num_workers idx start hi hs =
    VisitsOthers-rotation num_workers idx start _ hi hs λ k h. refl
