-- ===== src/Queue/Victims/Rounds.antt =====
-- src/queue.rs, `probe_limit` and the two cross-worker loops of `scan`: the victims of a pass.
use affinitypool.Base.{ℕ, ◌-◌, ◌^◌, ◌≤◌, ◌<◌, ◌≡◌, ◌≢◌, ◌⊎◌, inl, inr, arith}
use affinitypool.Queue.{Probe, cheap, strict}
use affinitypool.Queue.Victims.{
  probe_limit, VisitsOthers, shard_victim, shard_victim-VisitsOthers, peer_victim,
  peer_victim-VisitsOthers,
}

-- The rounds of a pass over the indices below `count` but `me`. A cheap pass stops at 8 victims.
pub record Walks (count me : ℕ) (probe : Probe) (victim : ℕ → ℕ) : Type 0 where
  pub in_range : (k : ℕ) → k < probe_limit (count - 1) probe → victim k < count
  pub not_me : (k : ℕ) → k < probe_limit (count - 1) probe → victim k ≢ me
  pub once :
      (j k : ℕ)
      → j < probe_limit (count - 1) probe
      → k < probe_limit (count - 1) probe
      → victim j ≡ victim k
      → j ≡ k
  pub reaches :
      (probe ≡ strict) ⊎ (count - 1 ≤ 8)
      → (v : ℕ) → v < count
      → v ≢ me
      → (k : ℕ) × (k < probe_limit (count - 1) probe) × (victim k ≡ v)
  pub stops : probe ≡ cheap → 8 < count - 1 → probe_limit (count - 1) probe ≡ 8

Walks-VisitsOthers :
    (count me : ℕ) (probe : Probe) (victim : ℕ → ℕ)
    → VisitsOthers count me (count - 1) victim
    → Walks count me probe victim
unfolding probe_limit
Walks-VisitsOthers count me cheap victim v = record {
  in_range = λ k h. v.in_range k (omega arith);
  not_me = λ k h. v.not_me k (omega arith);
  once = λ j k hj hk. v.once j k (omega arith) (omega arith);
  reaches = λ which w lt ne. elim which [
    | inl e ↦ absurd (cc e)
    | inr few ↦ let (k, near, here) = v.reaches w lt ne in (k, omega (arith, few, near), here)
  ];
  stops = λ _ many. omega arith;
}
Walks-VisitsOthers count me strict victim v = record {
  in_range = v.in_range;
  not_me = v.not_me;
  once = v.once;
  reaches = λ _. v.reaches;
  stops = λ e. absurd (cc e);
}

-- For a preferred shard and a start of the rotation in range, the rounds of the loop over the
-- other injectors, as many as `probe_limit` says, visit shards of the `2 ^ e` but the preferred
-- one, none of them twice. A strict pass visits all of these, and so does a cheap one if they
-- are at most 8; if they are more, it has 8 rounds.
pub shard_victim-Walks :
    (probe : Probe) (e my_shard start : ℕ)
    → my_shard < 2 ^ e
    → start < 2 ^ e - 1
    → Walks (2 ^ e) my_shard probe (shard_victim (2 ^ e - 1) my_shard start)
shard_victim-Walks probe e my_shard start hm hs =
    Walks-VisitsOthers (2 ^ e) my_shard probe _ (shard_victim-VisitsOthers e my_shard start hm hs)

-- For a worker and a start of the rotation in range, the rounds of the loop over the peers, as
-- many as `probe_limit` says, visit workers but the scanning one, none of them twice. A strict
-- pass visits all of these, and so does a cheap one if they are at most 8; if they are more, it
-- has 8 rounds.
pub peer_victim-Walks :
    (probe : Probe) (num_workers idx start : ℕ)
    → idx < num_workers
    → start < num_workers - 1
    → Walks num_workers idx probe (peer_victim num_workers idx start)
peer_victim-Walks probe num_workers idx start hi hs =
    Walks-VisitsOthers num_workers idx probe _
      (peer_victim-VisitsOthers num_workers idx start hi hs)
