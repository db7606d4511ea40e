-- ===== src/Queue/Scan/Coverage.antt =====
-- src/queue.rs: which injectors a strict `scan` has still ahead of it.
use affinitypool.Base.{
  ℕ, suc, ◌+◌, ◌-◌, ◌^◌, ◌≤◌, ◌<◌, ◌≡◌, ◌≢◌, refl, sym, ◌⊎◌, inl, inr, List, [], ◌∷◌, Bool, true,
  false, ltb, bit_and, arith, Bool-cases, ℕ_discrete,
}
use affinitypool.Base.Mask.{bit_and-mask-lt}
use mathlib.Core.Path.{subst}
use affinitypool.Queue.{Queue, strict, max_threads}
use affinitypool.Queue.Rng.{next_rand, next_rand-IsState, fast_reduce, fast_reduce-lt, IsState}
use affinitypool.Queue.Victims.{probe_limit, shard_victim, shard_victim-VisitsOthers}
use affinitypool.Queue.Scan.{
  Steal, success, retry, empty, Crossbeam, Stage, own, preferred, enter_others, others, enter_peers,
  peers, pass_end, Outcome, next, found, nothing, scan_step, steal_injector, on_steal, pop_own,
}
use affinitypool.Queue.Scan.Attempts.{steal_injector-empty}

-- Shard `s` is still to be visited by this pass of a worker with preferred shard `me`.
abbrev pub Ahead : ℕ → ℕ → ℕ → Stage → Type 0
Ahead mask me s own = Unit
Ahead mask me s preferred = Unit
Ahead mask me s enter_others = s ≢ me
Ahead mask me s (others start k) =
    (j : ℕ) × (k ≤ j) × (j < mask) × (shard_victim mask me start j ≡ s)
Ahead mask me s enter_peers = ⊥
Ahead mask me s (peers start k) = ⊥
Ahead mask me s pass_end = ⊥

-- It is ahead in this pass, or there will be another pass.
abbrev pub Covers : ℕ → ℕ → ℕ → Stage → Bool → Type 0
Covers mask me s st contended = (contended ≡ true) ⊎ Ahead mask me s st

abbrev pub CoversAfter : {Task : Type 0} → ℕ → ℕ → ℕ → Outcome Task → Type 0
CoversAfter mask me s (next st contended) = Covers mask me s st contended
CoversAfter mask me s (found r) = Unit
CoversAfter mask me s nothing = ⊥

on_steal-Covers :
    {Task : Type 0} (mask me s : ℕ) (res : Steal Task) (st : Stage) (contended : Bool)
    → (res ≡ empty → Covers mask me s st contended)
    → CoversAfter mask me s (on_steal res st contended)
on_steal-Covers mask me s (success r) st contended h = tt
on_steal-Covers mask me s retry st contended h = inl refl
on_steal-Covers mask me s empty st contended h = h refl

-- A queue with `2 ^ e` shards.
pub record IsSharded {Task : Type 0} (e : ℕ) (q : Queue Task) : Type 0 where
  pub mask_ones : q.mask ≡ 2 ^ e - 1
  pub few : 2 ^ e ≤ max_threads

me-lt : {Task : Type 0} (e idx : ℕ) (q : Queue Task) → IsSharded e q → bit_and idx q.mask < 2 ^ e
me-lt e idx q sh = rw sh.mask_ones (bit_and-mask-lt e idx)

-- Whatever the rotation, the loop over the other injectors comes to shard `s`.
others-Ahead :
    (e mask me s start : ℕ)
    → mask ≡ 2 ^ e - 1
    → me < 2 ^ e
    → s < 2 ^ e
    → s ≢ me
    → start < mask
    → Ahead mask me s (others start 0)
others-Ahead e mask me s start ones hm hs ne lt =
    subst (λ m. Ahead m me s (others start 0)) (sym ones)
      (let (j, near, hit) =
          (shard_victim-VisitsOthers e me start hm (omega arith)).reaches s hs ne in
        (j, omega arith, near, hit))

module _ {Task : Type 0} (cb : Crossbeam Task) (c : cb.Choice) (idx : ℕ) (q : Queue Task) where
  enter_others-Covers :
      (e rng s : ℕ) (contended : Bool)
      → IsSharded e q
      → IsState rng
      → s < 2 ^ e
      → Covers q.mask (bit_and idx q.mask) s enter_others contended
      → CoversAfter q.mask
          (bit_and idx q.mask)
          s
          (scan_step cb c strict idx q rng enter_others contended).outcome
  unfolding scan_step
  enter_others-Covers e rng s contended sh state hs cov = elim (Bool-cases (ltb 1 (q.mask + 1))) [
    | inl more ↦ rw more (started more cov)
    | inr one ↦ rw one (alone one cov)
  ]
    where
      me : ℕ
      me = bit_and idx q.mask

      start : ℕ
      start = fast_reduce (next_rand rng) q.mask

      started :
          ltb 1 (q.mask + 1) ≡ true
          → Covers q.mask me s enter_others contended
          → Covers q.mask me s (others start 0) contended
      started more (inl again) = inl again
      started more (inr ne) = inr (
          others-Ahead e q.mask me s start sh.mask_ones (me-lt e idx q sh) hs ne (
            fast_reduce-lt (next_rand rng) q.mask (next_rand-IsState rng state).fits (ground arith)
              (omega (arith, sh.mask_ones, sh.few))))

      alone :
          ltb 1 (q.mask + 1) ≡ false
          → Covers q.mask me s enter_others contended
          → Covers q.mask me s enter_peers contended
      alone one (inl again) = inl again
      alone one (inr ne) = absurd (ne (ground (arith, sh.mask_ones, me-lt e idx q sh)))

  others-Covers :
      (rng s start k : ℕ) (contended : Bool)
      → q.injectors s ≢ []
      → Covers q.mask (bit_and idx q.mask) s (others start k) contended
      → CoversAfter q.mask
          (bit_and idx q.mask)
          s
          (scan_step cb c strict idx q rng (others start k) contended).outcome
  unfolding scan_step probe_limit
  others-Covers rng s start k contended filled cov = elim (Bool-cases (ltb k q.mask)) [
    | inl more ↦
        rw more (on_steal-Covers q.mask me s _ (others start (suc k)) contended (later cov))
    | inr over ↦ rw over (done over cov)
  ]
    where
      me : ℕ
      me = bit_and idx q.mask

      later :
          Covers q.mask me s (others start k) contended
          → (steal_injector cb c q (shard_victim q.mask me start k) idx strict).1 ≡ empty
          → Covers q.mask me s (others start (suc k)) contended
      later (inl again) e = inl again
      later (inr (j, le, lt, hit)) e = elim (ℕ_discrete k j) [
        | yes same ↦
            absurd (filled (rw (← hit, ← same) (steal_injector-empty cb c q _ idx strict e)))
        | no apart ↦ inr (j, omega arith, lt, hit)
      ]

      done :
          ltb k q.mask ≡ false
          → Covers q.mask me s (others start k) contended
          → Covers q.mask me s enter_peers contended
      done over (inl again) = inl again
      done over (inr (j, le, lt, hit)) = absurd (ground arith)

  preferred-Covers :
      (rng s : ℕ) (contended : Bool)
      → q.injectors s ≢ []
      → CoversAfter q.mask
          (bit_and idx q.mask)
          s
          (scan_step cb c strict idx q rng preferred contended).outcome
  unfolding scan_step
  preferred-Covers rng s contended filled =
      on_steal-Covers q.mask _ s _ enter_others contended
        λ e. inr λ same. filled (rw same (steal_injector-empty cb c q _ idx strict e))

  own-Covers :
      (mask me s rng : ℕ) (ts : List Task) → CoversAfter mask me s (pop_own q idx rng ts).outcome
  own-Covers mask me s rng [] = inr tt
  own-Covers mask me s rng (r ∷ rest) = tt

  -- For any `crossbeam_deque` that answers as documented: in a strict scan of a queue with `2 ^
  -- e` shards, with a generator in a proper state, a filled shard that is still to be visited,
  -- or whose scan is to be repeated, is so again after the next access, unless the access
  -- returns a runnable; it never ends the scan with nothing.
  pub scan_step-Covers :
      (e rng s : ℕ) (st : Stage) (contended : Bool)
      → IsSharded e q
      → IsState rng
      → s < 2 ^ e
      → q.injectors s ≢ []
      → Covers q.mask (bit_and idx q.mask) s st contended
      → CoversAfter q.mask
          (bit_and idx q.mask)
          s
          (scan_step cb c strict idx q rng st contended).outcome
  unfolding scan_step
  scan_step-Covers e rng s own contended sh state hs filled cov =
      own-Covers q.mask _ s rng (q.deques idx)
  scan_step-Covers e rng s preferred contended sh state hs filled cov =
      preferred-Covers rng s contended filled
  scan_step-Covers e rng s enter_others contended sh state hs filled cov =
      enter_others-Covers e rng s contended sh state hs cov
  scan_step-Covers e rng s (others start k) contended sh state hs filled cov =
      others-Covers rng s start k contended filled cov
  scan_step-Covers e rng s enter_peers contended sh state hs filled (inl again) =
      elim (Bool-cases (ltb 1 q.num_workers)) [
        | inl more ↦ rw more (inl again)
        | inr one ↦ rw one (inl again)
      ]
  scan_step-Covers e rng s (peers start k) contended sh state hs filled (inl again) =
      elim (Bool-cases (ltb k (probe_limit (q.num_workers - 1) strict))) [
        | inl more ↦ rw more (on_steal-Covers q.mask _ s _ (peers start (suc k)) _ (λ _. inl again))
        | inr over ↦ rw over (inl again)
      ]
  scan_step-Covers e rng s pass_end true sh state hs filled cov = inr tt
  scan_step-Covers e rng s pass_end false sh state hs filled (inl again) = absurd (cc again)
  scan_step-Covers e rng s enter_peers contended sh state hs filled (inr none_ahead) =
      absurd none_ahead
  scan_step-Covers e rng s (peers start k) contended sh state hs filled (inr none_ahead) =
      absurd none_ahead
  scan_step-Covers e rng s pass_end false sh state hs filled (inr none_ahead) = absurd none_ahead
