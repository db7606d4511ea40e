-- ===== src/Queue/Rng.antt =====
-- src/queue.rs: `next_rand`, `fast_reduce` and the seed of a worker's generator.
use native.Mathlib.Nat.{mul-le-mul_right}
use affinitypool.Base.{
  ℕ, ◌*◌, ◌/◌, ◌%◌, ◌^◌, ◌≤◌, ◌<◌, ◌≢◌, bit_xor, bit_or, u32_mod, u64_mod, arith,
}
use affinitypool.Base.Xor.{bit_xor-lt, bit_xor-ne-zero, bit_or-ge, bit_or-lt}

-- The state is a `u32`: a left shift drops what passes the top bit.
abbrev pub shl_13 : ℕ → ℕ
shl_13 x = x * 2 ^ 13 % u32_mod

abbrev pub shr_17 : ℕ → ℕ
shr_17 x = x / 2 ^ 17

abbrev pub shl_5 : ℕ → ℕ
shl_5 x = x * 2 ^ 5 % u32_mod

-- The new state, which is also the number returned.
unfoldable pub next_rand : ℕ → ℕ
next_rand x0 =
    let x1 = bit_xor x0 (shl_13 x0) in let x2 = bit_xor x1 (shr_17 x1) in bit_xor x2 (shl_5 x2)

unfoldable pub fast_reduce : ℕ → ℕ → ℕ
fast_reduce rand span = rand * span % u64_mod / 2 ^ 32

unfoldable pub seed : ℕ → ℕ
seed idx = bit_or (idx % u32_mod * 0x9E37_79B9 % u32_mod) 1

-- A state of the generator: a word that is not zero.
pub record IsState (x : ℕ) : Type 0 where
  pub fits : x < u32_mod
  pub nonzero : x ≢ 0

mixed-IsState : (x y : ℕ) → x < u32_mod → y < u32_mod → x ≢ y → IsState (bit_xor x y)
mixed-IsState x y hx hy ne = record {
  fits = bit_xor-lt 32 x y hx hy;
  nonzero = bit_xor-ne-zero x y ne;
}

shl_13-IsState : (x : ℕ) → IsState x → IsState (bit_xor x (shl_13 x))
shl_13-IsState x s = mixed-IsState x (shl_13 x) s.fits (omega arith) (omega (arith, s.nonzero))

shr_17-IsState : (x : ℕ) → IsState x → IsState (bit_xor x (shr_17 x))
shr_17-IsState x s =
    mixed-IsState x (shr_17 x) s.fits (omega (arith, s.fits)) (omega (arith, s.nonzero))

shl_5-IsState : (x : ℕ) → IsState x → IsState (bit_xor x (shl_5 x))
shl_5-IsState x s = mixed-IsState x (shl_5 x) s.fits (omega arith) (omega (arith, s.nonzero))

-- From a `u32` that is not zero, `next_rand` goes to a `u32` that is not zero.
pub next_rand-IsState : (x : ℕ) → IsState x → IsState (next_rand x)
unfolding next_rand
next_rand-IsState x s = shl_5-IsState _ (shr_17-IsState _ (shl_13-IsState x s))

-- The generator of every worker starts at a `u32` that is not zero.
pub seed-IsState : (idx : ℕ) → IsState (seed idx)
unfolding seed
seed-IsState idx = record {
  fits = bit_or-lt 32 (idx % u32_mod * 0x9E37_79B9 % u32_mod) 1 (omega arith) (omega arith);
  nonzero = omega (arith, bit_or-ge (idx % u32_mod * 0x9E37_79B9 % u32_mod) 1);
}

-- For a `u32` and a positive span that fits a `u32`, `fast_reduce` gives a number below the
-- span.
pub fast_reduce-lt :
    (rand span : ℕ) → rand < u32_mod → 0 < span → span < u32_mod → fast_reduce rand span < span
unfolding fast_reduce
fast_reduce-lt rand span fits pos small =
    let most : rand * span ≤ 0xffff_ffff * span = mul-le-mul_right span (omega arith) in omega arith
