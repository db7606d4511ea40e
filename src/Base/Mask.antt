-- ===== src/Base/Mask.antt =====
-- `x & mask`, where the mask is `2 ^ k - 1`, is the remainder by `2 ^ k`.
use Prim.Native.Nat.{
  ℕ, zero, suc, ◌+◌, ◌-◌, ◌*◌, ◌/◌, ◌%◌, ◌^◌, ◌≤◌, ◌<◌, min, bit_and, digits, bit_and-bitwise,
}
use mathlib.Core.Path.{◌≡◌, refl, sym, ap, ◌∙◌}
use native.Mathlib.Nat.{
  pow-succ', one-le-pow, zero-mod, mod-lt, mod-eq_of_lt, add-mul-mod_self_right, div-add-mod',
}
use native.Mathlib.Omega.{arith}

-- The digit recursion that `bit_and` stands for, with its fuel.
abbrev and_from : ℕ → ℕ → ℕ → ℕ
and_from = digits (λ _. 0) min

and_from-zero : (n a : ℕ) → and_from n a 0 ≡ 0
and_from-zero zero a = refl
and_from-zero (suc n) zero = refl
and_from-zero (suc n) (suc a) = omega (arith, and_from-zero n (suc a / 2))

mod_double : (a m : ℕ) → 0 < m → a / 2 % m * 2 + a % 2 ≡ a % (2 * m)
mod_double a m h =
    sym
      (ap (λ (t : ℕ). t % (2 * m)) split ∙ add-mul-mod_self_right _ q (2 * m) ∙ mod-eq_of_lt small)
  where
    q : ℕ
    q = a / 2 / m

    split : a ≡ (a / 2 % m * 2 + a % 2) + q * (2 * m)
    split = omega (arith, div-add-mod' (a / 2) m)

    small : a / 2 % m * 2 + a % 2 < 2 * m
    small = omega (arith, mod-lt (a / 2) h)

-- One digit more, on both sides.
mask_step :
    (k a low : ℕ)
    → low ≡ a / 2 % 2 ^ k
    → low * 2 + min (a % 2) ((2 * 2 ^ k - 1) % 2) ≡ a % (2 * 2 ^ k)
mask_step k a low e =
    omega
      (arith, e, mod_double a (2 ^ k) (one-le-pow k 2 (omega arith)), one-le-pow k 2 (omega arith))

mask_half : (k : ℕ) → (2 * 2 ^ k - 1) / 2 ≡ 2 ^ k - 1
mask_half k = omega (arith, one-le-pow k 2 (omega arith))

and_from-mask : (n k a : ℕ) → a ≤ n → and_from n a (2 ^ k - 1) ≡ a % 2 ^ k
and_from-mask zero k zero h = sym (zero-mod (2 ^ k))
and_from-mask zero k (suc a) h = absurd (omega arith)
and_from-mask (suc n) k zero h = sym (zero-mod (2 ^ k))
and_from-mask (suc n) zero (suc a) h = omega (arith, and_from-zero n (suc a / 2))
and_from-mask (suc n) (suc k) (suc a) h =
    rw (pow-succ' 2 k)
      (rw (mask_half k) (mask_step k (suc a) _ (and_from-mask n k (suc a / 2) (omega arith))))

pub bit_and-mask : (k a : ℕ) → bit_and a (2 ^ k - 1) ≡ a % 2 ^ k
bit_and-mask k a = bit_and-bitwise a (2 ^ k - 1) ∙ and_from-mask a k a (omega arith)

pub bit_and-mask-lt : (k a : ℕ) → bit_and a (2 ^ k - 1) < 2 ^ k
bit_and-mask-lt k a = omega (arith, bit_and-mask k a, mod-lt a (one-le-pow k 2 (omega arith)))
