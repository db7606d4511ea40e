-- ===== src/Base/Xor.antt =====
-- `bit_xor` and `bit_or` at variables: what is needed to show that a word fits and is not zero.
use Prim.Native.Nat.{
  ℕ, zero, suc, ◌/◌, ◌%◌, ◌^◌, ◌≤◌, ◌<◌, max, differ, bit_xor, bit_or, digits, bit_xor-bitwise,
  bit_or-bitwise,
}
use mathlib.Core.Path.{◌≡◌, sym, ◌∙◌}
use mathlib.Core.Logic.{◌≢◌}
use native.Mathlib.Nat.{pow-succ'}
use native.Mathlib.Omega.{arith}

-- The digit recursions that the two operations stand for, with their fuel.
abbrev xor_from : ℕ → ℕ → ℕ → ℕ
xor_from = digits (λ b. b) differ

abbrev or_from : ℕ → ℕ → ℕ → ℕ
or_from = digits (λ b. b) max

differ-lt : (x y n : ℕ) → x < n → y < n → differ x y < n
differ-lt zero y n hx hy = hy
differ-lt (suc x) zero n hx hy = hx
differ-lt (suc x) (suc y) n hx hy = differ-lt x y n (omega arith) (omega arith)

differ-zero : (x y : ℕ) → differ x y ≡ 0 → x ≡ y
differ-zero zero y e = sym e
differ-zero (suc x) zero e = e
differ-zero (suc x) (suc y) e = omega (arith, differ-zero x y e)

xor_from-lt : (n k a b : ℕ) → a ≤ n → a < 2 ^ k → b < 2 ^ k → xor_from n a b < 2 ^ k
xor_from-lt zero k a b le ha hb = hb
xor_from-lt (suc n) k zero b le ha hb = hb
xor_from-lt (suc n) zero (suc a) b le ha hb = absurd (omega arith)
xor_from-lt (suc n) (suc k) (suc a) b le ha hb = omega (
  arith,
  pow-succ' 2 k,
  differ-lt (suc a % 2) (b % 2) 2 (omega arith) (omega arith),
  xor_from-lt n k (suc a / 2) (b / 2) (omega arith) (omega (arith, pow-succ' 2 k))
      (omega (arith, pow-succ' 2 k)),
)

xor_from-zero : (n a b : ℕ) → a ≤ n → xor_from n a b ≡ 0 → a ≡ b
xor_from-zero zero a b le e = omega arith
xor_from-zero (suc n) zero b le e = sym e
xor_from-zero (suc n) (suc a) b le e = omega (
  arith,
  differ-zero (suc a % 2) (b % 2) (omega arith),
  xor_from-zero n (suc a / 2) (b / 2) (omega arith) (omega arith),
)

pub bit_xor-lt : (k a b : ℕ) → a < 2 ^ k → b < 2 ^ k → bit_xor a b < 2 ^ k
bit_xor-lt k a b ha hb = omega (arith, bit_xor-bitwise a b, xor_from-lt a k a b (omega arith) ha hb)

-- Only equal words differ in no digit.
pub bit_xor-ne-zero : (a b : ℕ) → a ≢ b → bit_xor a b ≢ 0
bit_xor-ne-zero a b ne e = ne (xor_from-zero a a b (omega arith) (sym (bit_xor-bitwise a b) ∙ e))

or_from-ge : (n a b : ℕ) → b ≤ or_from n a b
or_from-ge zero a b = omega arith
or_from-ge (suc n) zero b = omega arith
or_from-ge (suc n) (suc a) b = omega (arith, or_from-ge n (suc a / 2) (b / 2))

pub bit_or-ge : (a b : ℕ) → b ≤ bit_or a b
bit_or-ge a b = omega (arith, bit_or-bitwise a b, or_from-ge a a b)

or_from-lt : (n k a b : ℕ) → a ≤ n → a < 2 ^ k → b < 2 ^ k → or_from n a b < 2 ^ k
or_from-lt zero k a b le ha hb = hb
or_from-lt (suc n) k zero b le ha hb = hb
or_from-lt (suc n) zero (suc a) b le ha hb = absurd (omega arith)
or_from-lt (suc n) (suc k) (suc a) b le ha hb = omega (
  arith,
  pow-succ' 2 k,
  or_from-lt n k (suc a / 2) (b / 2) (omega arith) (omega (arith, pow-succ' 2 k))
      (omega (arith, pow-succ' 2 k)),
)

pub bit_or-lt : (k a b : ℕ) → a < 2 ^ k → b < 2 ^ k → bit_or a b < 2 ^ k
bit_or-lt k a b ha hb = omega (arith, bit_or-bitwise a b, or_from-lt a k a b (omega arith) ha hb)
