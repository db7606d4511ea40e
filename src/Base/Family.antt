-- ===== src/Base/Family.antt =====
-- Families indexed by numbers: the shards, the deques and the threads. An update at one index, sums
-- over the first indices, and the weight of a list.
use Prim.Native.Nat.{ℕ, zero, suc, ◌+◌, ◌*◌, ◌≤◌, ◌<◌}
use mathlib.Core.Path.{◌≡◌, refl, sym, subst}
use mathlib.Core.Logic.{ite, ◌≢◌}
use mathlib.Core.List.{List, [], ◌∷◌, ◌++◌}
use native.Mathlib.Decide.{dec_lt, ℕ_discrete}
use native.Mathlib.Omega.{arith}

abbrev pub update {ℓ} : {A : Type ℓ} → (ℕ → A) → ℕ → A → ℕ → A
update f i a j = ite (ℕ_discrete i j) a (f j)

pub update_self {ℓ} : {A : Type ℓ} (f : ℕ → A) (i : ℕ) (a : A) → update f i a i ≡ a
update_self f i a = ground arith

pub update_ne {ℓ} : {A : Type ℓ} (f : ℕ → A) (i j : ℕ) (a : A) → i ≢ j → update f i a j ≡ f j
update_ne f i j a ne = ground arith

-- A property of each member after an update at one index.
pub update_elim {ℓ ℓ'} :
    {A : Type ℓ} (P : ℕ → A → Type ℓ') (f : ℕ → A) (i : ℕ) (a : A)
    → P i a
    → ((j : ℕ) → j ≢ i → P j (f j))
    → (j : ℕ) → P j (update f i a j)
update_elim P f i a here there j = elim (ℕ_discrete i j) [
  | yes same ↦ subst (P j) (sym (at_index same)) (subst (λ k. P k a) same here)
  | no apart ↦ subst (P j) (sym (update_ne f i j a apart)) (there j (λ e. apart (sym e)))
]
  where
    at_index : i ≡ j → update f i a j ≡ a
    at_index same = ground arith

module _ {ℓ} {A : Type ℓ} (w : A → ℕ) where
  -- The sum of `w` over the members with an index below the bound.
  unfoldable pub total : ℕ → (ℕ → A) → ℕ
  total zero f = 0
  total (suc n) f = w (f n) + total n f

  pub total-cong :
      (n : ℕ) (f g : ℕ → A) → ((i : ℕ) → i < n → w (f i) ≡ w (g i)) → total n f ≡ total n g
  unfolding total
  total-cong zero f g h = refl
  total-cong (suc n) f g h =
      omega (arith, h n (omega arith), total-cong n f g (λ i lt. h i (omega arith)))

  pub total_mono :
      (n : ℕ) (f g : ℕ → A) → ((i : ℕ) → i < n → w (f i) ≤ w (g i)) → total n f ≤ total n g
  unfolding total
  total_mono zero f g h = omega arith
  total_mono (suc n) f g h =
      omega (arith, h n (omega arith), total_mono n f g (λ i lt. h i (omega arith)))

  pub total-le_scaled :
      (c n : ℕ) (f g : ℕ → A) → ((i : ℕ) → w (f i) ≤ w (g i) + c) → total n f ≤ total n g + n * c
  unfolding total
  total-le_scaled c zero f g h = omega arith
  total-le_scaled c (suc n) f g h = omega (arith, h n, total-le_scaled c n f g h)

  -- A member above the bound does not count.
  total-update_above :
      (bound : ℕ) (members : ℕ → A) (k : ℕ) (x : A)
      → bound ≤ k
      → total bound (update members k x) ≡ total bound members
  total-update_above bound members k x above =
      total-cong bound (update members k x) members (λ j lt. ground arith)

  -- An update below the bound exchanges one summand.
  pub total-update :
      (bound : ℕ) (members : ℕ → A) (k : ℕ) (x : A)
      → k < bound
      → total bound members + w x ≡ total bound (update members k x) + w (members k)
  unfolding total
  total-update (suc n) members k x below = elim (ℕ_discrete k n) [
    | no earlier ↦ ground (arith, total-update n members k x)
    | yes here ↦ ground (arith, total-update_above n members k x)
  ]
  total-update zero members k x below = absurd (omega arith)

  -- A sum that is not zero has a member that is not.
  pub total_pos : (n : ℕ) (f : ℕ → A) → 0 < total n f → (i : ℕ) × (i < n) × (0 < w (f i))
  unfolding total
  total_pos zero f h = absurd (omega arith)
  total_pos (suc n) f h = elim (dec_lt 0 (w (f n))) [
    | yes here ↦ (n, omega arith, here)
    | no later ↦ let (i, lt, pos) = total_pos n f (omega arith) in (i, omega arith, pos)
  ]

  pub total-zero : (n : ℕ) (f : ℕ → A) → ((i : ℕ) → i < n → w (f i) ≡ 0) → total n f ≡ 0
  unfolding total
  total-zero zero f h = refl
  total-zero (suc n) f h =
      omega (arith, h n (omega arith), total-zero n f (λ i lt. h i (omega arith)))

  pub le-total : (n : ℕ) (f : ℕ → A) (i : ℕ) → i < n → w (f i) ≤ total n f
  unfolding total
  le-total zero f i h = absurd (omega arith)
  le-total (suc n) f i h = elim (ℕ_discrete i n) [
    | yes last ↦ ground arith
    | no below ↦ omega (arith, le-total n f i (omega arith))
  ]

  -- The sum of `w` over a list.
  abbrev pub weight : List A → ℕ
  weight [] = 0
  weight (x ∷ xs) = w x + weight xs

  pub weight-append : (xs ys : List A) → weight (xs ++ ys) ≡ weight xs + weight ys
  weight-append [] ys = omega arith
  weight-append (x ∷ xs) ys = omega (arith, weight-append xs ys)

-- A sum of weights that are at most one is at most the number of members.
pub total-le {ℓ} :
    {A : Type ℓ} (w : A → ℕ) (n : ℕ) (f : ℕ → A) → ((a : A) → w a ≤ 1) → total w n f ≤ n
unfolding total
total-le w zero f h = omega arith
total-le w (suc n) f h = omega (arith, h (f n), total-le w n f h)

-- A sum of three weights bounds that of a fourth, if it does so at each member.
pub total-le_add₃ {ℓ} :
    {A : Type ℓ} (u v w x : A → ℕ) (n : ℕ) (f : ℕ → A)
    → ((a : A) → u a ≤ v a + w a + x a)
    → total u n f ≤ total v n f + total w n f + total x n f
unfolding total
total-le_add₃ u v w x zero f h = omega arith
total-le_add₃ u v w x (suc n) f h = omega (arith, h (f n), total-le_add₃ u v w x n f h)

-- Two lists hold the same elements, as often.
abbrev pub SameTasks : {A : Type 0} → List A → List A → Type 0
SameTasks {A} xs ys = (w : A → ℕ) → weight w xs ≡ weight w ys

-- The lists of the first members, one after the other.
abbrev pub gather {ℓ} : {A : Type ℓ} {B : Type 0} → (A → List B) → ℕ → (ℕ → A) → List B
gather g zero f = []
gather g (suc n) f = g (f n) ++ gather g n f

pub weight-gather {ℓ} :
    {A : Type ℓ} {B : Type 0} (w : B → ℕ) (g : A → List B) (n : ℕ) (f : ℕ → A)
    → weight w (gather g n f) ≡ total (λ a. weight w (g a)) n f
unfolding total
weight-gather w g zero f = refl
weight-gather w g (suc n) f =
    omega (arith, weight-append w (g (f n)) (gather g n f), weight-gather w g n f)
