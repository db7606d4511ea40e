-- ===== src/Pool/Dropping/Handles.antt =====
-- src/lib.rs and src/sentry.rs: the handles that a pool and its sentries have, and the threads that they
-- belong to.
use affinitypool.Base.{
  ℕ, suc, zero, ◌<◌, ◌≡◌, refl, ap, ◌⊎◌, inl, inr, List, [], ◌∷◌, ◌++◌, Option, none, some, arith,
  ℕ_discrete,
}
use affinitypool.Pool.Dropping.{Handle, cons_rest, take_at, first_handles}

abbrev pub Among : Handle → List Handle → Type 0
Among h [] = ⊥
Among h (x ∷ xs) = (h ≡ x) ⊎ Among h xs

pub Among-append_left : (h : Handle) (xs ys : List Handle) → Among h xs → Among h (xs ++ ys)
Among-append_left h [] ys m = absurd m
Among-append_left h (x ∷ xs) ys (inl e) = inl e
Among-append_left h (x ∷ xs) ys (inr m) = inr (Among-append_left h xs ys m)

pub Among-append_right : (h : Handle) (xs ys : List Handle) → Among h ys → Among h (xs ++ ys)
Among-append_right h [] ys m = m
Among-append_right h (x ∷ xs) ys m = inr (Among-append_right h xs ys m)

pub Among-append_split :
    (h : Handle) (xs ys : List Handle) → Among h (xs ++ ys) → Among h xs ⊎ Among h ys
Among-append_split h [] ys m = inr m
Among-append_split h (x ∷ xs) ys (inl e) = inl (inl e)
Among-append_split h (x ∷ xs) ys (inr m) = elim (Among-append_split h xs ys m) [
  | inl left ↦ inl (inr left)
  | inr right ↦ inr right
]

-- A handle that is taken out, and the rest, are all there were.
abbrev pub TakenFrom : List Handle → Option (Handle × List Handle) → Type 0
TakenFrom hs none = Unit
TakenFrom hs (some (x, rest)) =
    (Among x hs)
    × ((h : Handle) → Among h hs → (h ≡ x) ⊎ Among h rest)
    × ((h : Handle) → Among h rest → Among h hs)

pub take_at-TakenFrom : (k : ℕ) (hs : List Handle) → TakenFrom hs (take_at k hs)
take_at-TakenFrom k [] = tt
take_at-TakenFrom zero (y ∷ hs) = (inl refl, λ h m. m, λ h m. inr m)
take_at-TakenFrom (suc k) (y ∷ hs) = from (take_at k hs) (take_at-TakenFrom k hs)
  where
    from : (o : Option (Handle × List Handle)) → TakenFrom hs o → TakenFrom (y ∷ hs) (cons_rest y o)
    from none t = tt
    from (some (x, rest)) (there, split, back) = (
      inr there,
      λ h m. elim m [
        | inl e ↦ inr (inl e)
        | inr old ↦ (elim (split h old) [ inl e ↦ inl e | inr left ↦ inr (inr left) ])
      ],
      λ h m. elim m [ inl e ↦ inl e | inr left ↦ inr (back h left) ],
    )

pub first_handles-Among : (n w : ℕ) → w < n → Among (w, 0) (first_handles n)
first_handles-Among zero w lt = absurd (omega arith)
first_handles-Among (suc n) w lt = elim (ℕ_discrete w n) [
  | yes same ↦ Among-append_right (w, 0) (first_handles n) _ (inl (ap (λ k. (k, 0)) same))
  | no apart ↦ Among-append_left (w, 0) (first_handles n) _ (first_handles-Among n w (omega arith))
]

pub Among-first_handles : (n : ℕ) (h : Handle) → Among h (first_handles n) → h.0 < n
Among-first_handles zero h m = absurd m
Among-first_handles (suc n) h m = elim (Among-append_split h (first_handles n) _ m) [
  | inl before ↦ omega (arith, Among-first_handles n h before)
  | inr (inl last) ↦ omega (arith, ap (λ x. x.0) last)
  | inr (inr beyond) ↦ absurd beyond
]
