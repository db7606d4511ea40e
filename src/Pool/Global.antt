-- ===== src/Pool/Global.antt =====
-- src/lib.rs: calls of `build_global`, by any threads, with their accesses to `THREADPOOL` in any order.
use affinitypool.Base.{
  ℕ, ◌≡◌, refl, sym, ◌∙◌, ap, ◌⊎◌, inl, inr, List, [], ◌∷◌, Option, none, some, ℕ_discrete,
}
use affinitypool.Base.Family.{update, update_self, update_ne}
use affinitypool.Pool.{
  GlobalCall, unchecked, checked, answered, build_global, RunsOn, pool_task, lazy_task, caller,
  global_spawn, global_spawn_local,
}
use mathlib.Core.Path.{subst}

-- The global pool and the calls after these turns of calls.
unfoldable pub build_globals :
    {Pool : Type 0}
    → Option Pool
    → (ℕ → GlobalCall Pool)
    → List ℕ
    → Option Pool × (ℕ → GlobalCall Pool)
unfolding build_global
build_globals cell calls [] = (cell, calls)
build_globals cell calls (k ∷ ks) =
    let (cell', call) = build_global cell (calls k) in build_globals cell' (update calls k call) ks

module _ {Pool : Type 0} where
  -- No call has got behind its check with a result.
  abbrev pub Awaits : (ℕ → Pool) → (ℕ → GlobalCall Pool) → Type 0
  Awaits pools calls = (k : ℕ) → (calls k ≡ unchecked (pools k)) ⊎ (calls k ≡ checked (pools k))

  -- Either there is no pool yet, or one of the calls that have succeeded has set its own.
  abbrev Settled : (ℕ → Pool) → Option Pool → (ℕ → GlobalCall Pool) → Type 0
  Settled pools cell calls =
      ((cell ≡ none) × Awaits pools calls)
      ⊎ ((i : ℕ) × (cell ≡ some (pools i)) × (calls i ≡ answered none))

  keeps_pool : (p : Pool) (call : GlobalCall Pool) → (build_global (some p) call).0 ≡ some p
  unfolding build_global
  keeps_pool p (unchecked q) = refl
  keeps_pool p (checked q) = refl
  keeps_pool p (answered result) = refl

  stays :
      (p : Pool) (calls : ℕ → GlobalCall Pool) (ks : List ℕ)
      → (build_globals (some p) calls ks).0 ≡ some p
  unfolding build_globals
  stays p calls [] = refl
  stays p calls (k ∷ ks) =
      subst
        (λ cell.
          (build_globals cell (update calls k (build_global (some p) (calls k)).1) ks).0 ≡ some p)
        (sym (keeps_pool p (calls k)))
        (stays p (update calls k (build_global (some p) (calls k)).1) ks)

  keeps_answer : (cell : Option Pool) → (build_global cell (answered none)).1 ≡ answered none
  unfolding build_global
  keeps_answer none = refl
  keeps_answer (some p) = refl

  module _ (pools : ℕ → Pool) (cell : Option Pool) (call : GlobalCall Pool) (k : ℕ) where
    leaves : cell ≡ none → call ≡ unchecked (pools k) → (build_global cell call).0 ≡ none
    unfolding build_global
    leaves empty fresh = rw (empty, fresh) refl

    passes :
        cell ≡ none → call ≡ unchecked (pools k) → (build_global cell call).1 ≡ checked (pools k)
    unfolding build_global
    passes empty fresh = rw (empty, fresh) refl

    sets : cell ≡ none → call ≡ checked (pools k) → (build_global cell call).0 ≡ some (pools k)
    unfolding build_global
    sets empty passed = rw (empty, passed) refl

    answers : cell ≡ none → call ≡ checked (pools k) → (build_global cell call).1 ≡ answered none
    unfolding build_global
    answers empty passed = rw (empty, passed) refl

  Settled-build_global :
      (pools : ℕ → Pool) (cell : Option Pool) (calls : ℕ → GlobalCall Pool) (k : ℕ)
      → Settled pools cell calls
      → Settled pools
          (build_global cell (calls k)).0
          (update calls k (build_global cell (calls k)).1)
  Settled-build_global pools cell calls k (inl (empty, awaits)) = elim (awaits k) [
    | inl fresh ↦
        let moves : (build_global cell (calls k)).1 ≡ checked (pools k) =
          passes pools cell (calls k) k empty fresh in
        inl (
          leaves pools cell (calls k) k empty fresh,
          λ j. elim (ℕ_discrete j k) [
            | yes same ↦ inr (
                subst (λ m. update calls k (build_global cell (calls k)).1 m ≡ checked (pools m))
                  (sym same) (update_self calls k _ ∙ moves))
            | no apart ↦
                subst (λ c. (c ≡ unchecked (pools j)) ⊎ (c ≡ checked (pools j)))
                  (sym (update_ne calls k j _ (λ e. apart (sym e)))) (awaits j)
          ],
        )
    | inr passed ↦ inr (
      k,
      sets pools cell (calls k) k empty passed,
      update_self calls k _ ∙ answers pools cell (calls k) k empty passed,
    )
  ]
  Settled-build_global pools cell calls k (inr (i, set, done)) = inr (
    i,
    subst (λ c. (build_global c (calls k)).0 ≡ some (pools i)) (sym set)
        (keeps_pool (pools i) (calls k)),
    elim (ℕ_discrete i k) [
      | yes same ↦
          subst (λ m. update calls k (build_global cell (calls k)).1 m ≡ answered none) (sym same)
            (update_self calls k _
              ∙ subst (λ call. (build_global cell call).1 ≡ answered none)
                  (sym (subst (λ m. calls m ≡ answered none) same done)) (keeps_answer cell))
      | no apart ↦ update_ne calls k i _ (λ e. apart (sym e)) ∙ done
    ],
  )

  Settled-build_globals :
      (pools : ℕ → Pool) (ks : List ℕ) (cell : Option Pool) (calls : ℕ → GlobalCall Pool)
      → Settled pools cell calls
      → Settled pools (build_globals cell calls ks).0 (build_globals cell calls ks).1
  unfolding build_globals
  Settled-build_globals pools [] cell calls s = s
  Settled-build_globals pools (k ∷ ks) cell calls s =
      Settled-build_globals pools ks _ _ (Settled-build_global pools cell calls k s)

-- Where the closures of the crate's functions run when `THREADPOOL` is this.
abbrev pub spawned : {Pool Func : Type 0} → Option Pool → Func → RunsOn Pool Func × RunsOn Pool Func
spawned cell func = (global_spawn cell func, global_spawn_local cell func)

-- In a process without a global pool, after any calls of `build_global`, with their accesses to
-- `THREADPOOL` in any order, either no call has come back and the functions `spawn` and
-- `spawn_local` of the crate run their closures on the caller, or some call has succeeded, and
-- these functions give their closures to its pool, then and after any further accesses of the
-- calls.
pub global_spawn-build_globals :
    {Pool Func : Type 0} (pools : ℕ → Pool) (ks : List ℕ) (func : Func)
    → let (cell, calls) = build_globals none (λ k. unchecked (pools k)) ks in
      (Awaits pools calls × (spawned cell func ≡ (caller func, caller func)))
      ⊎ ((i : ℕ) × (calls i ≡ answered none)
          × ((later : List ℕ)
              → spawned (build_globals cell calls later).0 func
                ≡ (pool_task (pools i) func, lazy_task (pools i) func)))
unfolding global_spawn global_spawn_local
global_spawn-build_globals pools ks func =
    let calls = (build_globals none (λ k. unchecked (pools k)) ks).1 in
    elim (Settled-build_globals pools ks none (λ k. unchecked (pools k))
      (inl (refl, λ k. inl refl))) [
        | inl (empty, awaits) ↦ inl (awaits, ap (λ cell. spawned cell func) empty)
        | inr (i, set, done) ↦ inr (
          i,
          done,
          λ later.
              ap (λ cell. spawned cell func)
                (subst (λ cell. (build_globals cell calls later).0 ≡ some (pools i)) (sym set)
                  (stays (pools i) calls later)),
        )
      ]
