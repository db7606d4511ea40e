-- ===== src/Pool/Dropping/Moves.antt =====
-- src/lib.rs and src/sentry.rs: the moves of a pool, case by case.
use affinitypool.Base.{
  ℕ, ◌≤◌, ◌≡◌, ◌≢◌, refl, List, [], ◌∷◌, ◌++◌, Option, none, some, true, Bool-cases, inl, inr,
}
use affinitypool.Queue.Threads.{running, Env}
use affinitypool.Queue.Turns.{Action, closes, panics}
use affinitypool.Queue.System.{System, step}
use affinitypool.Pool.Dropping.{
  Handle, DropStage, in_use, shutting, joining, returned, Pooled, Move, goes, begins, drains, joins,
  stores, has_ended, is_running, replace_worker, is_allowed, go_turn, begin_turn, drain_turn,
  join_turn, advance, Owns, store_handle, take_at,
}
use affinitypool.Pool.Dropping.Phases.{bind_some, go_turn-step}
use mathlib.Core.Path.{subst}

pub data Happens {Task : Type 0} (env : Env Task) (bound num_workers dropper : ℕ) (d : Pooled Task)
    : Move env → Pooled Task → Type 0 where
  turned :
      {s : System Task} (i : ℕ) (a : Action env.crossbeam) (c : env.condvar.Choice)
      → is_allowed env bound num_workers dropper d.stage i a ≡ true
      → ((d.system.threads i).pc ≡ running → a ≢ panics)
      → step env bound d.system i a c ≡ some s
      → Happens env bound num_workers dropper d (goes i a c) (record d { system = s })
  crashed :
      {s : System Task} (i : ℕ) (a : Action env.crossbeam) (c : env.condvar.Choice)
      → is_allowed env bound num_workers dropper d.stage i a ≡ true
      → (d.system.threads i).pc ≡ running
      → a ≡ panics
      → step env bound d.system i a c ≡ some s
      → Happens env bound num_workers dropper d
          (goes i a c)
          (record (replace_worker i d) { system = s })
  begun :
      {s : System Task} (c : env.condvar.Choice)
      → d.stage ≡ in_use
      → ((j : ℕ) → num_workers ≤ j → (d.system.threads j).pc ≡ running)
      → step env bound d.system dropper closes c ≡ some s
      → Happens env bound num_workers dropper d
          (begins c)
          (record d { system = s; stage = shutting })
  drained :
      d.stage ≡ shutting
      → Happens env bound num_workers dropper d drains
          (record d { thread_handles = []; stage = joining d.thread_handles })
  joined :
      (h : Handle) (hs : List Handle)
      → d.stage ≡ joining (h ∷ hs)
      → has_ended h d ≡ true
      → Happens env bound num_workers dropper d joins (record d { stage = joining hs })
  finished :
      d.stage ≡ joining []
      → Happens env bound num_workers dropper d joins
          (record d { thread_count = 0; stage = returned })
  was_stored :
      {x : Handle} {rest : List Handle} (k : ℕ)
      → take_at k d.unstored ≡ some (x, rest)
      → Happens env bound num_workers dropper d
          (stores k)
          (record d { thread_handles = d.thread_handles ++ (x ∷ []); unstored = rest })

module _ {Task : Type 0} (env : Env Task) (bound num_workers dropper : ℕ) where
  abbrev Leads : Pooled Task → Move env → Pooled Task → Type 0
  Leads d m d' = Happens env bound num_workers dropper d m d'

  go_turn-Happens :
      (i : ℕ) (a : Action env.crossbeam) (c : env.condvar.Choice) (d d' : Pooled Task)
      → is_allowed env bound num_workers dropper d.stage i a ≡ true
      → go_turn env bound num_workers dropper i a c d ≡ some d'
      → Leads d (goes i a c) d'
  go_turn-Happens i a c d d' allowed eq =
      let (s, e, noted) = go_turn-step env bound num_workers dropper i a c d d' eq in
      elim noted [
        | inl (mild, same) ↦ subst (Leads d (goes i a c)) same (turned i a c allowed mild e)
        | inr (at, crash, same) ↦
            subst (Leads d (goes i a c)) same (crashed i a c allowed at crash e)
      ]

  begin_turn-Happens :
      (st : DropStage) (c : env.condvar.Choice) (d d' : Pooled Task)
      → d.stage ≡ st
      → ((j : ℕ) → num_workers ≤ j → (d.system.threads j).pc ≡ running)
      → begin_turn env bound num_workers dropper c st d ≡ some d'
      → Leads d (begins c) d'
  begin_turn-Happens in_use c d d' at owned eq =
      let (s, e, same) = bind_some (step env bound d.system dropper closes c) _ eq in
      let became : record d { system = s; stage = shutting } ≡ d' = cc same in
      subst (Leads d (begins c)) became (begun c at owned e)
  begin_turn-Happens shutting c d d' at owned eq = absurd (cc eq)
  begin_turn-Happens (joining hs) c d d' at owned eq = absurd (cc eq)
  begin_turn-Happens returned c d d' at owned eq = absurd (cc eq)

  drain_turn-Happens :
      (st : DropStage) (d d' : Pooled Task)
      → d.stage ≡ st
      → drain_turn env bound num_workers dropper st d ≡ some d'
      → Leads d drains d'
  drain_turn-Happens shutting d d' at eq =
      elim (Bool-cases (is_running (d.system.threads dropper).pc)) [
        | inl free ↦
            let became : record d { thread_handles = []; stage = joining d.thread_handles } ≡ d' =
              cc (rw free at eq) in
            subst (Leads d drains) became (drained at)
        | inr busy ↦ absurd (cc (rw busy at eq))
      ]
  drain_turn-Happens in_use d d' at eq = absurd (cc eq)
  drain_turn-Happens (joining hs) d d' at eq = absurd (cc eq)
  drain_turn-Happens returned d d' at eq = absurd (cc eq)

  join_turn-Happens :
      (st : DropStage) (d d' : Pooled Task)
      → d.stage ≡ st
      → join_turn env bound num_workers dropper st d ≡ some d'
      → Leads d joins d'
  join_turn-Happens (joining []) d d' at eq =
      let became : record d { thread_count = 0; stage = returned } ≡ d' = cc eq in
      subst (Leads d joins) became (finished at)
  join_turn-Happens (joining (h ∷ hs)) d d' at eq = elim (Bool-cases (has_ended h d)) [
    | inl over ↦
        let became : record d { stage = joining hs } ≡ d' = cc (rw over at eq) in
        subst (Leads d joins) became (joined h hs at over)
    | inr still ↦ absurd (cc (rw still at eq))
  ]
  join_turn-Happens in_use d d' at eq = absurd (cc eq)
  join_turn-Happens shutting d d' at eq = absurd (cc eq)
  join_turn-Happens returned d d' at eq = absurd (cc eq)

  store-Happens :
      (k : ℕ) (taken : Option (Handle × List Handle)) (d d' : Pooled Task)
      → take_at k d.unstored ≡ taken
      → store_handle taken d ≡ some d'
      → Leads d (stores k) d'
  store-Happens k none d d' at eq = absurd (cc eq)
  store-Happens k (some (x, rest)) d d' at eq =
      let became : record d { thread_handles = d.thread_handles ++ (x ∷ []); unstored = rest }
          ≡ d' =
        cc eq in
      subst (Leads d (stores k)) became (was_stored k at)

  -- Each move is one of these.
  pub advance-Happens :
      (m : Move env) (d d' : Pooled Task)
      → Owns env bound num_workers dropper m d
      → advance env bound num_workers dropper m d ≡ some d'
      → Happens env bound num_workers dropper d m d'
  unfolding advance
  advance-Happens (goes i a c) d d' owned eq =
      elim (Bool-cases (is_allowed env bound num_workers dropper d.stage i a)) [
        | inl allowed ↦ go_turn-Happens i a c d d' allowed (rw allowed at eq)
        | inr refused ↦ absurd (cc (rw refused at eq))
      ]
  advance-Happens (begins c) d d' owned eq = begin_turn-Happens d.stage c d d' refl owned eq
  advance-Happens drains d d' owned eq = drain_turn-Happens d.stage d d' refl eq
  advance-Happens joins d d' owned eq = join_turn-Happens d.stage d d' refl eq
  advance-Happens (stores k) d d' owned eq = store-Happens k (take_at k d.unstored) d d' refl eq
