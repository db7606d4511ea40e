-- ===== src/Pool/Dropping/Tracked.antt =====
-- src/lib.rs and src/sentry.rs: where the handle of each worker is, from the start of a pool to the end
-- of its drop.
use affinitypool.Base.{
  ℕ, suc, ◌<◌, ◌≡◌, ◌≢◌, sym, ap, ◌⊎◌, inl, inr, List, [], ◌∷◌, ◌++◌, Option, some, true,
  ℕ_discrete,
}
use affinitypool.Base.Family.{update, update_self, update_ne}
use affinitypool.Queue.{Queue, new}
use affinitypool.Queue.Threads.{exited, Env}
use affinitypool.Queue.Turns.{Action, closes}
use affinitypool.Queue.System.{System, step}
use affinitypool.Queue.System.Invariant.{new-fresh}
use affinitypool.Pool.Dropping.{
  Handle, DropStage, shutting, joining, Pooled, Move, has_ended, new_pooled, Lives, starts, moves,
  replace_worker, take_at,
}
use affinitypool.Pool.Dropping.Handles.{
  Among, Among-append_left, Among-append_right, TakenFrom, take_at-TakenFrom, first_handles-Among,
}
use affinitypool.Pool.Dropping.Moves.{
  Happens, turned, crashed, begun, drained, joined, finished, was_stored, advance-Happens,
}
use affinitypool.Pool.Dropping.Exits.{ended-exited, step-exited}
use mathlib.Core.Path.{subst}

-- The handles that the drop has not joined yet.
abbrev pub left_to_join : DropStage → List Handle
left_to_join (joining hs) = hs
left_to_join _ = []

module _ {Task : Type 0} where
  -- The worker has exited, or some list has the handle of its present thread.
  abbrev pub Tracked : Pooled Task → ℕ → Type 0
  Tracked d w =
      ((d.system.threads w).pc ≡ exited)
      ⊎ Among (w, d.incarnation w) d.unstored
      ⊎ Among (w, d.incarnation w) d.thread_handles
      ⊎ Among (w, d.incarnation w) (left_to_join d.stage)

module _ {Task : Type 0} (env : Env Task) (bound : ℕ) where
  Tracked-exited :
      (d : Pooled Task) (w i : ℕ) (a : Action env.crossbeam) (c : env.condvar.Choice)
      (s : System Task)
      → step env bound d.system i a c ≡ some s
      → Tracked d w
      → Tracked (record d { system = s }) w
  Tracked-exited d w i a c s eq (inl at) = inl (step-exited env bound i w a c d.system s eq at)
  Tracked-exited d w i a c s eq (inr m) = inr m

  Tracked-crashed :
      (d : Pooled Task) (w i : ℕ) (a : Action env.crossbeam) (c : env.condvar.Choice)
      (s : System Task)
      → step env bound d.system i a c ≡ some s
      → Tracked d w
      → Tracked (record (replace_worker i d) { system = s }) w
  Tracked-crashed d w i a c s eq tracked = elim (ℕ_discrete i w) [
    | yes same ↦ inr (inl (Among-append_right _ d.unstored _ (inl (renewed same))))
    | no apart ↦ (elim tracked [
      | inl at ↦ inl (step-exited env bound i w a c d.system s eq at)
      | inr (inl m) ↦ inr (
          inl (
            Among-append_left _ d.unstored _
              (subst (λ k. Among (w, k) d.unstored) (sym (older apart)) m)))
      | inr (inr (inl m)) ↦
          inr (inr (inl (subst (λ k. Among (w, k) d.thread_handles) (sym (older apart)) m)))
      | inr (inr (inr m)) ↦
          inr (inr (inr (subst (λ k. Among (w, k) (left_to_join d.stage)) (sym (older apart)) m)))
    ])
  ]
    where
      older : i ≢ w → update d.incarnation i (suc (d.incarnation i)) w ≡ d.incarnation w
      older apart = update_ne d.incarnation i w (suc (d.incarnation i)) apart

      renewed :
          i ≡ w
          → ◌≡◌ {A = Handle}
              (w, update d.incarnation i (suc (d.incarnation i)) w)
              (i, suc (d.incarnation i))
      renewed same =
          subst
            (λ k.
              ◌≡◌ {A = Handle} (k, update d.incarnation i (suc (d.incarnation i)) k)
                (i, suc (d.incarnation i)))
            same (ap (λ k. (i, k)) (update_self d.incarnation i (suc (d.incarnation i))))

  Tracked-joined :
      (d : Pooled Task) (w : ℕ) (h : Handle) (hs : List Handle)
      → d.stage ≡ joining (h ∷ hs)
      → has_ended h d ≡ true
      → Tracked d w
      → Tracked (record d { stage = joining hs }) w
  Tracked-joined d w h hs at over (inl e) = inl e
  Tracked-joined d w h hs at over (inr (inl m)) = inr (inl m)
  Tracked-joined d w h hs at over (inr (inr (inl m))) = inr (inr (inl m))
  Tracked-joined d w h hs at over (inr (inr (inr m))) =
      elim (subst (λ st. Among (w, d.incarnation w) (left_to_join st)) at m)
        as (λ _. Tracked (record d { stage = joining hs }) w) [
          | inl here ↦ inl (ended-exited w d (subst (λ x. has_ended x d ≡ true) (sym here) over))
          | inr later ↦ inr (inr (inr later))
        ]

  Tracked-stored :
      (d : Pooled Task) (w k : ℕ) (x : Handle) (rest : List Handle)
      → take_at k d.unstored ≡ some (x, rest)
      → Tracked d w
      → Tracked (record d { thread_handles = d.thread_handles ++ (x ∷ []); unstored = rest }) w
  Tracked-stored d w k x rest eq (inl e) = inl e
  Tracked-stored d w k x rest eq (inr (inl m)) =
      let (there, split, back) = subst (TakenFrom d.unstored) eq (take_at-TakenFrom k d.unstored) in
      elim (split (w, d.incarnation w) m) [
        | inl here ↦ inr (inr (inl (Among-append_right _ d.thread_handles _ (inl here))))
        | inr others ↦ inr (inl others)
      ]
  Tracked-stored d w k x rest eq (inr (inr (inl m))) =
      inr (inr (inl (Among-append_left _ d.thread_handles _ m)))
  Tracked-stored d w k x rest eq (inr (inr (inr m))) = inr (inr (inr m))

  Happens-Tracked :
      (num_workers dropper : ℕ) (d d' : Pooled Task) (w : ℕ) {m : Move env}
      → Happens env bound num_workers dropper d m d'
      → Tracked d w
      → Tracked d' w
  Happens-Tracked n dropper d _ w (turned {s} i a c allowed mild e) t =
      Tracked-exited d w i a c s e t
  Happens-Tracked n dropper d _ w (crashed {s} i a c allowed at crash e) t =
      Tracked-crashed d w i a c s e t
  Happens-Tracked n dropper d _ w (begun {s} c at owned e) t =
      unstaged (Tracked-exited d w dropper closes c s e t)
    where
      unstaged :
          Tracked (record d { system = s }) w
          → Tracked (record d { system = s; stage = shutting }) w
      unstaged (inl e) = inl e
      unstaged (inr (inl m)) = inr (inl m)
      unstaged (inr (inr (inl m))) = inr (inr (inl m))
      unstaged (inr (inr (inr m))) =
          absurd (subst (λ st. Among (w, d.incarnation w) (left_to_join st)) at m)
  Happens-Tracked n dropper d _ w (drained at) (inl e) = inl e
  Happens-Tracked n dropper d _ w (drained at) (inr (inl m)) = inr (inl m)
  Happens-Tracked n dropper d _ w (drained at) (inr (inr (inl m))) = inr (inr (inr m))
  Happens-Tracked n dropper d _ w (drained at) (inr (inr (inr m))) =
      absurd (subst (λ st. Among (w, d.incarnation w) (left_to_join st)) at m)
  Happens-Tracked n dropper d _ w (joined h hs at over) t = Tracked-joined d w h hs at over t
  Happens-Tracked n dropper d _ w (finished at) (inl e) = inl e
  Happens-Tracked n dropper d _ w (finished at) (inr (inl m)) = inr (inl m)
  Happens-Tracked n dropper d _ w (finished at) (inr (inr (inl m))) = inr (inr (inl m))
  Happens-Tracked n dropper d _ w (finished at) (inr (inr (inr m))) =
      absurd (subst (λ st. Among (w, d.incarnation w) (left_to_join st)) at m)
  Happens-Tracked n dropper d _ w (was_stored {x} {rest} k e) t = Tracked-stored d w k x rest e t

  start-Tracked :
      (n : ℕ) (shards : Option ℕ) (q : Queue Task) (w : ℕ)
      → new n shards ≡ some q
      → w < n
      → Tracked (new_pooled q) w
  start-Tracked n shards q w made lt =
      let (count, same) = new-fresh n shards q made in
      subst (λ x. Tracked (new_pooled x) w) (sym same)
        (inr (inr (inl (first_handles-Among n w lt))))

  -- While the pool lives, no worker goes without that.
  pub Lives-Tracked :
      (num_workers dropper : ℕ) (shards : Option ℕ) (d : Pooled Task) (w : ℕ)
      → Lives env bound num_workers dropper shards d
      → w < num_workers
      → Tracked d w
  Lives-Tracked n dropper shards _ w (starts {q} made) lt = start-Tracked n shards q w made lt
  Lives-Tracked n dropper shards d' w (moves {d} m l owned eq) lt =
      Happens-Tracked n dropper d d' w (advance-Happens env bound n dropper m d d' owned eq)
        (Lives-Tracked n dropper shards d w l lt)
