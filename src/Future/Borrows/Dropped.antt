-- ===== src/Future/Borrows/Dropped.antt =====
-- src/local.rs: what is left of the closure of a `SpawnFuture` when the drop is over.
use affinitypool.Base.{◌≡◌, refl, sym, List, [], ◌∷◌, Option, none, some}
use affinitypool.Future.{
  Poll, ready, pending, Caught, schedules, drops_runnable, drops_task, cancels, drop, poll_task,
  scheduled,
}
use affinitypool.Future.Borrows.{
  AsyncTask, Handles, HandleEvent, Standing, holding, polling, dropping, blocked, dropped, Use,
  polls, drops, Local, perform, perform_all, behind, begin_use, finish_poll, poll_cancel_again,
  caller_turn, Lives, spawns, caller_goes, worker_goes,
}
use mathlib.Core.Path.{subst}

module _ {R Payload : Type 0} (async : AsyncTask R Payload) where
  open async use {Holds}

  abbrev Gone : async.State → Type 0
  Gone s = Holds s → ⊥

  -- Without its task, the future has seen the end of the closure.
  abbrev Kept : Handles → async.State → Type 0
  Kept f s = f.task ≡ none → Gone s

  -- What is left to do in the drop ends the closure, or it has ended.
  abbrev EndsIt : List HandleEvent → async.State → Type 0
  EndsIt (drops_runnable r ∷ es) s = Unit
  EndsIt (cancels t ∷ es) s = Unit
  EndsIt es s = Gone s

  abbrev Sound : Standing → Handles → async.State → Type 0
  Sound holding f s = Kept f s
  Sound polling f s = Kept f s
  Sound (dropping es) f s = EndsIt es s
  Sound blocked f s = Unit
  Sound dropped f s = Gone s

  Gone-EndsIt : (es : List HandleEvent) (s : async.State) → Gone s → EndsIt es s
  Gone-EndsIt [] s g = g
  Gone-EndsIt (drops_runnable r ∷ es) s g = tt
  Gone-EndsIt (cancels t ∷ es) s g = tt
  Gone-EndsIt (drops_task t ∷ es) s g = g
  Gone-EndsIt (schedules r ∷ es) s g = g

  Sound-fewer :
      (p : Standing) (f : Handles) (s s' : async.State)
      → (Gone s → Gone s')
      → Sound p f s
      → Sound p f s'
  Sound-fewer holding f s s' h sound = λ e. h (sound e)
  Sound-fewer polling f s s' h sound = λ e. h (sound e)
  Sound-fewer (dropping []) f s s' h sound = h sound
  Sound-fewer (dropping (drops_runnable r ∷ es)) f s s' h sound = tt
  Sound-fewer (dropping (cancels t ∷ es)) f s s' h sound = tt
  Sound-fewer (dropping (drops_task t ∷ es)) f s s' h sound = h sound
  Sound-fewer (dropping (schedules r ∷ es)) f s s' h sound = h sound
  Sound-fewer blocked f s s' h sound = tt
  Sound-fewer dropped f s s' h sound = h sound

  drop-EndsIt : (f : Handles) (s : async.State) → Kept f s → EndsIt (drop f) s
  unfolding drop
  drop-EndsIt f s kept = from f.runnable f.task kept
    where
      from :
          (r t : Option (Unit {0}))
          → (t ≡ none → Gone s)
          → EndsIt (drop (record { runnable = r; task = t })) s
      from (some r) t h = tt
      from none (some t) h = tt
      from none none h = h refl

  abbrev IsSound : Local async → Type 0
  IsSound w = Sound w.standing w.future w.state

  begin_use-Sound :
      (u : Use) (w : Local async) → Kept w.future w.state → IsSound (begin_use async u w)
  begin_use-Sound polls w kept = from w.future.runnable kept
    where
      from :
          (r : Option (Unit {0}))
          → Kept w.future w.state
          → Kept w.future (perform_all async (scheduled r) w).state
      from none h = h
      from (some r) h = h
  begin_use-Sound drops w kept = drop-EndsIt w.future w.state kept

  finish_poll-Sound :
      (t : Option (Unit {0})) (w : Local async)
      → w.future.task ≡ t
      → Kept w.future w.state
      → IsSound (finish_poll async t w)
  finish_poll-Sound none w e kept = kept
  finish_poll-Sound (some t) w e kept = from (async.poll_task w.state) (async.poll_gone w.state)
    where
      from :
          (answered : Poll (Caught R Payload) × async.State)
          → ((c : Caught R Payload) → answered.0 ≡ ready c → Gone answered.1)
          → let p = poll_task answered.0 (some t) [] in
            Kept p.future (perform_all async p.events (record w { state = answered.1 })).state
      from (ready c, state) gone = λ e holds. gone c refl (async.drop_keeps state holds)
      from (pending, state) gone = λ e. cc e

  poll_cancel-Sound :
      (w : Local async)
      → w.standing ≡ blocked
      → IsSound (poll_cancel_again async (async.poll_cancel w.state) w)
  poll_cancel-Sound w at = from (async.poll_cancel w.state) (async.cancel_gone w.state)
    where
      from :
          (answered : Poll (Option (Caught R Payload)) × async.State)
          → ((c : Option (Caught R Payload)) → answered.0 ≡ ready c → Gone answered.1)
          → IsSound (poll_cancel_again async answered w)
      from (ready c, state) gone = gone c refl
      from (pending, state) gone = subst (λ p. Sound p w.future state) (sym at) tt

  drop_event-Sound :
      (d : HandleEvent) (es : List HandleEvent) (w : Local async)
      → EndsIt (d ∷ es) w.state
      → Sound (behind async d es) (perform async d w).future (perform async d w).state
  drop_event-Sound (drops_runnable r) es w sound =
      Gone-EndsIt es (async.drop_runnable w.state) (async.runnable_gone w.state)
  drop_event-Sound (cancels t) es w sound = tt
  drop_event-Sound (drops_task t) es w sound =
      Gone-EndsIt es (async.drop_task w.state) (λ holds. sound (async.drop_keeps w.state holds))
  drop_event-Sound (schedules r) es w sound = Gone-EndsIt es w.state sound

  caller_turn-Sound :
      (p : Standing) (u : Use) (w w' : Local async)
      → w.standing ≡ p
      → caller_turn async p u w ≡ some w'
      → Sound p w.future w.state
      → IsSound w'
  unfolding caller_turn
  caller_turn-Sound holding u w w' at e sound =
      let same : begin_use async u w ≡ w' = cc e in subst IsSound same (begin_use-Sound u w sound)
  caller_turn-Sound polling u w w' at e sound =
      let same : finish_poll async w.future.task w ≡ w' = cc e in
      subst IsSound same (finish_poll-Sound w.future.task w refl sound)
  caller_turn-Sound (dropping []) u w w' at e sound =
      let same : record w { standing = dropped } ≡ w' = cc e in subst IsSound same sound
  caller_turn-Sound (dropping (d ∷ es)) u w w' at e sound =
      let same : record (perform async d w) { standing = behind async d es } ≡ w' = cc e in
      subst IsSound same (drop_event-Sound d es w sound)
  caller_turn-Sound blocked u w w' at e sound =
      let same : poll_cancel_again async (async.poll_cancel w.state) w ≡ w' = cc e in
      subst IsSound same (poll_cancel-Sound w at)
  caller_turn-Sound dropped u w w' at e sound = absurd (cc e)

  Lives-Sound : (w : Local async) → Lives async w → IsSound w
  Lives-Sound _ (spawns state) = λ e. cc e
  Lives-Sound w' (caller_goes {w} u l e) =
      caller_turn-Sound w.standing u w w' refl e (Lives-Sound w l)
  Lives-Sound _ (worker_goes {w} {state} l queued works) =
      Sound-fewer w.standing w.future w.state state
        (λ gone holds. gone (async.works_keeps w.state state works holds)) (Lives-Sound w l)

  -- For any `async_task` that drops the closure with its runnable, answers ready to a poll and
  -- to the poll of a cancellation only once the closure is gone, and does not bring a closure
  -- back: in every state that a caller and the workers reach with a future of `spawn_local`, in
  -- any order of their turns, where the caller polls the future or drops it and does not leak
  -- it, if its drop is over, the closure has been dropped.
  pub dropped-Gone :
      (w : Local async) → Lives async w → w.standing ≡ dropped → ¬ async.Holds w.state
  dropped-Gone w l at = subst (λ p. Sound p w.future w.state) at (Lives-Sound w l)
