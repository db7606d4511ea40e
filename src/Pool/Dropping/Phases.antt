-- ===== src/Pool/Dropping/Phases.antt =====
-- src/lib.rs and src/sentry.rs: what the moves of a pool do to its queue and threads.
use affinitypool.Base.{
  ℕ, ◌<◌, ◌≡◌, ◌≢◌, refl, sym, ap, ◌∙◌, ◌⊎◌, inl, inr, Option, none, some, true, arith,
}
use affinitypool.Queue.{◌>>=◌}
use affinitypool.Queue.Threads.{Pc, running, Env}
use affinitypool.Queue.Turns.{Action, pushes, closes, panics}
use affinitypool.Queue.System.{System, step}
use affinitypool.Pool.Dropping.{
  DropStage, in_use, shutting, joining, returned, Pooled, replace_worker, note_panic, is_allowed,
  go_turn,
}

pub bind_some :
    {A B : Type 0} (o : Option A) (f : A → Option B) {b : B}
    → (o >>= f) ≡ some b
    → (a : A) × (o ≡ some a) × (f a ≡ some b)
bind_some none f eq = absurd (cc eq)
bind_some (some a) f eq = (a, refl, eq)

module _ {Task : Type 0} (env : Env Task) (bound num_workers dropper : ℕ) where
  open env use {crossbeam, condvar}

  pub note_panic-cases :
      (p : Pc Task) (a : Action crossbeam) (i : ℕ) (d : Pooled Task)
      → ((p ≡ running → a ≢ panics) × (note_panic env bound num_workers dropper p a i d ≡ d))
        ⊎ ((p ≡ running)
            × (a ≡ panics)
            × (note_panic env bound num_workers dropper p a i d ≡ replace_worker i d))
  note_panic-cases running panics i d = inr (refl, refl, refl)
  note_panic-cases p a i d = inl (λ e e'. cc, refl)

  -- A turn of a thread takes place in the system, and a panic in running code is noted.
  pub go_turn-step :
      (i : ℕ) (a : Action crossbeam) (c : condvar.Choice) (d d' : Pooled Task)
      → go_turn env bound num_workers dropper i a c d ≡ some d'
      → (s : System Task) × (step env bound d.system i a c ≡ some s)
        × ((((d.system.threads i).pc ≡ running → a ≢ panics) × (record d { system = s } ≡ d'))
            ⊎ (((d.system.threads i).pc ≡ running)
                × (a ≡ panics)
                × (record (replace_worker i d) { system = s } ≡ d')))
  go_turn-step i a c d d' eq =
      let (s, e, same) = bind_some (step env bound d.system i a c) _ eq in
      let noted : record (note_panic env bound num_workers dropper (d.system.threads i).pc a i d) {
        system = s;
      }
          ≡ d' =
        cc same in
      (
        s,
        e,
        elim (note_panic-cases (d.system.threads i).pc a i d) [
          | inl (mild, alike) ↦
              inl (mild, ap (λ (x : Pooled Task). record x { system = s }) (sym alike) ∙ noted)
          | inr (at, crash, loud) ↦
              inr (at, crash, ap (λ (x : Pooled Task). record x { system = s }) (sym loud) ∙ noted)
        ],
      )

  pub is_allowed-other :
      (st : DropStage) (i : ℕ) (a : Action crossbeam)
      → is_allowed env bound num_workers dropper st i a ≡ true
      → a ≢ closes
  is_allowed-other returned i a eq = absurd (cc eq)
  is_allowed-other in_use i a eq =
      λ e. cc (eq, ap (is_allowed env bound num_workers dropper in_use i) e)
  is_allowed-other shutting i a eq =
      λ e. cc (eq, ap (is_allowed env bound num_workers dropper shutting i) e)
  is_allowed-other (joining hs) i a eq =
      λ e. cc (eq, ap (is_allowed env bound num_workers dropper (joining hs) i) e)

  pub is_allowed-silent :
      (st : DropStage) (i : ℕ) (a : Action crossbeam)
      → st ≢ in_use
      → is_allowed env bound num_workers dropper st i a ≡ true
      → (r : Task) → a ≡ pushes r
      → i < num_workers
  is_allowed-silent returned i a begun eq r e = absurd (cc eq)
  is_allowed-silent in_use i a begun eq r e = absurd (begun refl)
  is_allowed-silent shutting i a begun eq r e =
      ground (arith, eq, ap (is_allowed env bound num_workers dropper shutting i) e)
  is_allowed-silent (joining hs) i a begun eq r e =
      ground (arith, eq, ap (is_allowed env bound num_workers dropper (joining hs) i) e)
