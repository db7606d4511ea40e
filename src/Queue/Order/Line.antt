-- ===== src/Queue/Order/Line.antt =====
-- src/queue.rs: the logs and the line of a pool of one worker, over all turns.
use affinitypool.Base.{
  ℕ, ◌≤◌, ◌≡◌, refl, sym, ◌∙◌, ap, List, [], ◌∷◌, ◌++◌, Option, some, none, arith, ℕ_discrete,
}
use affinitypool.Base.Family.{update, update_self, update_ne}
use affinitypool.Queue.{Queue, new, fresh}
use affinitypool.Queue.Shards.{num_shards-IsShardCount, wanted}
use affinitypool.Queue.Threads.{
  Thread, Signal, quiet, sends, delivers, drops, wakes_one, wakes_all, Effect, Env,
}
use affinitypool.Queue.Turns.{Action, pushes, act}
use affinitypool.Queue.Turns.Classes.{HasRole, Drained}
use affinitypool.Queue.Turns.Balance.{in_hand}
use affinitypool.Queue.Turns.Ensures.{Ensures, Ensures-some}
use affinitypool.Queue.System.{
  System, Reach, init, start, later, after, log_sent, log_delivered, log_dropped,
}
use affinitypool.Queue.System.Invariant.{Inv, new-fresh}
use affinitypool.Queue.System.Moved.{guarded}
use affinitypool.Queue.System.Wake.{IsWoken, wakes-IsWoken}
use affinitypool.Queue.System.Preserve.{step-turn}
use affinitypool.Queue.System.Safety.{IsPool, Reach-Inv}
use affinitypool.Queue.Order.{
  Ordered, oldest_first, waiting, line, arrived, departed, Served, opens, serves,
}
use affinitypool.Queue.Order.Turns.{Takes, Brings, act-Takes, act-Brings}
use mathlib.Core.List.{append_assoc}
use mathlib.Core.Path.{subst}

wanted-one : (shards : Option ℕ) → wanted 1 shards ≤ 1
wanted-one none = omega arith
wanted-one (some n) = omega arith

module _ {Task : Type 0} where
  woken-in_hand : (t t' : Thread Task) → IsWoken t t' → in_hand t'.pc ≡ in_hand t.pc
  woken-in_hand t t' w = ground arith

  arrived-append :
      (sig : Signal Task) (xs ys : List Task) → xs ++ arrived sig ys ≡ arrived sig (xs ++ ys)
  arrived-append (sends r) xs ys = sym (append_assoc xs ys (r ∷ []))
  arrived-append quiet xs ys = refl
  arrived-append (delivers r) xs ys = refl
  arrived-append (drops ts) xs ys = refl
  arrived-append wakes_one xs ys = refl
  arrived-append wakes_all xs ys = refl

  none_dropped :
      (sig : Signal Task) (dropped : List Task) → log_dropped sig dropped ≡ [] → dropped ≡ []
  none_dropped (drops []) dropped e = e
  none_dropped (drops (t ∷ ts)) dropped e = absurd (cc e)
  none_dropped quiet dropped e = e
  none_dropped (sends r) dropped e = e
  none_dropped (delivers r) dropped e = e
  none_dropped wakes_one dropped e = e
  none_dropped wakes_all dropped e = e

  -- The logs and the line after a signal.
  logs-line :
      (sig : Signal Task) (sent delivered dropped xs ys : List Task)
      → departed sig ys ≡ arrived sig xs
      → log_dropped sig dropped ≡ []
      → oldest_first sent ≡ oldest_first delivered ++ xs
      → oldest_first (log_sent sig sent) ≡ oldest_first (log_delivered sig delivered) ++ ys
  logs-line (sends r) sent delivered dropped xs ys h kept order =
      ap (λ l. l ++ (r ∷ [])) order
      ∙ append_assoc (oldest_first delivered) xs (r ∷ [])
      ∙ ap (λ l. oldest_first delivered ++ l) (sym h)
  logs-line (delivers r) sent delivered dropped xs ys h kept order =
      order
      ∙ ap (λ l. oldest_first delivered ++ l) (sym h)
      ∙ sym (append_assoc (oldest_first delivered) (r ∷ []) ys)
  logs-line (drops []) sent delivered dropped xs ys h kept order = cc (h, order)
  logs-line (drops (t ∷ ts)) sent delivered dropped xs ys h kept order = absurd (cc kept)
  logs-line quiet sent delivered dropped xs ys h kept order = cc (h, order)
  logs-line wakes_one sent delivered dropped xs ys h kept order = cc (h, order)
  logs-line wakes_all sent delivered dropped xs ys h kept order = cc (h, order)

  new-one_shard : (shards : Option ℕ) (q : Queue Task) → new 1 shards ≡ some q → q.mask ≡ 0
  unfolding new
  new-one_shard shards q made =
      let (count, counted, is_count) =
        num_shards-IsShardCount 1 shards (omega arith) (omega arith) in
      let single : count ≡ 1 =
        omega (arith, is_count.positive, is_count.tight, wanted-one shards) in
      let same : fresh {Task = Task} 1 count ≡ q = cc (rw counted at made) in
      ap (λ (x : Queue Task). x.mask) (sym same) ∙ omega (arith, single)

-- A turn that pushes nothing if it is the worker's.
module _ {Task : Type 0} (env : Env Task) (ordered : Ordered env.crossbeam) {bound e : ℕ}
    {s : System Task} (inv : Inv 1 bound e s) (one : s.queue.mask ≡ 0) (i : ℕ)
    (a : Action env.crossbeam) (silent : (r : Task) → a ≡ pushes r → 1 ≤ i) {eff : Effect Task}
    (eq : act env (s.threads i).pc a i s.queue (s.threads i) ≡ some eff)
    (c : env.condvar.Choice) where
  abbrev last : System Task
  last = after env bound s i c eff

  hand-kept : in_hand (last.threads 0).pc ≡ in_hand (update s.threads i eff.thread 0).pc
  hand-kept =
      woken-in_hand (update s.threads i eff.thread 0) (last.threads 0)
        (wakes-IsWoken env bound c eff.signal (update s.threads i eff.thread) 0)

  worker-line : i ≡ 0 → departed eff.signal (line last) ≡ arrived eff.signal (line s)
  worker-line same =
      let takes : Takes s.queue (s.threads i).pc eff =
        Ensures-some (Takes s.queue (s.threads i).pc) _ eq (
          subst
            (λ k.
              Ensures (Takes s.queue (s.threads i).pc)
                (act env (s.threads i).pc a k s.queue (s.threads i)))
            (sym same)
            (act-Takes env s.queue (s.threads i) (s.threads i).pc a ordered one inv.num_workers
              (subst (λ k. HasRole 1 k (s.threads i) (s.threads i).pc) same (inv.role i))
              (subst (λ k. Drained (s.threads i).pc (s.queue.deques k)) same (inv.drained i))
              (λ r e. omega (arith, silent r e)))) in
      let moved : update s.threads i eff.thread 0 ≡ eff.thread =
        ap (update s.threads i eff.thread) (sym same) ∙ update_self s.threads i eff.thread in
      ap (λ h. departed eff.signal (h ++ waiting eff.queue))
        (hand-kept ∙ ap (λ (t : Thread Task). in_hand t.pc) moved)
      ∙ takes
      ∙ ap (λ k. arrived eff.signal (in_hand (s.threads k).pc ++ waiting s.queue)) same

  caller-line : 1 ≤ i → departed eff.signal (line last) ≡ arrived eff.signal (line s)
  caller-line le =
      let (brings, takes_none) =
        Ensures-some (Brings s.queue) _ eq
          (act-Brings env s.queue (s.threads i) i (s.threads i).pc a le one (inv.role i)) in
      let hand : in_hand (last.threads 0).pc ≡ in_hand (s.threads 0).pc =
        hand-kept
        ∙ ap (λ (t : Thread Task). in_hand t.pc)
            (update_ne s.threads i 0 eff.thread (λ e. omega (arith, e))) in
      takes_none (line last)
      ∙ ap (λ h. h ++ waiting eff.queue) hand
      ∙ ap (λ rs. in_hand (s.threads 0).pc ++ rs) brings
      ∙ arrived-append eff.signal (in_hand (s.threads 0).pc) (waiting s.queue)

  pub after-line : departed eff.signal (line last) ≡ arrived eff.signal (line s)
  after-line = elim (ℕ_discrete i 0) [
    | yes same ↦ worker-line same
    | no apart ↦ caller-line (omega (arith, apart))
  ]

module _ {Task : Type 0} (env : Env Task) (bound : ℕ) (shards : Option ℕ)
    (pool : IsPool bound 1) where
  Served-Reach : (s : System Task) → Served env bound shards s → Reach env bound 1 shards s
  Served-Reach _ (opens made) = start made
  Served-Reach s' (serves {s = s} i a c d silent eq) = later i a c (Served-Reach s d) eq

  Served-mask : (s : System Task) → Served env bound shards s → s.queue.mask ≡ 0
  Served-mask _ (opens {q} made) = new-one_shard shards q made
  Served-mask s' (serves {s = s} i a c d silent eq) =
      let (e, inv) = Reach-Inv env bound 1 shards pool s (Served-Reach s d) in
      let (lt, eff, turn, same) = step-turn env bound s s' i a c eq in
      ap (λ (x : System Task). x.queue.mask) same
      ∙ (guarded env inv i lt a turn).mask
      ∙ Served-mask s d

  -- For a pool of one worker among fewer than `usize::MAX` threads, with any shard override, and
  -- a `crossbeam_deque` whose steals take the oldest runnable and move those behind it in their
  -- order: in every state that the threads reach over a new queue with turns in which the worker
  -- pushes nothing, if no runnable was dropped with the deque of a worker that panicked, then
  -- the runnables that were pushed, in the order of their pushes, are those that `pop_blocking`
  -- has returned, in the order in which it did, and behind them the one in the hand of the
  -- worker, those in its deque and those in the shard.
  pub Served-line :
      (s : System Task)
      → Ordered env.crossbeam
      → Served env bound shards s
      → s.dropped ≡ []
      → oldest_first s.sent ≡ oldest_first s.delivered ++ line s
  Served-line _ ordered (opens {q} made) kept =
      let (count, same) = new-fresh 1 shards q made in
      subst (λ x. [] ≡ line (init x)) (sym same) refl
  Served-line s' ordered (serves {s = s} i a c d silent eq) kept =
      let (e, inv) = Reach-Inv env bound 1 shards pool s (Served-Reach s d) in
      let (lt, eff, turn, same) = step-turn env bound s s' i a c eq in
      let kept' : log_dropped eff.signal s.dropped ≡ [] =
        ap (λ (x : System Task). x.dropped) (sym same) ∙ kept in
      subst (λ (x : System Task). oldest_first x.sent ≡ oldest_first x.delivered ++ line x)
        (sym same)
        (logs-line eff.signal s.sent s.delivered s.dropped (line s)
          (line (after env bound s i c eff))
          (after-line env ordered inv (Served-mask s d) i a silent turn c) kept'
          (Served-line s ordered d (none_dropped eff.signal s.dropped kept')))
