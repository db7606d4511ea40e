-- ===== src/Queue/Channel/Weights.antt =====
-- src/queue.rs: the weight of the runnables that are pending, and what a turn does to it.
use affinitypool.Base.{ℕ, ◌+◌, ◌≤◌, ◌<◌, ◌≡◌, refl, sym, ◌∙◌, ap, List, [], ◌∷◌, ◌++◌, some, arith}
use affinitypool.Base.Family.{
  update_elim, update, total, total-cong, total-update, total-zero, weight, weight-append,
  weight-gather, gather,
}
use affinitypool.Queue.{max_threads, fresh}
use affinitypool.Queue.Scan.Weights.{queued}
use affinitypool.Queue.Threads.{
  Thread, Signal, quiet, sends, delivers, drops, wakes_one, wakes_all, Effect, Env,
}
use affinitypool.Queue.Turns.{Action, act}
use affinitypool.Queue.Turns.Ensures.{Ensures-some}
use affinitypool.Queue.Turns.Balance.{
  in_hand, sent_by, delivered_by, dropped_by, ScansWithin, Balanced, act-Balanced,
}
use affinitypool.Queue.System.{
  System, after, log_sent, log_delivered, log_dropped, init, init_thread,
}
use affinitypool.Queue.System.Invariant.{Inv}
use affinitypool.Queue.System.Wake.{IsWoken, wakes-IsWoken}
use affinitypool.Queue.Channel.{bag, put, put_all, Changes, pending}
use mathlib.Core.Quot

module _ {Task : Type 0} where
  abbrev pub hand_weight : (Task → ℕ) → Thread Task → ℕ
  hand_weight w t = weight w (in_hand t.pc)

  woken-in_hand :
      (w : Task → ℕ) (t t' : Thread Task) → IsWoken t t' → hand_weight w t' ≡ hand_weight w t
  woken-in_hand w t t' h = ground arith

  woken-ScansWithin :
      (n : ℕ) (t t' : Thread Task) → IsWoken t t' → ScansWithin n t.pc → ScansWithin n t'.pc
  woken-ScansWithin n t t' h s = ground arith

  -- The weight of the bag.
  pub pending-weight :
      (w : Task → ℕ) (bound : ℕ) (s : System Task)
      → weight w (pending bound s) ≡ queued w s.queue + total (hand_weight w) bound s.threads
  unfolding queued
  pending-weight w bound s =
      let shards = gather (λ (rs : List Task). rs) s.queue.num_injectors s.queue.injectors in
      let deques = gather (λ (rs : List Task). rs) s.queue.num_workers s.queue.deques in
      let hands = gather (λ (t : Thread Task). in_hand t.pc) bound s.threads in
      omega (
        arith,
        weight-append w shards (deques ++ hands),
        weight-append w deques hands,
        weight-gather w (λ (rs : List Task). rs) s.queue.num_injectors s.queue.injectors,
        weight-gather w (λ (rs : List Task). rs) s.queue.num_workers s.queue.deques,
        weight-gather w (λ (t : Thread Task). in_hand t.pc) bound s.threads,
      )

  pub fresh-weight :
      (w : Task → ℕ) (bound n count : ℕ) → weight w (pending bound (init (fresh n count))) ≡ 0
  unfolding queued
  fresh-weight w bound n count = omega (
    arith,
    pending-weight w bound (init (fresh n count)),
    total-zero (weight w) count (λ j. []) (λ j below. refl),
    total-zero (weight w) n (λ j. []) (λ j below. refl),
    total-zero (hand_weight w) bound (init_thread n) (λ j below. ground arith),
  )

  pub log_sent-weight :
      (w : Task → ℕ) (sig : Signal Task) (log : List Task)
      → weight w (log_sent sig log) ≡ weight w (sent_by sig) + weight w log
  log_sent-weight w sig log = ground arith

  pub log_delivered-weight :
      (w : Task → ℕ) (sig : Signal Task) (log : List Task)
      → weight w (log_delivered sig log) ≡ weight w (delivered_by sig) + weight w log
  log_delivered-weight w sig log = ground arith

  pub log_dropped-weight :
      (w : Task → ℕ) (sig : Signal Task) (log : List Task)
      → weight w (log_dropped sig log) ≡ weight w (dropped_by sig) + weight w log
  log_dropped-weight w (drops rs) log = weight-append w rs log
  log_dropped-weight w quiet log = omega arith
  log_dropped-weight w (sends r) log = omega arith
  log_dropped-weight w (delivers r) log = omega arith
  log_dropped-weight w wakes_one log = omega arith
  log_dropped-weight w wakes_all log = omega arith

  put_all-bag : (rs ys : List Task) → put_all rs (bag ys) ≡ bag (rs ++ ys)
  unfolding put
  put_all-bag [] ys = refl
  put_all-bag (r ∷ rs) ys = ap (put r) (put_all-bag rs ys)

  -- Equal weights say how the bag changes.
  pub weights-Changes :
      (sig : Signal Task) (xs ys : List Task)
      → ((w : Task → ℕ)
          → weight w ys + weight w (delivered_by sig) + weight w (dropped_by sig)
            ≡ weight w xs + weight w (sent_by sig))
      → Changes sig (bag xs) (bag ys)
  unfolding put
  weights-Changes (sends r) xs ys h = Quot.sound (λ w. omega (arith, h w))
  weights-Changes (delivers r) xs ys h = Quot.sound (λ w. omega (arith, h w))
  weights-Changes (drops rs) xs ys h =
      Quot.sound (λ w. omega (arith, h w, weight-append w rs ys)) ∙ sym (put_all-bag rs ys)
  weights-Changes quiet xs ys h = Quot.sound (λ w. omega (arith, h w))
  weights-Changes wakes_one xs ys h = Quot.sound (λ w. omega (arith, h w))
  weights-Changes wakes_all xs ys h = Quot.sound (λ w. omega (arith, h w))

module _ {Task : Type 0} (env : Env Task) {n bound e : ℕ} {s : System Task} (inv : Inv n bound e s)
    (few : n ≤ max_threads) (i : ℕ) (lt : i < bound) (a : Action env.crossbeam) {eff : Effect Task}
    (scans : (j : ℕ) → ScansWithin n (s.threads j).pc)
    (eq : act env (s.threads i).pc a i s.queue (s.threads i) ≡ some eff) where
  balanced : (w : Task → ℕ) → Balanced n w s.queue (s.threads i).pc eff
  balanced w = Ensures-some _ _ eq (
      act-Balanced env n e i s.queue (s.threads i) w inv.sharded inv.num_injectors inv.num_workers
        (s.threads i).pc a (inv.rng i) few (inv.role i) (inv.drained i) (scans i))

  module _ (c : env.condvar.Choice) where
    IsWoken-at :
        (j : ℕ) → IsWoken (update s.threads i eff.thread j) ((after env bound s i c eff).threads j)
    IsWoken-at j = wakes-IsWoken env bound c eff.signal (update s.threads i eff.thread) j

    pub after-ScansWithin : (j : ℕ) → ScansWithin n ((after env bound s i c eff).threads j).pc
    after-ScansWithin j = woken-ScansWithin n _ _ (IsWoken-at j) (
        update_elim (λ k t. ScansWithin n t.pc) s.threads i eff.thread (balanced (λ r. 0)).within
          (λ k ne. scans k) j)

    pub after-weight :
        (w : Task → ℕ)
        → weight w (pending bound (after env bound s i c eff))
            + weight w (delivered_by eff.signal)
            + weight w (dropped_by eff.signal)
          ≡ weight w (pending bound s) + weight w (sent_by eff.signal)
    after-weight w = omega (
      arith,
      pending-weight w bound s,
      pending-weight w bound (after env bound s i c eff),
      (balanced w).balance,
      total-update (hand_weight w) bound s.threads i eff.thread lt,
      total-cong (hand_weight w) bound (after env bound s i c eff).threads
          (update s.threads i eff.thread) (λ j below. woken-in_hand w _ _ (IsWoken-at j)),
    )
