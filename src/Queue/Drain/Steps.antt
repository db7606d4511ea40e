-- ===== src/Queue/Drain/Steps.antt =====
-- src/queue.rs: the potential of the whole system over a step and over a run.
use affinitypool.Base.{
  ℕ, suc, ◌+◌, ◌≤◌, ◌<◌, ◌≡◌, refl, ap, List, inl, inr, [], Option, none, some, Bool-cases, arith,
}
use affinitypool.Base.Family.{weight, total, total-update, total-le_scaled, update}
use affinitypool.Queue.{max_threads}
use affinitypool.Queue.Threads.{
  Thread, Effect, Signal, Env, quiet, sends, delivers, drops, wakes_one, wakes_all,
}
use affinitypool.Queue.Turns.{Action, act}
use affinitypool.Queue.Turns.Balance.{ScansWithin, sent_by}
use affinitypool.Queue.Turns.Ensures.{Ensures-some}
use affinitypool.Queue.System.{
  System, after, log_sent, wake, wake_chosen, wake_sleepers, wakes, sleeps,
}
use affinitypool.Queue.System.Invariant.{Inv}
use affinitypool.Queue.Channel.Weights.{after-weight}
use affinitypool.Queue.Alone.{scans}
use affinitypool.Queue.Drain.{busy, bell, alarm, calls, energy, Tame, Spends, potential}
use affinitypool.Queue.Drain.Turns.{act-Spends}

module _ {Task : Type 0} (mask n bound : ℕ) where
  abbrev pub energy_weight : Thread Task → ℕ
  energy_weight t = energy mask n bound t.pc

  wake-energy : (t : Thread Task) → energy_weight (wake t) ≤ energy_weight t + bell mask n
  unfolding bell scans
  wake-energy t = omega arith

  wake_chosen-energy :
      (ts : ℕ → Thread Task) (o : Option ℕ)
      → ((v : ℕ) → o ≡ some v → v < bound)
      → total energy_weight bound (wake_chosen o ts) ≤ total energy_weight bound ts + bell mask n
  wake_chosen-energy ts none h = omega arith
  wake_chosen-energy ts (some v) h =
      omega
        (arith, total-update energy_weight bound ts v (wake (ts v)) (h v refl), wake-energy (ts v))

  wake_sleepers-energy :
      (ts : ℕ → Thread Task)
      → total energy_weight bound (wake_sleepers ts)
        ≤ total energy_weight bound ts + alarm mask n bound
  unfolding alarm
  wake_sleepers-energy ts =
      total-le_scaled energy_weight (bell mask n) bound (wake_sleepers ts) ts (λ j.
        elim (Bool-cases (sleeps (ts j))) [
          | inl on ↦ rw on (wake-energy (ts j))
          | inr off ↦ rw off (omega arith)
        ])

  wakes-energy :
      (env : Env Task) (c : env.condvar.Choice) (sig : Signal Task) (ts : ℕ → Thread Task)
      → total energy_weight bound (wakes env bound sig c ts)
        ≤ total energy_weight bound ts + calls mask n bound sig
  wakes-energy env c quiet ts = omega arith
  wakes-energy env c (sends r) ts = omega arith
  wakes-energy env c (delivers r) ts = omega arith
  wakes-energy env c (drops rs) ts = omega arith
  wakes-energy env c wakes_one ts =
      wake_chosen-energy ts _
        (λ v e. (env.condvar.wakes_sleeper c bound (λ k. sleeps (ts k)) v e).0)
  wakes-energy env c wakes_all ts = wake_sleepers-energy ts

log_sent-unsent :
    {Task : Type 0} (sig : Signal Task) (log : List Task)
    → sent_by sig ≡ []
    → log_sent sig log ≡ log
log_sent-unsent sig log h = ground arith

module _ {Task : Type 0} (env : Env Task) {n bound e : ℕ} {s : System Task} (inv : Inv n bound e s)
    (few : n ≤ max_threads) (i : ℕ) (lt : i < bound) (a : Action env.crossbeam) {eff : Effect Task}
    (scanning_within : (j : ℕ) → ScansWithin n (s.threads j).pc) (tame : Tame env.crossbeam a)
    (eq : act env (s.threads i).pc a i s.queue (s.threads i) ≡ some eff)
    (c : env.condvar.Choice) where
  abbrev mask : ℕ
  mask = s.queue.mask

  spends : Spends mask n bound s.queue (s.threads i).pc eff
  spends = Ensures-some _ _ eq (
      act-Spends env mask n bound i s.queue (s.threads i) refl inv.num_workers (s.threads i).pc a
        tame)

  pub after-potential :
      suc (potential mask n bound (after env bound s i c eff)) ≤ potential mask n bound s
  unfolding potential
  after-potential = omega (
    arith,
    spends.less,
    ap (weight (λ (r : Task). busy mask n)) spends.unsent,
    wakes-energy mask n bound env c eff.signal (update s.threads i eff.thread),
    after-weight env inv few i lt a scanning_within eq c (λ (r : Task). busy mask n),
    total-update (energy_weight mask n bound) bound s.threads i eff.thread lt,
  )

  pub after-unsent : (after env bound s i c eff).sent ≡ s.sent
  after-unsent = log_sent-unsent eff.signal s.sent spends.unsent

  pub after_shutdown : (after env bound s i c eff).queue.shutdown ≡ s.queue.shutdown
  after_shutdown = spends.same_shutdown
