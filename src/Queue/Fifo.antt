-- ===== src/Queue/Fifo.antt =====
-- src/queue.rs: what a worker pushes while it runs a runnable, and takes back in its next scans.
use affinitypool.Base.{
  ℕ, zero, suc, ◌≡◌, refl, sym, ◌∙◌, ap, List, [], ◌∷◌, ◌++◌, Option, none, some, length,
}
use affinitypool.Base.Family.{update, update_self}
use affinitypool.Queue.{Queue, Probe}
use affinitypool.Queue.Scan.{Crossbeam, scan_step, pop_own}
use affinitypool.Queue.Scan.Whole.{Scanned, scan, scan_from, proceed}
use affinitypool.Queue.Threads.{Thread}
use affinitypool.Queue.Turns.{self_push}
use mathlib.Core.List.{append_assoc, append-nil}

module _ {Task : Type 0} where
  -- The pushes of a worker into its own deque, one after the other.
  unfoldable pub push_each : List Task → ℕ → Queue Task → Thread Task → Queue Task
  push_each [] idx q t = q
  push_each (r ∷ rs) idx q t = push_each rs idx (self_push r idx q t).queue t

  abbrev pub then_take : Option (Scanned Task) → (Queue Task → ℕ → List Task) → List Task
  then_take none rest = []
  then_take (some r) rest = elim r.task [ none ↦ [] | some t ↦ t ∷ rest r.queue r.rng ]

  push_each-deque :
      (rs : List Task) (idx : ℕ) (q : Queue Task) (t : Thread Task)
      → (push_each rs idx q t).deques idx ≡ q.deques idx ++ rs
  unfolding push_each
  push_each-deque [] idx q t = sym (append-nil (q.deques idx))
  push_each-deque (r ∷ rs) idx q t =
      push_each-deque rs idx (self_push r idx q t).queue t
      ∙ ap (λ ds. ds ++ rs) (update_self q.deques idx (q.deques idx ++ (r ∷ [])))
      ∙ append_assoc (q.deques idx) (r ∷ []) rs

module _ {Task : Type 0} (cb : Crossbeam Task) (choices : ℕ → cb.Choice) (probe : Probe)
    (idx : ℕ) where
  -- The runnables that the next `count` scans return.
  unfoldable pub take_each : (fuel count : ℕ) → Queue Task → ℕ → List Task
  unfolding scan
  take_each fuel zero q rng = []
  take_each fuel (suc count) q rng =
      then_take (scan cb choices probe idx fuel q rng) (take_each fuel count)

  scan-own :
      (fuel : ℕ) (q : Queue Task) (rng : ℕ) (r : Task) (rest : List Task)
      → q.deques idx ≡ r ∷ rest
      → (q' : Queue Task) × (scan cb choices probe idx (suc fuel) q rng
          ≡ some (record { queue = q'; rng = rng; task = some r }))
        × (q'.deques idx ≡ rest)
  unfolding scan scan_from scan_step
  scan-own fuel q rng r rest e = (
    record q { deques = update q.deques idx rest },
    ap
        (λ ds.
          proceed (pop_own q idx rng ds).queue (pop_own q idx rng ds).rng
            (pop_own q idx rng ds).outcome (scan_from cb choices probe idx fuel))
        e,
    update_self q.deques idx rest,
  )

  take_each-deque :
      (fuel : ℕ) (q : Queue Task) (rng : ℕ) (ts : List Task)
      → q.deques idx ≡ ts
      → take_each (suc fuel) (length ts) q rng ≡ ts
  unfolding take_each
  take_each-deque fuel q rng [] e = refl
  take_each-deque fuel q rng (r ∷ rest) e =
      let (q', found_first, left) = scan-own fuel q rng r rest e in
      ap (λ o. then_take o (take_each (suc fuel) (length rest))) found_first
      ∙ ap (λ rs. r ∷ rs) (take_each-deque fuel q' rng rest left)

  -- For any `crossbeam_deque` that answers as documented: a worker with an empty deque that
  -- pushes runnables, and then scans as often with no other thread in between, is given them in
  -- the order in which it pushed them.
  pub take_each-push_each :
      (fuel : ℕ) (rs : List Task) (q : Queue Task) (t : Thread Task) (rng : ℕ)
      → q.deques idx ≡ []
      → take_each (suc fuel) (length rs) (push_each rs idx q t) rng ≡ rs
  take_each-push_each fuel rs q t rng e =
      take_each-deque fuel (push_each rs idx q t) rng rs
        (push_each-deque rs idx q t ∙ ap (λ ds. ds ++ rs) e)
