-- ===== src/Queue/Channel.antt =====
-- src/queue.rs: what the queue promises, as a bag of runnables. A producer puts one in, a worker that
-- is given one takes it out, and the order is forgotten.
pub mod Weights
pub mod Steps
pub mod Joined
use affinitypool.Base.{ℕ, suc, ◌+◌, ◌≡◌, List, [], ◌∷◌, ◌++◌, arith}
use affinitypool.Base.Family.{weight, SameTasks, gather}
use affinitypool.Queue.{Queue}
use affinitypool.Queue.Threads.{Thread, Signal, quiet, sends, delivers, drops, wakes_one, wakes_all}
use affinitypool.Queue.Turns.Balance.{in_hand}
use affinitypool.Queue.System.{System}
use mathlib.Core.Quot
use mathlib.Core.Quot.{Quot, Quot-set}

abbrev pub Bag : Type 0 → Type 0
Bag Task = Quot (SameTasks {A = Task})

module _ {Task : Type 0} where
  abbrev pub bag : List Task → Bag Task
  bag rs = Quot.mk rs

  pub SameTasks-cons :
      (r : Task) (xs ys : List Task) → SameTasks xs ys → SameTasks (r ∷ xs) (r ∷ ys)
  SameTasks-cons r xs ys h w = omega (arith, h w)

  unfoldable pub put : Task → Bag Task → Bag Task
  put r = Quot.lift Quot-set (λ rs. bag (r ∷ rs)) (λ xs ys h. Quot.sound (SameTasks-cons r xs ys h))

  abbrev pub put_all : List Task → Bag Task → Bag Task
  put_all [] b = b
  put_all (r ∷ rs) b = put r (put_all rs b)

  -- How a signal of a turn may change the bag.
  abbrev pub Changes : Signal Task → Bag Task → Bag Task → Type 0
  Changes (sends r) before later = later ≡ put r before
  Changes (delivers r) before later = before ≡ put r later
  Changes (drops rs) before later = before ≡ put_all rs later
  Changes quiet before later = later ≡ before
  Changes wakes_one before later = later ≡ before
  Changes wakes_all before later = later ≡ before

  -- All runnables that are in an injector, in a deque, or in the hand of a worker that has found one
  -- and has not returned from `pop_blocking` yet.
  abbrev pub pending : ℕ → System Task → List Task
  pending bound s =
      gather (λ (rs : List Task). rs) s.queue.num_injectors s.queue.injectors
      ++ (gather (λ (rs : List Task). rs) s.queue.num_workers s.queue.deques
          ++ gather (λ (t : Thread Task). in_hand t.pc) bound s.threads)

  -- The bag that a state of the queue and its threads stands for.
  unfoldable pub view : ℕ → System Task → Bag Task
  view bound s = bag (pending bound s)
