-- ===== src/Tests/Winding.antt =====
-- The drop of the pool of one worker: while a runnable waits for the worker, and while the runnable
-- panics.
use affinitypool.Base.{
  ℕ_discrete, ℕ, zero, suc, ◌+◌, ◌<◌, ◌≤◌, ◌≡◌, ◌≢◌, refl, ap, [], ◌++◌, Option, none, some, arith,
  ◌⊎◌, inl, inr,
}
use affinitypool.Base.Family.{SameTasks}
use affinitypool.Cpu.{route_shard}
use affinitypool.Queue.{fresh, new, num_shards, clamp, ceil_log2, next_power_of_two}
use affinitypool.Queue.Scan.{steal_injector, steal_peer, scan_step}
use affinitypool.Queue.Threads.{exited, starting}
use affinitypool.Queue.Turns.{Action, go, pushes, finishes, closes, panics, act, foreign_push}
use affinitypool.Queue.System.{System, step}
use affinitypool.Pool.Dropping.{
  shutting, returned, Pooled, Move, goes, begins, drains, joins, stores, new_pooled, note_panic,
  advance, has_ended, Lives, starts, moves,
}
use affinitypool.Pool.Dropping.Handles.{Among}
use affinitypool.Pool.Dropping.Phases.{note_panic-cases}
use affinitypool.Pool.Dropping.Joins.{returned-Among, returned-SameTasks}
use affinitypool.Pool.Dropping.Unbroken.{returned-delivered}
use affinitypool.Pool.Dropping.Winding.{Calm, Winds, rests, winds, remaining, Winds-Wound}
use affinitypool.Pool.Dropping.Returns.{winding-bounded, stuck-returned}
use affinitypool.Tests.World.{fifo, env, turn, turns, turn-keeps, turn-step}
use affinitypool.Tests.Runs.{calm}
use affinitypool.Tests.Threads.{at_start, one_worker, at_rest, sent, raising}
use affinitypool.Tests.Dropping.{loaded, loaded_outside, closing_down, closing_turn}

-- The caller is the thread 1.
abbrev LivesHere : Pooled ℕ → Type 0
LivesHere d = Lives env 2 1 1 none d

abbrev pooled : System ℕ → Pooled ℕ
pooled s = record (new_pooled (fresh 1 1)) { system = s }

quiet_turn :
    (s s' : System ℕ) (i : ℕ) (a : Action fifo)
    → a ≢ panics
    → note_panic env 2 1 1 (s.threads i).pc a i (pooled s) ≡ pooled s
quiet_turn s s' i a no_panic = elim (note_panic-cases env 2 1 1 (s.threads i).pc a i (pooled s)) [
  | inl (mild, same) ↦ same
  | inr (at, crash, loud) ↦ absurd (no_panic crash)
]

go-Lives : (s : System ℕ) (i : ℕ) → LivesHere (pooled s) → LivesHere (pooled (turn 2 s i (go tt)))
unfolding advance
go-Lives s i l =
    turn-keeps (λ x. LivesHere (pooled x)) 2 s i (go tt) l
      (λ s' e. moves (goes i (go tt) tt) l tt (
        rw e (
          ap (λ (x : Pooled ℕ). some (record x { system = s' }))
            (quiet_turn s s' i (go tt) (λ e. cc e)))))

push-Lives :
    (s : System ℕ) (i r : ℕ) → LivesHere (pooled s) → LivesHere (pooled (turn 2 s i (pushes r)))
unfolding advance
push-Lives s i r l =
    turn-keeps (λ x. LivesHere (pooled x)) 2 s i (pushes r) l
      (λ s' e. moves (goes i (pushes r) tt) l tt (
        rw e (
          ap (λ (x : Pooled ℕ). some (record x { system = s' }))
            (quiet_turn s s' i (pushes r) (λ e. cc e)))))

turns-Lives :
    (count i : ℕ) (s : System ℕ) → LivesHere (pooled s) → LivesHere (pooled (turns 2 count i s))
turns-Lives zero i s l = l
turns-Lives (suc count) i s l = turns-Lives count i (turn 2 s i (go tt)) (go-Lives s i l)

start-Lives : LivesHere (pooled at_start)
unfolding new num_shards clamp ceil_log2 next_power_of_two
start-Lives = starts refl

loaded-Lives : LivesHere (pooled loaded)
loaded-Lives =
    turns-Lives 2 1 raising
      (turns-Lives 4 1 sent (push-Lives at_rest 1 7 (turns-Lives 44 0 at_start start-Lives)))

-- The drop begins, with the runnable in the shard.
abbrev dropping : Pooled ℕ
dropping = record (pooled closing_down) { stage = shutting }

dropping-Lives : LivesHere dropping
unfolding advance
dropping-Lives =
    moves (begins tt) loaded-Lives loaded_outside
      (rw (turn-step 2 loaded 1 closes closing_turn) refl)

-- The state after a move; one that is not possible is passed over.
abbrev or_wait : Pooled ℕ → Option (Pooled ℕ) → Pooled ℕ
or_wait d none = d
or_wait d (some d') = d'

abbrev moved : Pooled ℕ → Move env → Pooled ℕ
moved d m = or_wait d (advance env 2 1 1 m d)

moved-keeps :
    (P : Pooled ℕ → Type 0) (d : Pooled ℕ) (m : Move env)
    → P d
    → ((d' : Pooled ℕ) → advance env 2 1 1 m d ≡ some d' → P d')
    → P (moved d m)
moved-keeps P d m here there = from (advance env 2 1 1 m d) there
  where
    from : (o : Option (Pooled ℕ)) → ((d' : Pooled ℕ) → o ≡ some d' → P d') → P (or_wait d o)
    from none h = here
    from (some d') h = h d' refl

-- A number of calm moves from `dropping` on.
abbrev FromDropping : Pooled ℕ → Type 0
FromDropping d = (k : ℕ) × Winds env 2 1 1 dropping k d

moved-Winds : (d : Pooled ℕ) (m : Move env) → Calm env m → FromDropping d → FromDropping (moved d m)
moved-Winds d m mild (k, w) =
    moved-keeps FromDropping d m (k, w) (λ d' e. (suc k, winds m w mild e))

abbrev moved_turns : ℕ → ℕ → Pooled ℕ → Pooled ℕ
moved_turns zero i d = d
moved_turns (suc count) i d = moved_turns count i (moved d (goes i (go tt) tt))

moved_turns-Winds :
    (count i : ℕ) (d : Pooled ℕ) → FromDropping d → FromDropping (moved_turns count i d)
moved_turns-Winds zero i d w = w
moved_turns-Winds (suc count) i d w =
    moved_turns-Winds count i (moved d (goes i (go tt) tt))
      (moved-Winds d (goes i (go tt) tt) calm w)

moved-Lives : (d : Pooled ℕ) → FromDropping d → LivesHere d
moved-Lives d (k, w) =
    (Winds-Wound env 2 1 1 none one_worker dropping k d (omega arith) dropping-Lives w).lives

-- The worker takes the runnable, runs it, and exits; then it is joined.
abbrev taken : Pooled ℕ
taken = moved_turns 60 0 (moved (moved_turns 60 0 (moved_turns 3 1 dropping)) (goes 0 finishes tt))

abbrev all_joined : Pooled ℕ
all_joined = moved (moved (moved taken drains) joins) joins

all_joined-Winds : FromDropping all_joined
all_joined-Winds = moved-Winds _ joins tt (
    moved-Winds _ joins tt (
      moved-Winds taken drains tt (
        moved_turns-Winds 60 0 _ (
          moved-Winds _ (goes 0 finishes tt) tt
            (moved_turns-Winds 60 0 _ (moved_turns-Winds 3 1 dropping (0, rests)))))))

all_joined_returned : all_joined.stage ≡ returned
unfolding advance has_ended step act scan_step steal_injector steal_peer foreign_push route_shard
    ℕ_discrete
all_joined_returned = refl

nothing_stored : all_joined.unstored ++ all_joined.thread_handles ≡ []
unfolding advance has_ended step act scan_step steal_injector steal_peer foreign_push route_shard
    ℕ_discrete
nothing_stored = refl

returned-SameTasks_example :
    ((w : ℕ) → w < 1 → (all_joined.system.threads w).pc ≡ exited)
    × SameTasks all_joined.system.sent (all_joined.system.delivered ++ all_joined.system.dropped)
returned-SameTasks_example =
    returned-SameTasks env 2 1 1 none one_worker all_joined (omega arith)
      (moved-Lives all_joined all_joined-Winds) all_joined_returned nothing_stored

no_panic : (w : ℕ) → all_joined.incarnation w ≡ 0
unfolding advance has_ended step act scan_step steal_injector steal_peer foreign_push route_shard
    ℕ_discrete
no_panic w = refl

returned-delivered_example :
    ((w : ℕ) → w < 1 → (all_joined.system.threads w).pc ≡ exited)
    × SameTasks all_joined.system.sent all_joined.system.delivered
returned-delivered_example =
    returned-delivered env 2 1 1 none one_worker (omega arith) all_joined
      (moved-Lives all_joined all_joined-Winds) all_joined_returned no_panic

winding-bounded_example :
    all_joined-Winds.0 + remaining dropping.system.queue.mask 1 2 all_joined
    ≤ remaining dropping.system.queue.mask 1 2 dropping
winding-bounded_example =
    winding-bounded env 2 1 1 none one_worker (omega arith) dropping all_joined-Winds.0 all_joined
      dropping-Lives all_joined-Winds.1

no_move :
    (d : Pooled ℕ)
    → d.stage ≡ returned
    → d.unstored ≡ []
    → (m : Move env) (d' : Pooled ℕ) → Calm env m
    → advance env 2 1 1 m d ≡ some d'
    → ⊥
unfolding advance
no_move d over stored (goes i a c) d' mild eq = cc (rw over at eq)
no_move d over stored (begins c) d' mild eq = absurd mild
no_move d over stored drains d' mild eq = cc (rw over at eq)
no_move d over stored joins d' mild eq = cc (rw over at eq)
no_move d over stored (stores k) d' mild eq = cc (rw stored at eq)

no_handle : all_joined.unstored ≡ []
unfolding advance has_ended step act scan_step steal_injector steal_peer foreign_push route_shard
    ℕ_discrete
no_handle = refl

stuck-returned_example : all_joined.stage ≡ returned
stuck-returned_example =
    stuck-returned env 2 1 1 none one_worker (omega arith) tt calm tt dropping all_joined-Winds.0
      all_joined dropping-Lives (λ e. cc e) all_joined-Winds.1
      (no_move all_joined all_joined_returned no_handle)

-- The handles are drained while the runnable runs, which panics: the thread that the sentry has started
-- is not joined.
abbrev panicked : Pooled ℕ
panicked = moved (moved_turns 60 0 (moved (moved_turns 3 1 dropping) drains)) (goes 0 panics tt)

abbrev left_behind : Pooled ℕ
left_behind = moved (moved (moved panicked (stores 0)) joins) joins

left_behind-Winds : FromDropping left_behind
left_behind-Winds = moved-Winds _ joins tt (
    moved-Winds _ joins tt (
      moved-Winds panicked (stores 0) tt (
        moved-Winds _ (goes 0 panics tt) tt (
          moved_turns-Winds 60 0 _
            (moved-Winds _ drains tt (moved_turns-Winds 3 1 dropping (0, rests)))))))

left_behind_returned : left_behind.stage ≡ returned
unfolding advance has_ended step act scan_step steal_injector steal_peer foreign_push route_shard
    ℕ_discrete
left_behind_returned = refl

left_behind_alive : (left_behind.system.threads 0).pc ≡ starting
unfolding advance has_ended step act scan_step steal_injector steal_peer foreign_push route_shard
    ℕ_discrete
left_behind_alive = refl

returned-Among_example :
    ((left_behind.system.threads 0).pc ≡ exited)
    ⊎ Among (0, left_behind.incarnation 0) (left_behind.unstored ++ left_behind.thread_handles)
returned-Among_example =
    returned-Among env 2 1 1 none left_behind 0 (moved-Lives left_behind left_behind-Winds)
      left_behind_returned (omega arith)
