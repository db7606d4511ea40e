-- ===== src/Tests/Handshake.antt =====
-- A push of a worker into its own deque while another worker sleeps.
use affinitypool.Base.{ℕ, ◌≡◌, refl, some, none}
use affinitypool.Queue.{Queue, fresh}
use affinitypool.Queue.Threads.{Thread, running, Effect}
use affinitypool.Queue.Alone.Pushes.{push_alone, handshake, Handshaken, push_alone-handshake}
use affinitypool.Tests.World.{env}

abbrev one_sleeps : Queue ℕ
one_sleeps = record (fresh 2 2) { parked = 1 }

abbrev in_runnable : Thread ℕ
in_runnable = record { pc = running; rng = 1; current_worker = some 0; route = none }

push_alone-handshake_example :
    (e : Effect ℕ) × (push_alone env tt 0 7 5 one_sleeps in_runnable ≡ some (e, handshake 5 1 0))
    × Handshaken one_sleeps e
push_alone-handshake_example = push_alone-handshake env tt 0 5 0 one_sleeps in_runnable refl refl
