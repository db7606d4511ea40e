-- ===== src/Tests/Blocking.antt =====
-- A thread in `block_on_cancel` that parks before its task ends.
use affinitypool.Base.{◌≡◌, refl, true, false}
use affinitypool.Future.Parking.{
  Cancellation, Blocked, turns, ends, happen, Reach, start, later, parking, returned, go_on,
  loop_turn, returned-ended, ended-returns,
}

abbrev calls_waker : Cancellation
calls_waker = record { calls = λ left. left; calls_left = refl }

-- An old token lets the first `park` return; the second one waits.
abbrev waits : Blocked
waits = record { place = parking; token = false; waker_left = true; ended = false }

waits-Reach : Reach calls_waker waits
unfolding happen loop_turn
waits-Reach = later turns (later turns (later turns (start true false) refl) refl) refl

abbrev task_over : Blocked
task_over = record { place = parking; token = true; waker_left = true; ended = true }

task_over-Reach : Reach calls_waker task_over
unfolding happen loop_turn
task_over-Reach = later ends waits-Reach refl

ended-returns_example : (go_on (go_on task_over)).place ≡ returned
ended-returns_example = ended-returns calls_waker task_over task_over-Reach refl

abbrev back : Blocked
back = record { place = returned; token = false; waker_left = true; ended = true }

back-Reach : Reach calls_waker back
unfolding happen loop_turn
back-Reach = later turns (later turns task_over-Reach refl) refl

returned-ended_example : back.ended ≡ true
returned-ended_example = returned-ended calls_waker back back-Reach refl
