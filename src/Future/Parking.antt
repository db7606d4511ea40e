-- ===== src/Future/Parking.antt =====
-- src/local.rs: the thread in `block_on_cancel` and the worker that ends its task, one step at a time.
--
-- `std`'s park token: `unpark` makes it available, and `park` takes it or waits for it, or returns
-- without a reason. The cancellation is a future of `async_task`: a poll is ready once the task has
-- ended, and else leaves the waker.
use affinitypool.Base.{◌≡◌, refl, ◌∙◌, Bool, true, false, if◌then◌else◌, Option, none, some, arith}

-- Whether the end of the task calls the waker: it does if a pending poll has left one.
pub record Cancellation : Type 0 where
  pub calls : (waker_left : Bool) → Bool
  pub calls_left : calls true ≡ true

-- Where the dropping thread stands.
pub data Place : Type 0 where
  polling parking returned : Place

pub record Blocked : Type 0 where
  pub place : Place
  pub token : Bool
  pub waker_left : Bool
  pub ended : Bool

-- What happens next: the dropping thread's own turn, the end of its task, an `unpark` from elsewhere,
-- or a return of `park` without a reason.
pub data Happens : Type 0 where
  turns ends unparks spurious : Happens

-- `wake` and `wake_by_ref` of the `ParkWaker`.
abbrev pub wake : Blocked → Blocked
wake s = record s { token = true }

-- One round of the loop is a poll and, if that was pending, a `park`. A turn that has to wait is
-- `none`.
unfoldable pub loop_turn : Place → Blocked → Option Blocked
loop_turn polling s =
    if s.ended
    then some (record s { place = returned })
    else some (record s { place = parking; waker_left = true })
loop_turn parking s = if s.token then some (record s { place = polling; token = false }) else none
loop_turn returned s = none

abbrev pub unpark_parked : Place → Blocked → Option Blocked
unpark_parked parking s = some (record s { place = polling })
unpark_parked _ s = none

module _ (task : Cancellation) where
  -- The end of the task, once.
  abbrev pub end_task : Blocked → Option Blocked
  end_task s =
      if s.ended
      then none
      else some (
          if task.calls s.waker_left
          then wake (record s { ended = true })
          else record s { ended = true })

  unfoldable pub happen : Happens → Blocked → Option Blocked
  unfolding loop_turn
  happen turns s = loop_turn s.place s
  happen ends s = end_task s
  happen unparks s = some (wake s)
  happen spurious s = unpark_parked s.place s

-- The states after the call of `block_on_cancel`, on a thread with or without a token.
pub data Reach (task : Cancellation) : Blocked → Type 0 where
  start :
      (token ended : Bool)
      → Reach task (record { place = polling; token = token; waker_left = false; ended = ended })
  later : {s s' : Blocked} (h : Happens) → Reach task s → happen task h s ≡ some s' → Reach task s'

-- A parked thread has left its waker; once the task has ended, it has the token.
pub record Wakeable (s : Blocked) : Type 0 where
  pub left : s.place ≡ parking → s.waker_left ≡ true
  pub called : s.place ≡ parking → s.ended ≡ true → s.token ≡ true
  pub over : s.place ≡ returned → s.ended ≡ true

turn-Wakeable :
    (p : Place) (s s' : Blocked) → s.place ≡ p → loop_turn p s ≡ some s' → Wakeable s → Wakeable s'
unfolding loop_turn
turn-Wakeable polling s s' at e w = ground arith
turn-Wakeable parking s s' at e w = ground arith
turn-Wakeable returned s s' at e w = ground arith

ends-Wakeable :
    (task : Cancellation) (s s' : Blocked) → end_task task s ≡ some s' → Wakeable s → Wakeable s'
ends-Wakeable task s s' e w = ground (arith, task.calls_left)

happen-Wakeable :
    (task : Cancellation) (h : Happens) (s s' : Blocked)
    → happen task h s ≡ some s'
    → Wakeable s
    → Wakeable s'
unfolding happen loop_turn
happen-Wakeable task turns s s' e w = turn-Wakeable s.place s s' refl e w
happen-Wakeable task ends s s' e w = ends-Wakeable task s s' e w
happen-Wakeable task unparks s s' e w = ground arith
happen-Wakeable task spurious s s' e w = ground arith

Reach-Wakeable : (task : Cancellation) (s : Blocked) → Reach task s → Wakeable s
Reach-Wakeable task _ (start token ended) = record {
  left = λ e. cc e;
  called = λ e. cc e;
  over = λ e. cc e;
}
Reach-Wakeable task s' (later {s = s} h r e) =
    happen-Wakeable task h s s' e (Reach-Wakeable task s r)

abbrev pub or_stay : Blocked → Option Blocked → Blocked
or_stay s none = s
or_stay s (some s') = s'

-- The next turn of the dropping thread, if it has one.
unfoldable pub go_on : Blocked → Blocked
unfolding loop_turn
go_on s = or_stay s (loop_turn s.place s)

polling-go_on : (s : Blocked) → s.place ≡ polling → s.ended ≡ true → (go_on s).place ≡ returned
unfolding go_on loop_turn
polling-go_on s at e = ground arith

parking-go_on :
    (s : Blocked)
    → s.place ≡ parking
    → s.token ≡ true
    → ((go_on s).place ≡ polling) × ((go_on s).ended ≡ s.ended)
unfolding go_on loop_turn
parking-go_on s at e = ground arith

returned-go_on : (s : Blocked) → s.place ≡ returned → (go_on s).place ≡ returned
unfolding go_on loop_turn
returned-go_on s at = ground arith

-- For any cancellation whose end calls a waker that a pending poll has left, in every state that
-- the thread in `block_on_cancel` and the end of its task reach, with unparks from elsewhere and
-- returns of `park` without a reason in any order: if the thread has returned, the task has
-- ended.
pub returned-ended :
    (task : Cancellation) (s : Blocked) → Reach task s → s.place ≡ returned → s.ended ≡ true
returned-ended task s r at = (Reach-Wakeable task s r).over at

-- For any cancellation whose end calls a waker that a pending poll has left, in every state that
-- the thread in `block_on_cancel` and the end of its task reach, with unparks from elsewhere and
-- returns of `park` without a reason in any order: once the task has ended, two turns of the
-- thread bring it to its return.
pub ended-returns :
    (task : Cancellation) (s : Blocked)
    → Reach task s
    → s.ended ≡ true
    → (go_on (go_on s)).place ≡ returned
ended-returns task s r e = from s.place refl
  where
    from : (p : Place) → s.place ≡ p → (go_on (go_on s)).place ≡ returned
    from polling at = returned-go_on (go_on s) (polling-go_on s at e)
    from parking at =
        let (again, same) = parking-go_on s at ((Reach-Wakeable task s r).called at e) in
        polling-go_on (go_on s) again (same ∙ e)
    from returned at = returned-go_on (go_on s) (returned-go_on s at)
