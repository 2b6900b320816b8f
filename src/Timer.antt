-- ===== src/Timer.antt =====
-- net/timer_event.h, net/timer_event.cc, net/timer.h and net/timer.cc: timed tasks and the timer that
-- runs them.
-- Times are milliseconds. What get_now_ms gives is an argument, one value for all calls after the first
-- in onTimer. A pointer to a TimerEvent is a number, and `events` is what it points to. The multimap is
-- a list in the order of its keys. The last interval given to timerfd_settime is kept.
pub mod Again
pub mod Deleted
pub mod Firing
pub mod Order
mod Runs
use talon_rpc.Prelude.{
  ℕ, ◌+◌, ◌-◌, List, [], ◌∷◌, ◌++◌, ltb, leb, ◌==◌, if◌then◌else◌, Option, none, some, Bool, true,
  false,
}

pub record TimerEvent (C : Type 0) : Type 0 where
  pub arrive_time : ℕ
  pub interval : ℕ
  pub is_repeated : Bool
  pub is_cancled : Bool
  pub task : Option C

-- m_pending_events: keys and pointers.
abbrev pub Pending : Type 0
Pending = List (ℕ × ℕ)

pub record Timer (C : Type 0) : Type 0 where
  pub pending_events : Pending
  pub events : ℕ → TimerEvent C
  pub fd_interval : Option ℕ

-- emplace of a multimap: behind the entries with the same key.
unfoldable pub emplace : ℕ → ℕ → Pending → Pending
emplace key event [] = (key, event) ∷ []
emplace key event ((k, e) ∷ pending) =
    let rest = emplace key event pending in
    if ltb key k then (key, event) ∷ (k, e) ∷ pending else (k, e) ∷ rest

-- The entry of the event among those with the key, if there is one, is erased.
unfoldable pub erase_event : ℕ → ℕ → Pending → Pending
erase_event key event [] = []
erase_event key event ((k, e) ∷ pending) =
    let rest = erase_event key event pending in
    if k == key then (if e == event then pending else (k, e) ∷ rest) else (k, e) ∷ rest

module _ {C : Type 0} where
  -- TimerEvent(interval, is_repeated, cb), at the time `now`.
  abbrev pub new_timer_event : ℕ → ℕ → Bool → Option C → TimerEvent C
  new_timer_event now interval is_repeated cb = record {
    arrive_time = now + interval;
    interval = interval;
    is_repeated = is_repeated;
    is_cancled = false;
    task = cb;
  }

  -- resetArriveTime() of an event.
  abbrev pub reset_event : ℕ → TimerEvent C → TimerEvent C
  reset_event now e = record e { arrive_time = now + e.interval }

  -- An event changed through its pointer.
  abbrev pub put_event : ℕ → TimerEvent C → Timer C → Timer C
  put_event event e t = record t { events = λ j. if j == event then e else t.events j }

  -- The interval up to the first event; without one, timerfd_settime is not called.
  unfoldable pub next_interval : ℕ → (ℕ → TimerEvent C) → Option ℕ → Pending → Option ℕ
  next_interval now events old [] = old
  next_interval now events old ((key, event) ∷ pending) =
      let arrive = (events event).arrive_time in some (if ltb now arrive then arrive - now else 100)

  -- resetArriveTime() of the timer.
  unfoldable pub reset_timer : ℕ → Timer C → Timer C
  unfolding next_interval
  reset_timer now t = record t {
    fd_interval = next_interval now t.events t.fd_interval t.pending_events;
  }

  -- Whether the new event is the first.
  unfoldable pub comes_first : TimerEvent C → Timer C → Bool
  comes_first e t = elim (t.pending_events) [
    | [] ↦ true
    | (key, event) ∷ pending ↦ ltb e.arrive_time (t.events event).arrive_time
  ]

  unfoldable pub add_timer_event : ℕ → ℕ → Timer C → Timer C
  unfolding emplace comes_first reset_timer
  add_timer_event now event t =
      let e = t.events event in
      let added = record t { pending_events = emplace e.arrive_time event t.pending_events } in
      if comes_first e t then reset_timer now added else added

  unfoldable pub delete_timer_event : ℕ → Timer C → Timer C
  unfolding erase_event
  delete_timer_event event t =
      let e = t.events event in
      record (put_event event (record e { is_cancled = true }) t) {
        pending_events = erase_event e.arrive_time event t.pending_events;
      }

  -- The loop over the events that have arrived: those that are not cancelled, and what is left.
  unfoldable pub take_due : ℕ → (ℕ → TimerEvent C) → Pending → List ℕ × Pending
  take_due now events [] = ([], [])
  take_due now events ((key, event) ∷ pending) =
      let (tmps, left) = take_due now events pending in
      if leb key now
      then (if (events event).is_cancled then (tmps, left) else (event ∷ tmps, left))
      else ([], (key, event) ∷ pending)

  -- The repeated ones are added again.
  unfoldable pub again : Bool → ℕ → ℕ → Timer C → Timer C
  unfolding add_timer_event
  again true now tmp t = add_timer_event now tmp (put_event tmp (reset_event now (t.events tmp)) t)
  again false now tmp t = t

  unfoldable pub add_again : ℕ → List ℕ → Timer C → Timer C
  unfolding again
  add_again now [] t = t
  add_again now (tmp ∷ tmps) t = add_again now tmps (again (t.events tmp).is_repeated now tmp t)

  -- The callbacks that were taken, less the null ones.
  unfoldable pub tasks_of : (ℕ → TimerEvent C) → List ℕ → List C
  tasks_of events [] = []
  tasks_of events (tmp ∷ tmps) = elim ((events tmp).task) [
    | none ↦ tasks_of events tmps
    | some c ↦ c ∷ tasks_of events tmps
  ]

  -- onTimer() up to the loop that runs the callbacks: the copies of the callbacks that it has taken,
  -- in their order, and the timer. The copies run afterwards, without the mutex; Firing has the single
  -- steps, with what other threads and the callbacks do between them.
  unfoldable pub on_timer : ℕ → ℕ → Timer C → List C × Timer C
  unfolding take_due add_again tasks_of reset_timer
  on_timer now after t =
      let (tmps, left) = take_due now t.events t.pending_events in
      (
        tasks_of t.events tmps,
        reset_timer after (add_again after tmps (record t { pending_events = left })),
      )
