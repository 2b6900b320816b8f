-- ===== src/Timer/Deleted.antt =====
-- What deleteTimerEvent of net/timer.cc promises: an event that is deleted is not taken any more.
use talon_rpc.Prelude.{
  ℕ, suc, ◌+◌, ◌≤◌, ◌≡◌, ◌≢◌, refl, ap, ◌∙◌, List, [], ◌∷◌, ◌++◌, Bool, true, false, inl, inr,
  Bool-cases, All, leb, ◌==◌, if◌then◌else◌, arith,
}
use talon_rpc.Timer.{
  Pending, Timer, TimerEvent, comes_first, add_timer_event, delete_timer_event, take_due, again,
  reset_timer, put_event, reset_event,
}
use talon_rpc.Timer.Firing.{
  FiringPlace, idle, adding, running, Firing, TimerCall, add_event, delete_event, go_on, go_on_at,
  after_timer_call, after_timer_calls,
}

-- How often an event is in a list.
abbrev pub count : ℕ → List ℕ → ℕ
count event [] = 0
count event (e ∷ es) = if e == event then suc (count event es) else count event es

count-append :
    (event : ℕ) (xs ys : List ℕ) → count event (xs ++ ys) ≡ count event xs + count event ys
count-append event [] ys = omega arith
count-append event (x ∷ xs) ys = ground (arith, count-append event xs ys)

count-others : (event : ℕ) (es : List ℕ) → All (λ e. e ≢ event) es → count event es ≡ 0
count-others event [] h = refl
count-others event (e ∷ es) (p, h) = ground (arith, p, count-others event es h)

-- The copies that onTimer has taken and has not run yet.
abbrev pub in_flight : FiringPlace → List ℕ
in_flight idle = []
in_flight (adding tmps tasks) = tasks
in_flight (running tasks) = tasks

module _ {C : Type 0} where
  -- No call takes the mark of an event away.
  pub add_timer_event-events :
      (now event : ℕ) (t : Timer C) → (add_timer_event now event t).events ≡ t.events
  unfolding add_timer_event reset_timer
  add_timer_event-events now event t = elim (Bool-cases (comes_first (t.events event) t)) [
    | inl b ↦ rw b refl
    | inr b ↦ rw b refl
  ]

  again-is_cancled :
      (b : Bool) (now tmp event : ℕ) (t : Timer C)
      → ((again b now tmp t).events event).is_cancled ≡ (t.events event).is_cancled
  unfolding again
  again-is_cancled false now tmp event t = refl
  again-is_cancled true now tmp event t =
      rw (add_timer_event-events now tmp (put_event tmp (reset_event now (t.events tmp)) t))
        (ground arith)

  -- The loop of onTimer passes over what is cancelled.
  take_due-others :
      (now : ℕ) (events : ℕ → TimerEvent C) (event : ℕ) (pending : Pending)
      → (events event).is_cancled ≡ true
      → All (λ e. e ≢ event) (take_due now events pending).0
  unfolding take_due
  take_due-others now events event [] h = tt
  take_due-others now events event ((key, e) ∷ pending) h = elim (Bool-cases (leb key now)) [
    | inl due ↦ elim (Bool-cases (events e).is_cancled) [
      | inl cancelled ↦ rw (due, cancelled) (take_due-others now events event pending h)
      | inr open_event ↦
          rw (due, open_event)
            (
              λ same. ground (arith, same, open_event, h),
              take_due-others now events event pending h,
            )
    ]
    | inr later ↦ rw later tt
  ]

  go_on_at-is_cancled :
      (now : ℕ) (place : FiringPlace) (event : ℕ) (f : Firing C)
      → (f.timer.events event).is_cancled ≡ true
      → ((go_on_at now place f).timer.events event).is_cancled ≡ true
  unfolding go_on_at reset_timer
  go_on_at-is_cancled now idle event f h = h
  go_on_at-is_cancled now (adding [] tasks) event f h = h
  go_on_at-is_cancled now (adding (tmp ∷ tmps) tasks) event f h =
      again-is_cancled (f.timer.events tmp).is_repeated now tmp event f.timer ∙ h
  go_on_at-is_cancled now (running []) event f h = h
  go_on_at-is_cancled now (running (e ∷ tasks)) event f h = h

  go_on_at-count :
      (now : ℕ) (place : FiringPlace) (event : ℕ) (f : Firing C)
      → (f.timer.events event).is_cancled ≡ true
      → count event (go_on_at now place f).ran
          + count event (in_flight (go_on_at now place f).place)
        ≤ count event f.ran + count event (in_flight place)
  unfolding go_on_at
  go_on_at-count now idle event f h =
      let tmps = (take_due now f.timer.events f.timer.pending_events).0 in
      let none_taken =
        count-others event tmps
          (take_due-others now f.timer.events event f.timer.pending_events h) in
      omega (arith, none_taken)
  go_on_at-count now (adding [] tasks) event f h = omega arith
  go_on_at-count now (adding (tmp ∷ tmps) tasks) event f h = omega arith
  go_on_at-count now (running []) event f h = omega arith
  go_on_at-count now (running (e ∷ tasks)) event f h =
      ground (arith, count-append event f.ran (e ∷ []))

  after_timer_call-is_cancled :
      (call : TimerCall) (event : ℕ) (f : Firing C)
      → (f.timer.events event).is_cancled ≡ true
      → ((after_timer_call call f).timer.events event).is_cancled ≡ true
  unfolding after_timer_call delete_timer_event
  after_timer_call-is_cancled (add_event now other) event f h =
      ap (λ es. (es event).is_cancled) (add_timer_event-events now other f.timer) ∙ h
  after_timer_call-is_cancled (delete_event other) event f h = ground arith
  after_timer_call-is_cancled (go_on now) event f h = go_on_at-is_cancled now f.place event f h

  after_timer_call-count :
      (call : TimerCall) (event : ℕ) (f : Firing C)
      → (f.timer.events event).is_cancled ≡ true
      → count event (after_timer_call call f).ran
          + count event (in_flight (after_timer_call call f).place)
        ≤ count event f.ran + count event (in_flight f.place)
  unfolding after_timer_call
  after_timer_call-count (add_event now other) event f h = omega arith
  after_timer_call-count (delete_event other) event f h = omega arith
  after_timer_call-count (go_on now) event f h = go_on_at-count now f.place event f h

  cancelled-count :
      (calls : List TimerCall) (event : ℕ) (f : Firing C)
      → (f.timer.events event).is_cancled ≡ true
      → count event (after_timer_calls calls f).ran
          + count event (in_flight (after_timer_calls calls f).place)
        ≤ count event f.ran + count event (in_flight f.place)
  unfolding after_timer_calls
  cancelled-count [] event f h = omega arith
  cancelled-count (call ∷ calls) event f h = omega (
    arith,
    after_timer_call-count call event f h,
    cancelled-count calls event (after_timer_call call f)
        (after_timer_call-is_cancled call event f h),
  )

  -- After deleteTimerEvent of an event, by another thread or by a callback and at any place that
  -- onTimer has reached, the callback of the event runs at most as often as onTimer had copied it by
  -- then and not yet run it; where there was no such copy it never runs again, whatever is added,
  -- deleted or added again and however often the timer fires, also where the event is repeated, was
  -- pending several times, or is added once more. Holds of the timer's mutex do not overlap: each is one step.
  pub deleted_runs_copies_only :
      (calls : List TimerCall) (event : ℕ) (f : Firing C)
      → count event (after_timer_calls calls (after_timer_call (delete_event event) f)).ran
        ≤ count event f.ran + count event (in_flight f.place)
  unfolding after_timer_call delete_timer_event
  deleted_runs_copies_only calls event f =
      let g = after_timer_call (delete_event event) f in
      omega (arith, cancelled-count calls event g (ground arith))
