-- ===== src/Timer/Runs.antt =====
-- A timer with three events: one due and repeated, one due and cancelled, one that is not due.
use talon_rpc.Prelude.{◌≤◌, refl, ℕ, zero, suc, ◌≡◌, [], ◌∷◌, some, none, true, false, arith}
use talon_rpc.Timer.{
  TimerEvent, Timer, on_timer, take_due, add_again, again, add_timer_event, emplace, comes_first,
  reset_timer,
}
use talon_rpc.Timer.Firing.{
  Firing, running, add_event, delete_event, go_on, after_timer_call, after_timer_calls,
}
use talon_rpc.Timer.Again.{callbacks, readded, on_timer_lem}
use talon_rpc.Timer.Deleted.{count, deleted_runs_copies_only}
use talon_rpc.Timer.Order.{IsSorted, due, later_than}

abbrev events : ℕ → TimerEvent ℕ
events zero = record {
  arrive_time = 100;
  interval = 50;
  is_repeated = true;
  is_cancled = false;
  task = some 7;
}
events (suc zero) = record {
  arrive_time = 110;
  interval = 10;
  is_repeated = false;
  is_cancled = true;
  task = some 8;
}
events (suc (suc j)) = record {
  arrive_time = 130;
  interval = 30;
  is_repeated = false;
  is_cancled = false;
  task = some 9;
}

abbrev timer : Timer ℕ
timer = record {
  pending_events = (100, 0) ∷ (110, 1) ∷ (130, 2) ∷ [];
  events = events;
  fd_interval = none;
}

on_timer_lem_example :
    ((on_timer 120 121 timer).0 ≡ callbacks events (due 120 events timer.pending_events))
    × IsSorted (on_timer 120 121 timer).1.pending_events
    × ((on_timer 120 121 timer).1.pending_events
        ≡ readded 121 events
            (due 120 events timer.pending_events)
            (later_than 120 timer.pending_events))
on_timer_lem_example =
    on_timer_lem 120 121 timer ((omega arith, (omega arith, tt)), ((omega arith, tt), (tt, tt)))

-- The repeated event is in its place again.
again_at : (on_timer 120 121 timer).1.pending_events ≡ (130, 2) ∷ (171, 0) ∷ []
unfolding on_timer take_due add_again again add_timer_event emplace comes_first reset_timer
again_at = refl

-- onTimer has copied the callback of event 0 when another thread deletes the event, and adds it again
-- later.
abbrev firing : Firing ℕ
firing = record { timer = timer; place = running (0 ∷ []); ran = [] }

deleted_runs_copies_only_example :
    count 0
      (after_timer_calls
        (go_on 121 ∷ go_on 122 ∷ add_event 130 0 ∷ go_on 200 ∷ go_on 201 ∷ [])
        (after_timer_call (delete_event 0) firing)).ran
    ≤ 1
deleted_runs_copies_only_example =
    deleted_runs_copies_only (go_on 121 ∷ go_on 122 ∷ add_event 130 0 ∷ go_on 200 ∷ go_on 201 ∷ [])
      0 firing
