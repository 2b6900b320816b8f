-- ===== src/Timer/Firing.antt =====
-- Timer::onTimer of net/timer.cc in steps, between the calls of other threads and of the callbacks.
-- What is done under one hold of the mutex is one step. A callback that onTimer has copied is named by
-- its event.
use talon_rpc.Prelude.{ℕ, List, [], ◌∷◌, ◌++◌}
use talon_rpc.Timer.{Timer, add_timer_event, delete_timer_event, take_due, again, reset_timer}

-- Where the loop's thread is in onTimer: not in it; adding the repeated events again, with the copies
-- that it will run; or running the copies.
pub data FiringPlace : Type 0 where
  idle : FiringPlace
  adding : List ℕ → List ℕ → FiringPlace
  running : List ℕ → FiringPlace

-- `ran` are the copies that have run.
pub record Firing (C : Type 0) : Type 0 where
  pub timer : Timer C
  pub place : FiringPlace
  pub ran : List ℕ

-- A call by any thread or callback, or a step of onTimer, each with the time that it reads.
pub data TimerCall : Type 0 where
  add_event : ℕ → ℕ → TimerCall
  delete_event : ℕ → TimerCall
  go_on : ℕ → TimerCall

module _ {C : Type 0} where
  unfoldable pub go_on_at : ℕ → FiringPlace → Firing C → Firing C
  unfolding take_due again reset_timer
  go_on_at now idle f =
      let (tmps, left) = take_due now f.timer.events f.timer.pending_events in
      record f { timer = record f.timer { pending_events = left }; place = adding tmps tmps }
  go_on_at now (adding [] tasks) f = record f {
    timer = reset_timer now f.timer;
    place = running tasks;
  }
  go_on_at now (adding (tmp ∷ tmps) tasks) f = record f {
    timer = again (f.timer.events tmp).is_repeated now tmp f.timer;
    place = adding tmps tasks;
  }
  go_on_at now (running []) f = record f { place = idle }
  go_on_at now (running (event ∷ tasks)) f = record f {
    ran = f.ran ++ (event ∷ []);
    place = running tasks;
  }

  unfoldable pub after_timer_call : TimerCall → Firing C → Firing C
  unfolding add_timer_event delete_timer_event go_on_at
  after_timer_call (add_event now event) f = record f { timer = add_timer_event now event f.timer }
  after_timer_call (delete_event event) f = record f { timer = delete_timer_event event f.timer }
  after_timer_call (go_on now) f = go_on_at now f.place f

  unfoldable pub after_timer_calls : List TimerCall → Firing C → Firing C
  unfolding after_timer_call
  after_timer_calls [] f = f
  after_timer_calls (call ∷ calls) f = after_timer_calls calls (after_timer_call call f)
