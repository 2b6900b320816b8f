-- ===== src/EventLoop/Runs.antt =====
-- A loop whose callbacks are numbers that do nothing, with one descriptor that has work.
use talon_rpc.Prelude.{ℕ, ◌≡◌, refl, List, [], ◌∷◌, ◌++◌, some, none, true, false, arith}
use talon_rpc.Prelude.Outcome.{Outcome, ok}
use talon_rpc.FdEvent.{FdEvent, new_event, handler}
use talon_rpc.EventLoop.{
  Eventloop, callback, add_later, EpollEvent, on_triggers, on_trigger, on_in, on_out, on_err,
  run_tasks, run_task, add_task, delete_epoll_event, loop_round, add_to_epoll, delete_to_epoll,
}
use talon_rpc.EventLoop.Interest.{IsInStep, replay, loop_round-IsInStep}
use talon_rpc.EventLoop.Tasks.{on_triggers-pending, tasks_of}

abbrev socket : FdEvent ℕ
socket = record (new_event 7) {
  read_callback = some 1;
  write_callback = some 2;
  error_callback = some 3;
}

abbrev idle : Eventloop ℕ
idle = record {
  thread_id = 1;
  listen_fds = [];
  pending_tasks = callback (some 9) ∷ add_later 7 ∷ [];
  is_looping = true;
  stop_flag = false;
  wakeups = 0;
  ctls = [];
}

abbrev report : List (EpollEvent ℕ)
report =
    record { fd_event = some socket; epoll_in = true; epoll_out = false; epoll_err = true }
    ∷ record { fd_event = none; epoll_in = true; epoll_out = true; epoll_err = true }
    ∷ []

on_triggers-pending_example :
    (on_triggers report idle).pending_tasks ≡ idle.pending_tasks ++ tasks_of report
on_triggers-pending_example = on_triggers-pending report idle

abbrev events : ℕ → Unit {0} → FdEvent ℕ
events fd w = socket

abbrev run : ℕ → Eventloop ℕ × Unit {0} → Outcome (Eventloop ℕ × Unit {0})
run c s = ok s

abbrev after : Eventloop ℕ
unfolding on_triggers add_to_epoll
after = on_triggers report (add_to_epoll socket (record idle { pending_tasks = [] }))

run-IsInStep :
    (c : ℕ) (t t' : Eventloop ℕ × Unit {0}) → IsInStep t.0 → run c t ≡ ok t' → IsInStep t'.0
run-IsInStep c t t' h e = let e' : t ≡ t' = ground arith in rw (← e') h

loop_round-IsInStep_example : IsInStep after
unfolding IsInStep replay loop_round run_tasks run_task on_triggers on_trigger on_in on_err on_out
    add_task handler add_to_epoll delete_to_epoll delete_epoll_event
loop_round-IsInStep_example =
    loop_round-IsInStep events run report idle after tt tt run-IsInStep refl refl
