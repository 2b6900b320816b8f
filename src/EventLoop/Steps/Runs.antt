-- ===== src/EventLoop/Steps/Runs.antt =====
-- A loop with two tasks pending, of which the first pushes a third, while a descriptor has input.
use talon_rpc.Prelude.{ℕ, ◌≡◌, refl, List, [], ◌∷◌, ◌++◌, some, true, false, arith}
use talon_rpc.FdEvent.{FdEvent, new_event}
use talon_rpc.EventLoop.{Eventloop, Task, callback, add_later, EpollEvent, add_to_epoll}
use talon_rpc.EventLoop.Steps.{Action, add, go_on, enter_loop, acts}
use talon_rpc.EventLoop.Steps.Order.{acts_in_order}
use talon_rpc.EventLoop.Steps.Progress.{acts_run_pending}

abbrev socket : FdEvent ℕ
socket = record (new_event 7) { read_callback = some 1 }

abbrev quiet : Eventloop ℕ
quiet = record {
  thread_id = 1;
  listen_fds = [];
  pending_tasks = callback (some 9) ∷ add_later 7 ∷ [];
  is_looping = false;
  stop_flag = false;
  wakeups = 0;
  ctls = [];
}

abbrev input : List (EpollEvent ℕ)
input =
    record { fd_event = some socket; epoll_in = true; epoll_out = false; epoll_err = false } ∷ []

-- The task that runs first pushes another.
abbrev first_steps : List (Action ℕ)
first_steps = go_on [] ∷ go_on [] ∷ add (callback (some 5)) true ∷ []

abbrev next_steps : List (Action ℕ)
next_steps =
    go_on [] ∷ go_on [] ∷ go_on input ∷ go_on [] ∷ go_on [] ∷ add (callback (some 6)) false ∷ []

abbrev events : ℕ → FdEvent ℕ
events fd = socket

acts_in_order_example :
    (acts events first_steps (enter_loop quiet)).executed
      ++ ((acts events first_steps (enter_loop quiet)).tmp_tasks
          ++ (acts events first_steps (enter_loop quiet)).loop.pending_tasks)
    ≡ (acts events first_steps (enter_loop quiet)).pushed
acts_in_order_example = acts_in_order events first_steps quiet

acts_run_pending_example :
    (rest : List (Task ℕ)) × ((acts events next_steps
        (acts events first_steps (enter_loop quiet))).executed
      ≡ (acts events first_steps (enter_loop quiet)).pushed ++ rest)
unfolding acts
acts_run_pending_example =
    acts_run_pending events first_steps next_steps quiet refl (tt, (tt, (tt, tt)))
      (tt, (tt, (tt, (tt, (tt, (tt, tt)))))) (omega arith)

-- The three tasks in the order of their pushes; what the descriptor brought is still pending.
calls :
    (acts events next_steps (acts events first_steps (enter_loop quiet))).executed
    ≡ callback (some 9) ∷ add_later 7 ∷ callback (some 5) ∷ []
unfolding acts add_to_epoll
calls = refl
