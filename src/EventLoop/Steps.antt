-- ===== src/EventLoop/Steps.antt =====
-- Eventloop::loop in net/eventloop.cc, with the calls of addTask that its callbacks make.
-- The loop's thread goes from place to place; what it does between two of them is one step, and so is
-- an addTask of the callback that runs. Other threads call stop only. Their calls of addTask are left
-- out: the guard of m_mutex unlocks twice, so that a push can meet the swap or another push, and no
-- order is kept then (Mutex.Guard). A second unlock that no other thread can meet is taken to do
-- nothing.
pub mod Busy
pub mod Order
pub mod Progress
mod StopFlag
mod Runs
use talon_rpc.Prelude.{ℕ, List, [], ◌∷◌, ◌++◌, Option, none, some, if◌then◌else◌, Bool, true, false}
use talon_rpc.FdEvent.{FdEvent}
use talon_rpc.EventLoop.{
  Eventloop, Task, callback, add_later, delete_later, EpollEvent, add_task, stop, add_to_epoll,
  delete_to_epoll, on_triggers,
}
use talon_rpc.EventLoop.Tasks.{tasks_of}

-- Where the loop's thread stands.
pub data LoopPlace : Type 0 where
  testing : LoopPlace  -- before the test of m_stop_flag
  running : LoopPlace  -- in the `while` over tmp_tasks
  waiting : LoopPlace  -- in epoll_wait
  ended : LoopPlace

-- The loop, the queue that it has taken, and a record of the queue's past: the callbacks that have
-- been called, and all that have ever been pushed.
pub record Running (C : Type 0) : Type 0 where
  pub loop : Eventloop C
  pub place : LoopPlace
  pub tmp_tasks : List (Task C)
  pub executed : List (Task C)
  pub pushed : List (Task C)

-- What happens next: the callback that the loop's thread has just been in has called addTask, some
-- thread calls stop, or the loop's thread goes on, where epoll_wait, if it is in it, returns the
-- events.
pub data Action (C : Type 0) : Type 0 where
  add : Task C → Bool → Action C
  call_stop : Action C
  go_on : List (EpollEvent C) → Action C

module _ {C : Type 0} where
  abbrev pub enter_loop : Eventloop C → Running C
  enter_loop l = record {
    loop = record l { is_looping = true };
    place = testing;
    tmp_tasks = [];
    executed = [];
    pushed = l.pending_tasks;
  }

  -- m_pending_tasks.swap(tmp_tasks)
  abbrev pub swap_tasks : Running C → Running C
  swap_tasks r = record r {
    loop = record r.loop { pending_tasks = [] };
    place = running;
    tmp_tasks = r.loop.pending_tasks;
  }

  -- The lambdas of addEpollEvent and deleteEpollEvent change the loop; a callback makes its calls
  -- in steps of its own.
  abbrev pub run_front : (ℕ → FdEvent C) → Task C → Eventloop C → Eventloop C
  run_front events (callback cb) l = l
  run_front events (add_later fd) l = add_to_epoll (events fd) l
  run_front events (delete_later fd) l = delete_to_epoll (events fd) l

  -- The loop's thread goes on from its place.
  pub go_on_at :
      (ℕ → FdEvent C) → LoopPlace → List (Task C) → List (EpollEvent C) → Running C → Running C
  unfolding on_triggers
  go_on_at events testing tmp_tasks ts r =
      if r.loop.stop_flag then record r { place = ended } else swap_tasks r
  go_on_at events running [] ts r = record r { place = waiting }
  go_on_at events running (cb ∷ tasks) ts r = record r {
    loop = run_front events cb r.loop;
    tmp_tasks = tasks;
    executed = r.executed ++ (cb ∷ []);
  }
  go_on_at events waiting tmp_tasks ts r = record r {
    loop = on_triggers ts r.loop;
    place = testing;
    pushed = r.pushed ++ tasks_of ts;
  }
  go_on_at events ended tmp_tasks ts r = r

  -- A callback runs only in the `while` over tmp_tasks.
  pub add_at : LoopPlace → Task C → Bool → Running C → Running C
  unfolding add_task
  add_at running cb is_wake_up r = record r {
    loop = add_task cb is_wake_up r.loop;
    pushed = r.pushed ++ (cb ∷ []);
  }
  add_at _ cb is_wake_up r = r

  unfoldable pub act : (ℕ → FdEvent C) → Action C → Running C → Running C
  unfolding go_on_at add_at stop
  act events (add cb is_wake_up) r = add_at r.place cb is_wake_up r
  act events call_stop r = record r { loop = stop r.loop }
  act events (go_on ts) r = go_on_at events r.place r.tmp_tasks ts r

  unfoldable pub acts : (ℕ → FdEvent C) → List (Action C) → Running C → Running C
  unfolding act
  acts events [] r = r
  acts events (a ∷ actions) r = acts events actions (act events a r)
