-- ===== src/EventLoop.antt =====
-- net/eventloop.h and net/eventloop.cc: the loop of an IO thread.
-- A callback is a value of a type `C`; what it does is a parameter of the loop. A pointer to an
-- Fd_Event is its descriptor. The calls of epoll_ctl are kept in their order in `ctls`, and the
-- writes to the wakeup descriptor are counted. A call runs on the thread `thread`.
pub mod Interest
pub mod Tasks
pub mod Start
pub mod Steps
mod Runs
use talon_rpc.Prelude.{
  ℕ, suc, List, [], ◌∷◌, ◌++◌, ◌==◌, if◌then◌else◌, Option, none, some, Bool, true, false, ◌||◌,
}
use talon_rpc.Prelude.Outcome.{Outcome, ok, ◌>>=◌}
use talon_rpc.FdEvent.{FdEvent, handler, in_event, out_event, error_event}

pub data EpollOp : Type 0 where
  ctl_add ctl_mod ctl_del : EpollOp

-- One call of epoll_ctl.
pub record EpollCtl : Type 0 where
  pub op : EpollOp
  pub fd : ℕ
  pub epoll_in : Bool
  pub epoll_out : Bool

-- A pending task: a callback, which may be null, or what another thread has asked for.
pub data Task (C : Type 0) : Type 0 where
  callback : Option C → Task C
  add_later delete_later : ℕ → Task C

pub record Eventloop (C : Type 0) : Type 0 where
  pub thread_id : ℕ
  pub listen_fds : List ℕ
  pub pending_tasks : List (Task C)
  pub is_looping : Bool
  pub stop_flag : Bool
  pub wakeups : ℕ
  pub ctls : List EpollCtl

-- An event that epoll_wait reports: a pointer, which may be null, and three bits of the mask.
pub record EpollEvent (C : Type 0) : Type 0 where
  pub fd_event : Option (FdEvent C)
  pub epoll_in : Bool
  pub epoll_out : Bool
  pub epoll_err : Bool

-- find, insert and erase of a std::set<int>.
abbrev pub contains : ℕ → List ℕ → Bool
contains fd [] = false
contains fd (x ∷ xs) = (x == fd) || contains fd xs

abbrev pub insert_fd : ℕ → List ℕ → List ℕ
insert_fd fd fds = if contains fd fds then fds else fd ∷ fds

abbrev pub erase_fd : ℕ → List ℕ → List ℕ
erase_fd fd [] = []
erase_fd fd (x ∷ xs) = let rest = erase_fd fd xs in if x == fd then rest else x ∷ rest

module _ {C : Type 0} where
  abbrev pub wakeup : Eventloop C → Eventloop C
  wakeup l = record l { wakeups = suc l.wakeups }

  unfoldable pub stop : Eventloop C → Eventloop C
  stop l = wakeup (record l { stop_flag = true; is_looping = false })

  unfoldable pub add_task : Task C → Bool → Eventloop C → Eventloop C
  add_task cb is_wake_up l =
      let pushed = record l { pending_tasks = l.pending_tasks ++ (cb ∷ []) } in
      if is_wake_up then wakeup pushed else pushed

  abbrev pub epoll_ctl : EpollOp → FdEvent C → Eventloop C → Eventloop C
  epoll_ctl op event l = record l {
    ctls =
        l.ctls
        ++ (record {
          op = op;
          fd = event.fd;
          epoll_in = event.epoll_in;
          epoll_out = event.epoll_out;
        }
            ∷ []);
  }

  -- ADD_TO_EPOLL
  unfoldable pub add_to_epoll : FdEvent C → Eventloop C → Eventloop C
  add_to_epoll event l =
      let op = if contains event.fd l.listen_fds then ctl_mod else ctl_add in
      record (epoll_ctl op event l) { listen_fds = insert_fd event.fd l.listen_fds }

  -- DELETE_TO_EPOLL
  unfoldable pub delete_to_epoll : FdEvent C → Eventloop C → Eventloop C
  delete_to_epoll event l =
      if contains event.fd l.listen_fds
      then record (epoll_ctl ctl_del event l) { listen_fds = erase_fd event.fd l.listen_fds }
      else l

  unfoldable pub add_epoll_event : ℕ → FdEvent C → Eventloop C → Eventloop C
  unfolding add_to_epoll add_task
  add_epoll_event thread event l =
      if thread == l.thread_id then add_to_epoll event l else add_task (add_later event.fd) true l

  unfoldable pub delete_epoll_event : ℕ → FdEvent C → Eventloop C → Eventloop C
  unfolding delete_to_epoll add_task
  delete_epoll_event thread event l =
      if thread == l.thread_id
      then delete_to_epoll event l
      else add_task (delete_later event.fd) true l

  -- The three tests of the mask, each with what it does.
  on_in : FdEvent C → Bool → Eventloop C → Eventloop C
  unfolding add_task handler
  on_in event bit l = if bit then add_task (callback (handler event in_event)) false l else l

  on_out : FdEvent C → Bool → Eventloop C → Eventloop C
  unfolding add_task handler
  on_out event bit l = if bit then add_task (callback (handler event out_event)) false l else l

  on_err : FdEvent C → Bool → Eventloop C → Eventloop C
  unfolding add_task handler delete_epoll_event
  on_err event bit l =
      if bit
      then (let deleted = delete_epoll_event l.thread_id event l in
          elim (handler event error_event) [
            | none ↦ deleted
            | some c ↦ add_task (callback (handler event out_event)) false deleted
          ])
      else l

  -- The body of the `for` over what epoll_wait has reported.
  unfoldable pub on_trigger : EpollEvent C → Eventloop C → Eventloop C
  unfolding on_in on_out on_err
  on_trigger t l = elim (t.fd_event) [
    | none ↦ l
    | some event ↦ on_err event t.epoll_err (on_out event t.epoll_out (on_in event t.epoll_in l))
  ]

  unfoldable pub on_triggers : List (EpollEvent C) → Eventloop C → Eventloop C
  unfolding on_trigger
  on_triggers [] l = l
  on_triggers (t ∷ ts) l = on_triggers ts (on_trigger t l)

-- `W` is all that the callbacks can reach besides the loop, `events` finds an Fd_Event there and
-- `run` is what a callback does.
module _ {C W : Type 0} (events : ℕ → W → FdEvent C)
    (run : C → Eventloop C × W → Outcome (Eventloop C × W)) where
  unfoldable pub run_task : Task C → Eventloop C × W → Outcome (Eventloop C × W)
  unfolding add_to_epoll delete_to_epoll
  run_task (callback none) s = ok s
  run_task (callback (some cb)) s = run cb s
  run_task (add_later fd) (l, w) = ok (add_to_epoll (events fd w) l, w)
  run_task (delete_later fd) (l, w) = ok (delete_to_epoll (events fd w) l, w)

  unfoldable pub run_tasks : List (Task C) → Eventloop C × W → Outcome (Eventloop C × W)
  unfolding run_task
  run_tasks [] s = ok s
  run_tasks (cb ∷ tasks) s = do s' ← run_task cb s; run_tasks tasks s'

  -- One round of loop(): the tasks that were pending, and then what epoll_wait reports.
  unfoldable pub loop_round : List (EpollEvent C) → Eventloop C × W → Outcome (Eventloop C × W)
  unfolding run_tasks on_triggers
  loop_round result_events (l, w) = do
    (l', w') ← run_tasks l.pending_tasks (record l { pending_tasks = [] }, w)
    ok (on_triggers result_events l', w')
