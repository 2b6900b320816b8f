-- ===== src/EventLoop/Start.antt =====
-- The constructor of Eventloop, initWakeUpFdEevent, initTimer and GetCurrentEventLoop of
-- net/eventloop.cc, with the constructors of WakeUpFdEvent and Timer.
-- What epoll_create, eventfd and timerfd_create return are arguments, and so are the callbacks of the
-- two descriptors. `none` is exit(0). A failure of timerfd_create is not checked by the code, and is
-- left out.
use talon_rpc.Prelude.{ℕ, ◌≡◌, refl, [], Option, none, some, false, arith}
use talon_rpc.Prelude.Int.{ℤ, pos, negsuc}
use talon_rpc.FdEvent.{FdEvent, in_event, new_event, listen}
use talon_rpc.EventLoop.{Eventloop, add_epoll_event}
use talon_rpc.EventLoop.Interest.{IsInStep, replay, add_epoll_event-IsInStep}

-- An Eventloop with the descriptors that it makes.
pub record LoopObject (C : Type 0) : Type 0 where
  pub loop : Eventloop C
  pub wakeup_fd_event : FdEvent C
  pub timer : FdEvent C

module _ {C : Type 0} where
  -- The members before the constructor's body, and m_thread_id.
  abbrev pub bare_loop : ℕ → Eventloop C
  bare_loop thread_id = record {
    thread_id = thread_id;
    listen_fds = [];
    pending_tasks = [];
    is_looping = false;
    stop_flag = false;
    wakeups = 0;
    ctls = [];
  }

  -- An Fd_Event that is listened on for input.
  abbrev pub input_event : ℕ → C → FdEvent C
  unfolding listen
  input_event fd callback = listen (new_event fd) in_event (some callback) none

  unfoldable pub init_wake_up_fd_event : ℕ → ℤ → C → Eventloop C → Option (FdEvent C × Eventloop C)
  unfolding add_epoll_event
  init_wake_up_fd_event thread (negsuc n) read_all l = none
  init_wake_up_fd_event thread (pos fd) read_all l =
      some (input_event fd read_all, add_epoll_event thread (input_event fd read_all) l)

  unfoldable pub init_timer : ℕ → ℕ → C → Eventloop C → FdEvent C × Eventloop C
  unfolding add_epoll_event
  init_timer thread timer_fd on_timer l =
      (input_event timer_fd on_timer, add_epoll_event thread (input_event timer_fd on_timer) l)

  make_loop : ℕ → ℕ → C → Option (FdEvent C × Eventloop C) → Option (LoopObject C)
  unfolding init_timer
  make_loop thread timer_fd on_timer none = none
  make_loop thread timer_fd on_timer (some (wakeup_event, l)) =
      let (timer, l') = init_timer thread timer_fd on_timer l in
      some (record { loop = l'; wakeup_fd_event = wakeup_event; timer = timer })

  make_epoll : ℕ → ℤ → ℤ → ℕ → C → C → Option (LoopObject C)
  unfolding init_wake_up_fd_event make_loop
  make_epoll thread (negsuc n) wakeup_fd timer_fd read_all on_timer = none
  make_epoll thread (pos epoll_fd) wakeup_fd timer_fd read_all on_timer =
      make_loop thread timer_fd on_timer
        (init_wake_up_fd_event thread wakeup_fd read_all (bare_loop thread))

  -- Eventloop(), on a thread that has one already or not.
  unfoldable pub new_event_loop :
      Option (LoopObject C) → ℕ → ℤ → ℤ → ℕ → C → C → Option (LoopObject C)
  unfolding make_epoll
  new_event_loop (some current) thread epoll_fd wakeup_fd timer_fd read_all on_timer = none
  new_event_loop none thread epoll_fd wakeup_fd timer_fd read_all on_timer =
      make_epoll thread epoll_fd wakeup_fd timer_fd read_all on_timer

  -- GetCurrentEventLoop(): the loop of the thread, made at the first call.
  unfoldable pub get_current_event_loop :
      Option (LoopObject C) → ℕ → ℤ → ℤ → ℕ → C → C → Option (LoopObject C)
  unfolding new_event_loop
  get_current_event_loop (some current) thread epoll_fd wakeup_fd timer_fd read_all on_timer =
      some current
  get_current_event_loop none thread epoll_fd wakeup_fd timer_fd read_all on_timer =
      new_event_loop none thread epoll_fd wakeup_fd timer_fd read_all on_timer

  -- A loop that has been made is in step with epoll.
  pub new_event_loop-IsInStep :
      (thread epoll_fd wakeup_fd timer_fd : ℕ) (read_all on_timer : C) (o : LoopObject C)
      → new_event_loop none thread (pos epoll_fd) (pos wakeup_fd) timer_fd read_all on_timer
        ≡ some o
      → IsInStep o.loop
  unfolding new_event_loop
  new_event_loop-IsInStep thread epoll_fd wakeup_fd timer_fd read_all on_timer o e =
      let bare : IsInStep (bare_loop thread) = unfold IsInStep replay in refl in
      let woken = add_epoll_event-IsInStep thread (input_event wakeup_fd read_all) _ bare in
      let timed = add_epoll_event-IsInStep thread (input_event timer_fd on_timer) _ woken in
      let same : add_epoll_event thread (input_event timer_fd on_timer)
            (add_epoll_event thread (input_event wakeup_fd read_all) (bare_loop thread))
          ≡ o.loop =
        ground arith in
      rw (← same) timed
