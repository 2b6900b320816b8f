-- ===== src/EventLoop/Steps/StopFlag.antt =====
-- m_stop_flag of net/eventloop.cc, which only stop() sets.
use talon_rpc.Prelude.{
  ℕ, ◌≡◌, refl, ◌∙◌, List, [], ◌∷◌, Bool, true, false, arith, Bool-cases, Option-cases, inl, inr,
  ◌==◌,
}
use talon_rpc.FdEvent.{FdEvent, handler}
use talon_rpc.EventLoop.{
  Eventloop, Task, callback, add_later, delete_later, EpollEvent, contains, add_task, add_to_epoll,
  delete_to_epoll, delete_epoll_event, on_in, on_out, on_err, on_trigger, on_triggers,
}
use talon_rpc.EventLoop.Steps.{run_front}

-- Nothing that the loop does of itself sets m_stop_flag.
module _ {C : Type 0} where
  pub add_task-stop_flag :
      (cb : Task C) (w : Bool) (l : Eventloop C) → (add_task cb w l).stop_flag ≡ l.stop_flag
  unfolding add_task
  add_task-stop_flag cb true l = refl
  add_task-stop_flag cb false l = refl

  delete_to_epoll-stop_flag :
      (event : FdEvent C) (l : Eventloop C) → (delete_to_epoll event l).stop_flag ≡ l.stop_flag
  unfolding delete_to_epoll
  delete_to_epoll-stop_flag event l = elim (Bool-cases (contains event.fd l.listen_fds)) [
    | inl e ↦ ground arith
    | inr e ↦ ground arith
  ]

  pub run_front-stop_flag :
      (events : ℕ → FdEvent C) (cb : Task C) (l : Eventloop C)
      → (run_front events cb l).stop_flag ≡ l.stop_flag
  unfolding add_to_epoll
  run_front-stop_flag events (callback cb) l = refl
  run_front-stop_flag events (add_later fd) l = refl
  run_front-stop_flag events (delete_later fd) l = delete_to_epoll-stop_flag (events fd) l

  on_in-stop_flag :
      (event : FdEvent C) (bit : Bool) (l : Eventloop C)
      → (on_in event bit l).stop_flag ≡ l.stop_flag
  unfolding on_in handler
  on_in-stop_flag event true l = add_task-stop_flag (callback event.read_callback) false l
  on_in-stop_flag event false l = refl

  on_out-stop_flag :
      (event : FdEvent C) (bit : Bool) (l : Eventloop C)
      → (on_out event bit l).stop_flag ≡ l.stop_flag
  unfolding on_out handler
  on_out-stop_flag event true l = add_task-stop_flag (callback event.write_callback) false l
  on_out-stop_flag event false l = refl

  delete_epoll_event-stop_flag :
      (thread : ℕ) (event : FdEvent C) (l : Eventloop C)
      → (delete_epoll_event thread event l).stop_flag ≡ l.stop_flag
  unfolding delete_epoll_event
  delete_epoll_event-stop_flag thread event l = elim (Bool-cases (thread == l.thread_id)) [
    | inl e ↦ rw e (delete_to_epoll-stop_flag event l)
    | inr e ↦ rw e (add_task-stop_flag (delete_later event.fd) true l)
  ]

  on_err-stop_flag :
      (event : FdEvent C) (bit : Bool) (l : Eventloop C)
      → (on_err event bit l).stop_flag ≡ l.stop_flag
  unfolding on_err handler
  on_err-stop_flag event false l = refl
  on_err-stop_flag event true l = elim (Option-cases event.error_callback) [
    | inl e ↦ rw e (delete_epoll_event-stop_flag l.thread_id event l)
    | inr (c, e) ↦ rw e (
        add_task-stop_flag (callback event.write_callback) false
          (delete_epoll_event l.thread_id event l)
        ∙ delete_epoll_event-stop_flag l.thread_id event l)
  ]

  pub on_triggers-stop_flag :
      (ts : List (EpollEvent C)) (l : Eventloop C) → (on_triggers ts l).stop_flag ≡ l.stop_flag
  unfolding on_triggers on_trigger
  on_triggers-stop_flag [] l = refl
  on_triggers-stop_flag (t ∷ ts) l = elim (Option-cases t.fd_event) [
    | inl e ↦ rw e (on_triggers-stop_flag ts l)
    | inr (event, e) ↦
        let l1 = on_in event t.epoll_in l in
        let l2 = on_out event t.epoll_out l1 in
        rw e (
          on_triggers-stop_flag ts (on_err event t.epoll_err l2)
          ∙ on_err-stop_flag event t.epoll_err l2
          ∙ on_out-stop_flag event t.epoll_out l1
          ∙ on_in-stop_flag event t.epoll_in l)
  ]
