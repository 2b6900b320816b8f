-- ===== src/EventLoop/Tasks.antt =====
-- The tasks that a report of epoll_wait puts into the queue.
use talon_rpc.Prelude.{
  ◌≡◌, refl, sym, ap, ◌∙◌, List, [], ◌∷◌, ◌++◌, Option, none, some, if◌then◌else◌, Bool, true,
  false, Bool-cases, inl, inr, arith, append_assoc, append-nil, Option-cases,
}
use talon_rpc.FdEvent.{FdEvent, handler}
use talon_rpc.EventLoop.{
  Eventloop, Task, callback, EpollEvent, contains, add_task, delete_to_epoll, delete_epoll_event,
  on_in, on_out, on_err, on_trigger, on_triggers,
}

module _ {C : Type 0} where
  -- The tasks of an event, each with its condition.
  abbrev on_error : FdEvent C → Option C → Bool → List (Task C)
  on_error event error_callback false = []
  on_error event none true = []
  on_error event (some c) true = callback event.write_callback ∷ []

  abbrev tasks_of_event : FdEvent C → EpollEvent C → List (Task C)
  tasks_of_event event t =
      (if t.epoll_in then callback event.read_callback ∷ [] else [])
      ++ ((if t.epoll_out then callback event.write_callback ∷ [] else [])
          ++ on_error event event.error_callback t.epoll_err)

  abbrev pub tasks_of : List (EpollEvent C) → List (Task C)
  tasks_of [] = []
  tasks_of (t ∷ ts) =
      elim (t.fd_event) [ none ↦ [] | some event ↦ tasks_of_event event t ] ++ tasks_of ts

  on_in-pending :
      (event : FdEvent C) (bit : Bool) (l : Eventloop C)
      → (on_in event bit l).pending_tasks
        ≡ l.pending_tasks ++ (if bit then callback event.read_callback ∷ [] else [])
  unfolding on_in add_task handler
  on_in-pending event true l = refl
  on_in-pending event false l = sym (append-nil _)

  on_out-pending :
      (event : FdEvent C) (bit : Bool) (l : Eventloop C)
      → (on_out event bit l).pending_tasks
        ≡ l.pending_tasks ++ (if bit then callback event.write_callback ∷ [] else [])
  unfolding on_out add_task handler
  on_out-pending event true l = refl
  on_out-pending event false l = sym (append-nil _)

  delete_to_epoll-pending :
      (event : FdEvent C) (l : Eventloop C)
      → (delete_epoll_event l.thread_id event l).pending_tasks ≡ l.pending_tasks
  unfolding delete_epoll_event delete_to_epoll
  delete_to_epoll-pending event l = elim (Bool-cases (contains event.fd l.listen_fds)) [
    | inl e ↦ ground arith
    | inr e ↦ ground arith
  ]

  on_err-pending :
      (event : FdEvent C) (bit : Bool) (l : Eventloop C)
      → (on_err event bit l).pending_tasks
        ≡ l.pending_tasks ++ on_error event event.error_callback bit
  unfolding on_err add_task handler
  on_err-pending event false l = sym (append-nil _)
  on_err-pending event true l = elim (Option-cases event.error_callback) [
    | inl e ↦ rw (e, append-nil l.pending_tasks) (delete_to_epoll-pending event l)
    | inr (c, e) ↦
        rw e (ap (λ p. p ++ (callback event.write_callback ∷ [])) (delete_to_epoll-pending event l))
  ]

  -- A report of epoll_wait appends to the queue, for each event in its order, the read callback if the
  -- event is EPOLLIN, the write callback if it is EPOLLOUT, and, if it is EPOLLERR and the object has an
  -- error callback, the write callback once more; a null pointer adds nothing. No error callback is
  -- ever put into the queue.
  pub on_triggers-pending :
      (ts : List (EpollEvent C)) (l : Eventloop C)
      → (on_triggers ts l).pending_tasks ≡ l.pending_tasks ++ tasks_of ts
  unfolding on_triggers on_trigger
  on_triggers-pending [] l = sym (append-nil _)
  on_triggers-pending (t ∷ ts) l = elim (Option-cases t.fd_event) [
    | inl e ↦ rw e (on_triggers-pending ts l)
    | inr (event, e) ↦
        let l1 = on_in event t.epoll_in l in
        let l2 = on_out event t.epoll_out l1 in
        let l3 = on_err event t.epoll_err l2 in
        rw e (
          on_triggers-pending ts l3
          ∙ (rw
              (
                on_err-pending event t.epoll_err l2,
                on_out-pending event t.epoll_out l1,
                on_in-pending event t.epoll_in l,
              )
              (simp append_assoc)))
  ]
