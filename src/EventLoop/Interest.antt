-- ===== src/EventLoop/Interest.antt =====
-- The descriptors that the loop takes for registered, and those that epoll has.
use talon_rpc.Prelude.{
  ℕ, ◌≡◌, refl, List, [], ◌∷◌, ◌++◌, Option, none, some, ◌==◌, if◌then◌else◌, Bool, true, false,
  Bool-cases, Option-cases, inl, inr, arith,
}
use talon_rpc.Prelude.Outcome.{Outcome, ok, bind-ok}
use talon_rpc.FdEvent.{FdEvent, handler, error_event}
use talon_rpc.EventLoop.{
  EpollOp, ctl_add, ctl_mod, ctl_del, EpollCtl, Eventloop, contains, erase_fd, add_to_epoll,
  delete_to_epoll, add_epoll_event, delete_epoll_event, add_task, Task, callback, add_later,
  delete_later, EpollEvent, on_in, on_out, on_err, on_trigger, on_triggers, run_task, run_tasks,
  loop_round,
}

-- What epoll does on a call: it refuses to add what it has, and to change or delete what it has not.
abbrev pub epoll_step : EpollOp → ℕ → List ℕ → Option (List ℕ)
epoll_step ctl_add fd fds = if contains fd fds then none else some (fd ∷ fds)
epoll_step ctl_mod fd fds = if contains fd fds then some fds else none
epoll_step ctl_del fd fds = if contains fd fds then some (erase_fd fd fds) else none

abbrev settle : EpollCtl → Option (List ℕ) → Option (List ℕ)
settle c none = none
settle c (some fds) = epoll_step c.op c.fd fds

unfoldable pub replay : List EpollCtl → Option (List ℕ) → Option (List ℕ)
replay [] fds = fds
replay (c ∷ ctls) fds = replay ctls (settle c fds)

replay-append :
    (cs : List EpollCtl) (c : EpollCtl) (fds : Option (List ℕ))
    → replay (cs ++ (c ∷ [])) fds ≡ settle c (replay cs fds)
unfolding replay
replay-append [] c fds = refl
replay-append (b ∷ cs) c fds = replay-append cs c (settle b fds)

-- epoll has refused no call so far, and it has the descriptors of `m_listen_fds`.
unfoldable pub IsInStep : {C : Type 0} → Eventloop C → Type 0
unfolding replay
IsInStep l = replay l.ctls (some []) ≡ some l.listen_fds

module _ {C : Type 0} where
  -- addEpollEvent and deleteEpollEvent, called on any thread, keep epoll and m_listen_fds in step: no
  -- call of epoll_ctl adds a descriptor that epoll has, or changes or deletes one that it has not.
  pub add_to_epoll-IsInStep :
      (event : FdEvent C) (l : Eventloop C) → IsInStep l → IsInStep (add_to_epoll event l)
  unfolding IsInStep add_to_epoll
  add_to_epoll-IsInStep event l h = elim (Bool-cases (contains event.fd l.listen_fds)) [
    | inl e ↦ rw (e, replay-append l.ctls, h) (rw e)
    | inr e ↦ rw (e, replay-append l.ctls, h) (rw e)
  ]

  pub delete_to_epoll-IsInStep :
      (event : FdEvent C) (l : Eventloop C) → IsInStep l → IsInStep (delete_to_epoll event l)
  unfolding IsInStep delete_to_epoll
  delete_to_epoll-IsInStep event l h = elim (Bool-cases (contains event.fd l.listen_fds)) [
    | inl e ↦ rw (e, replay-append l.ctls, h) (rw e)
    | inr e ↦ rw e h
  ]

  add_task-IsInStep :
      (cb : Task C) (w : Bool) (l : Eventloop C) → IsInStep l → IsInStep (add_task cb w l)
  unfolding IsInStep add_task
  add_task-IsInStep cb true l h = h
  add_task-IsInStep cb false l h = h

  pub add_epoll_event-IsInStep :
      (thread : ℕ) (event : FdEvent C) (l : Eventloop C)
      → IsInStep l
      → IsInStep (add_epoll_event thread event l)
  unfolding add_epoll_event
  add_epoll_event-IsInStep thread event l h = elim (Bool-cases (thread == l.thread_id)) [
    | inl e ↦ rw e (add_to_epoll-IsInStep event l h)
    | inr e ↦ rw e (add_task-IsInStep (add_later event.fd) true l h)
  ]

  pub delete_epoll_event-IsInStep :
      (thread : ℕ) (event : FdEvent C) (l : Eventloop C)
      → IsInStep l
      → IsInStep (delete_epoll_event thread event l)
  unfolding delete_epoll_event
  delete_epoll_event-IsInStep thread event l h = elim (Bool-cases (thread == l.thread_id)) [
    | inl e ↦ rw e (delete_to_epoll-IsInStep event l h)
    | inr e ↦ rw e (add_task-IsInStep (delete_later event.fd) true l h)
  ]

  on_in-IsInStep :
      (event : FdEvent C) (bit : Bool) (l : Eventloop C) → IsInStep l → IsInStep (on_in event bit l)
  unfolding on_in
  on_in-IsInStep event true l h = add_task-IsInStep _ false l h
  on_in-IsInStep event false l h = h

  on_out-IsInStep :
      (event : FdEvent C) (bit : Bool) (l : Eventloop C)
      → IsInStep l
      → IsInStep (on_out event bit l)
  unfolding on_out
  on_out-IsInStep event true l h = add_task-IsInStep _ false l h
  on_out-IsInStep event false l h = h

  on_err-IsInStep :
      (event : FdEvent C) (bit : Bool) (l : Eventloop C)
      → IsInStep l
      → IsInStep (on_err event bit l)
  unfolding on_err
  on_err-IsInStep event true l h =
      let deleted = delete_epoll_event-IsInStep l.thread_id event l h in
      elim (Option-cases (handler event error_event)) [
        | inl e ↦ rw e deleted
        | inr (c, e) ↦ rw e (add_task-IsInStep _ false _ deleted)
      ]
  on_err-IsInStep event false l h = h

  pub on_triggers-IsInStep :
      (ts : List (EpollEvent C)) (l : Eventloop C) → IsInStep l → IsInStep (on_triggers ts l)
  unfolding on_triggers on_trigger
  on_triggers-IsInStep [] l h = h
  on_triggers-IsInStep (t ∷ ts) l h = elim (Option-cases t.fd_event) [
    | inl e ↦ rw e (on_triggers-IsInStep ts l h)
    | inr (event, e) ↦ rw e (
        on_triggers-IsInStep ts _ (
          on_err-IsInStep event t.epoll_err _
            (on_out-IsInStep event t.epoll_out _ (on_in-IsInStep event t.epoll_in l h))))
  ]

module _ {C W : Type 0} (events : ℕ → W → FdEvent C)
    (run : C → Eventloop C × W → Outcome (Eventloop C × W)) where
  run_task-IsInStep :
      (cb : Task C) (s s' : Eventloop C × W)
      → ((c : C) (t t' : Eventloop C × W) → IsInStep t.0 → run c t ≡ ok t' → IsInStep t'.0)
      → IsInStep s.0
      → run_task events run cb s ≡ ok s'
      → IsInStep s'.0
  unfolding run_task
  run_task-IsInStep (callback none) s s' keep h e = let e' : s ≡ s' = ground arith in rw (← e') h
  run_task-IsInStep (callback (some c)) s s' keep h e = keep c s s' h e
  run_task-IsInStep (add_later fd) (l, w) s' keep h e =
      let e' : (add_to_epoll (events fd w) l, w) ≡ s' = ground arith in
      rw (← e') (add_to_epoll-IsInStep (events fd w) l h)
  run_task-IsInStep (delete_later fd) (l, w) s' keep h e =
      let e' : (delete_to_epoll (events fd w) l, w) ≡ s' = ground arith in
      rw (← e') (delete_to_epoll-IsInStep (events fd w) l h)

  run_tasks-IsInStep :
      (tasks : List (Task C)) (s s' : Eventloop C × W)
      → ((c : C) (t t' : Eventloop C × W) → IsInStep t.0 → run c t ≡ ok t' → IsInStep t'.0)
      → IsInStep s.0
      → run_tasks events run tasks s ≡ ok s'
      → IsInStep s'.0
  unfolding run_tasks
  run_tasks-IsInStep [] s s' keep h e = let e' : s ≡ s' = ground arith in rw (← e') h
  run_tasks-IsInStep (cb ∷ tasks) s s' keep h e =
      let (t, e1, e2) = bind-ok (run_task events run cb s) (run_tasks events run tasks) s' e in
      run_tasks-IsInStep tasks t s' keep (run_task-IsInStep cb s t keep h e1) e2

  -- A round of the loop keeps epoll and m_listen_fds in step, if the callbacks do: then no call of
  -- epoll_ctl in the round adds a descriptor that epoll has, or changes or deletes one that it has not.
  pub loop_round-IsInStep :
      (ts : List (EpollEvent C)) (l l' : Eventloop C) (w w' : W)
      → ((c : C) (t t' : Eventloop C × W) → IsInStep t.0 → run c t ≡ ok t' → IsInStep t'.0)
      → IsInStep l
      → loop_round events run ts (l, w) ≡ ok (l', w')
      → IsInStep l'
  unfolding loop_round
  loop_round-IsInStep ts l l' w w' keep h e =
      let (t, e1, e2) =
        bind-ok (run_tasks events run l.pending_tasks (record l { pending_tasks = [] }, w))
          (λ s. ok (on_triggers ts s.0, s.1)) (l', w') e in
      let started : IsInStep (record l { pending_tasks = [] }) = unfold IsInStep in h in
      let kept : IsInStep t.0 =
        run_tasks-IsInStep l.pending_tasks (record l { pending_tasks = [] }, w) t keep started e1 in
      let same : on_triggers ts t.0 ≡ l' = ground arith in
      rw (← same) (on_triggers-IsInStep ts t.0 kept)
