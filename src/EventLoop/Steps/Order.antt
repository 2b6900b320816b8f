-- ===== src/EventLoop/Steps/Order.antt =====
-- The order in which the loop of eventloop.cc calls what its callbacks push.
use talon_rpc.Prelude.{
  ℕ, ◌≡◌, refl, ap, ◌∙◌, List, [], ◌∷◌, ◌++◌, Bool, true, false, Bool-cases, inl, inr, arith,
  append_assoc, append-nil,
}
use talon_rpc.FdEvent.{FdEvent}
use talon_rpc.EventLoop.{
  Eventloop, Task, callback, add_later, delete_later, contains, add_task, stop, add_to_epoll,
  delete_to_epoll, EpollEvent,
}
use talon_rpc.EventLoop.Tasks.{tasks_of, on_triggers-pending}
use talon_rpc.EventLoop.Steps.{
  LoopPlace, testing, running, waiting, ended, Running, Action, add, call_stop, go_on, enter_loop,
  run_front, go_on_at, add_at, act, acts,
}

-- The loop holds tasks of its own only in the `while` over them.
abbrev pub IsEmptied : {C : Type 0} → LoopPlace → List (Task C) → Type 0
IsEmptied running tasks = Unit {0}
IsEmptied testing tasks = tasks ≡ []
IsEmptied waiting tasks = tasks ≡ []
IsEmptied ended tasks = tasks ≡ []

-- What has been called, what the loop has taken and what is pending make up what was pushed.
pub record IsFifo {C : Type 0} (r : Running C) : Type 0 where
  pub in_order : r.executed ++ (r.tmp_tasks ++ r.loop.pending_tasks) ≡ r.pushed
  pub emptied : IsEmptied r.place r.tmp_tasks

-- A push goes behind all that is there.
push_behind {ℓ} :
    {A : Type ℓ} (xs ys zs ws : List A) {all : List A}
    → xs ++ (ys ++ zs) ≡ all
    → xs ++ (ys ++ (zs ++ ws)) ≡ all ++ ws
push_behind xs ys zs ws e = rw (← e) (simp append_assoc)

module _ {C : Type 0} where
  add_to_epoll-pending :
      (event : FdEvent C) (l : Eventloop C) → (add_to_epoll event l).pending_tasks ≡ l.pending_tasks
  unfolding add_to_epoll
  add_to_epoll-pending event l = refl

  delete_to_epoll-pending :
      (event : FdEvent C) (l : Eventloop C)
      → (delete_to_epoll event l).pending_tasks ≡ l.pending_tasks
  unfolding delete_to_epoll
  delete_to_epoll-pending event l = elim (Bool-cases (contains event.fd l.listen_fds)) [
    | inl e ↦ ground arith
    | inr e ↦ ground arith
  ]

  run_front-pending :
      (events : ℕ → FdEvent C) (cb : Task C) (l : Eventloop C)
      → (run_front events cb l).pending_tasks ≡ l.pending_tasks
  run_front-pending events (callback cb) l = refl
  run_front-pending events (add_later fd) l = add_to_epoll-pending (events fd) l
  run_front-pending events (delete_later fd) l = delete_to_epoll-pending (events fd) l

  add_task-pending :
      (cb : Task C) (is_wake_up : Bool) (l : Eventloop C)
      → (add_task cb is_wake_up l).pending_tasks ≡ l.pending_tasks ++ (cb ∷ [])
  unfolding add_task
  add_task-pending cb true l = refl
  add_task-pending cb false l = refl

  go_on_at-IsFifo :
      (events : ℕ → FdEvent C) (place : LoopPlace) (tasks : List (Task C))
      (ts : List (EpollEvent C)) (r : Running C)
      → r.executed ++ (tasks ++ r.loop.pending_tasks) ≡ r.pushed
      → IsEmptied place tasks
      → r.place ≡ place
      → r.tmp_tasks ≡ tasks
      → IsFifo (go_on_at events place tasks ts r)
  unfolding go_on_at
  go_on_at-IsFifo events testing tasks ts r e h ep et = elim (Bool-cases r.loop.stop_flag) [
    | inl s ↦ rw s (record { in_order = rw et e; emptied = rw et h })
    | inr s ↦ rw s (record {
      in_order = ap (λ t. r.executed ++ t) (append-nil r.loop.pending_tasks) ∙ rw h at e;
      emptied = tt;
    })
  ]
  go_on_at-IsFifo events running [] ts r e h ep et = record { in_order = rw et e; emptied = et }
  go_on_at-IsFifo events running (cb ∷ tasks) ts r e h ep et = record {
    in_order = rw (run_front-pending events cb r.loop) (rw append_assoc e);
    emptied = rw ep tt;
  }
  go_on_at-IsFifo events waiting tasks ts r e h ep et = record {
    in_order =
        rw (on_triggers-pending ts r.loop, et)
          (push_behind r.executed tasks r.loop.pending_tasks (tasks_of ts) e);
    emptied = rw et h;
  }
  go_on_at-IsFifo events ended tasks ts r e h ep et = record {
    in_order = rw et e;
    emptied = rw (ep, et) h;
  }

  add_at-IsFifo :
      (place : LoopPlace) (cb : Task C) (is_wake_up : Bool) (r : Running C)
      → IsFifo r
      → IsFifo (add_at place cb is_wake_up r)
  unfolding add_at
  add_at-IsFifo testing cb is_wake_up r h = h
  add_at-IsFifo waiting cb is_wake_up r h = h
  add_at-IsFifo ended cb is_wake_up r h = h
  add_at-IsFifo running cb is_wake_up r h = record {
    in_order =
        rw (add_task-pending cb is_wake_up r.loop)
          (push_behind r.executed r.tmp_tasks r.loop.pending_tasks (cb ∷ []) h.in_order);
    emptied = h.emptied;
  }

  pub act-IsFifo :
      (events : ℕ → FdEvent C) (a : Action C) (r : Running C) → IsFifo r → IsFifo (act events a r)
  unfolding act stop
  act-IsFifo events (add cb is_wake_up) r h = add_at-IsFifo r.place cb is_wake_up r h
  act-IsFifo events call_stop r h = record { in_order = h.in_order; emptied = h.emptied }
  act-IsFifo events (go_on ts) r h =
      go_on_at-IsFifo events r.place r.tmp_tasks ts r h.in_order h.emptied refl refl

  pub acts-IsFifo :
      (events : ℕ → FdEvent C) (actions : List (Action C)) (r : Running C)
      → IsFifo r
      → IsFifo (acts events actions r)
  unfolding acts
  acts-IsFifo events [] r h = h
  acts-IsFifo events (a ∷ actions) r h =
      acts-IsFifo events actions (act events a r) (act-IsFifo events a r h)

  pub enter_loop-IsFifo : (l : Eventloop C) → IsFifo (enter_loop l)
  enter_loop-IsFifo l = record { in_order = refl; emptied = refl }

  pub acts_in_order :
      (events : ℕ → FdEvent C) (actions : List (Action C)) (l : Eventloop C)
      → (acts events actions (enter_loop l)).executed
          ++ ((acts events actions (enter_loop l)).tmp_tasks
              ++ (acts events actions (enter_loop l)).loop.pending_tasks)
        ≡ (acts events actions (enter_loop l)).pushed
  acts_in_order events actions l =
      (acts-IsFifo events actions (enter_loop l) (enter_loop-IsFifo l)).in_order
