-- ===== src/EventLoop/Steps/Progress.antt =====
-- What is in the queue of eventloop.cc is called after a bounded number of steps of the loop's thread.
use talon_rpc.Prelude.{
  ℕ, ◌+◌, ◌≤◌, ◌≡◌, refl, sym, ap, ◌∙◌, List, [], ◌∷◌, ◌++◌, false, arith, length, length-append,
  take-append, append-nil, Bool-cases, inl, inr, ◌⊎◌, take, drop, take-append-drop,
  take-append_left, append_assoc, All,
}
use native.Mathlib.Decide.{dec_lt}
use talon_rpc.FdEvent.{FdEvent}
use talon_rpc.EventLoop.{Eventloop, Task, EpollEvent}
use talon_rpc.EventLoop.Tasks.{tasks_of}
use talon_rpc.Prelude.{Bool}
use talon_rpc.EventLoop.Steps.{
  add_at, LoopPlace, testing, running, waiting, ended, Running, Action, add, call_stop, go_on,
  enter_loop, go_on_at, act, acts,
}
use talon_rpc.EventLoop.Steps.Order.{acts-IsFifo, enter_loop-IsFifo}
use talon_rpc.EventLoop.Steps.Busy.{
  own_steps, IsUnstopped, steps_to, IsBusy, steps_to-le, IsFifo-length, go_on_at-steps, act-IsBusy,
  acts-IsBusy,
}

-- Of two beginnings of a list the shorter is one of the longer.
begins {ℓ} :
    {A : Type ℓ} (xs ys zs ws : List A)
    → length zs ≤ length xs
    → xs ++ ys ≡ zs ++ ws
    → (rest : List A) × (xs ≡ zs ++ rest)
begins xs ys zs ws h e = (
  drop (length zs) xs,
  sym (take-append-drop (length zs) xs)
      ∙ ap (λ t. t ++ drop (length zs) xs)
          (sym (take-append_left (length zs) xs ys h)
            ∙ ap (take (length zs)) e
            ∙ take-append (length zs) zs ws refl),
)

module _ {C : Type 0} where
  -- What has been called stays called.
  go_on_at-executed :
      (events : ℕ → FdEvent C) (place : LoopPlace) (tasks : List (Task C))
      (ts : List (EpollEvent C)) (r : Running C)
      → length r.executed ≤ length (go_on_at events place tasks ts r).executed
  unfolding go_on_at
  go_on_at-executed events testing tasks ts r = ground arith
  go_on_at-executed events running [] ts r = omega arith
  go_on_at-executed events running (cb ∷ tasks) ts r =
      omega (arith, length-append r.executed (cb ∷ []))
  go_on_at-executed events waiting tasks ts r = omega arith
  go_on_at-executed events ended tasks ts r = omega arith

  add_at-steps :
      (n m : ℕ) (place : LoopPlace) (cb : Task C) (is_wake_up : Bool) (r : Running C)
      → (n ≤ length r.executed) ⊎ (steps_to n r ≤ m)
      → (n ≤ length (add_at place cb is_wake_up r).executed)
        ⊎ (steps_to n (add_at place cb is_wake_up r) ≤ m)
  unfolding add_at
  add_at-steps n m testing cb is_wake_up r near = near
  add_at-steps n m running cb is_wake_up r near = near
  add_at-steps n m waiting cb is_wake_up r near = near
  add_at-steps n m ended cb is_wake_up r near = near

  -- An action leaves the task that is waited for called, or brings it nearer.
  act-steps :
      (n : ℕ) (events : ℕ → FdEvent C) (a : Action C) (actions : List (Action C)) (r : Running C)
      → IsUnstopped a
      → IsBusy n r
      → (n ≤ length r.executed) ⊎ (steps_to n r ≤ own_steps (a ∷ actions))
      → (n ≤ length (act events a r).executed) ⊎ (steps_to n (act events a r) ≤ own_steps actions)
  unfolding act
  act-steps n events (add cb is_wake_up) actions r u busy near =
      add_at-steps n (own_steps actions) r.place cb is_wake_up r near
  act-steps n events call_stop actions r u busy near = absurd u
  act-steps n events (go_on ts) actions r u busy (inl done) =
      inl (omega (arith, go_on_at-executed events r.place r.tmp_tasks ts r))
  act-steps n events (go_on ts) actions r u busy (inr near) = elim (dec_lt (length r.executed) n) [
    | yes lt ↦ inr (
        omega (
          arith,
          near,
          go_on_at-steps n events ts r busy r.place r.tmp_tasks refl refl busy.fifo.emptied
              (IsFifo-length r busy.fifo) lt,
        ))
    | no ge ↦ inl (omega (arith, go_on_at-executed events r.place r.tmp_tasks ts r))
  ]

  acts-steps :
      (n : ℕ) (events : ℕ → FdEvent C) (actions : List (Action C)) (r : Running C)
      → All IsUnstopped actions
      → IsBusy n r
      → (n ≤ length r.executed) ⊎ (steps_to n r ≤ own_steps actions)
      → n ≤ length (acts events actions r).executed
  unfolding acts
  acts-steps n events [] r u busy (inl done) = done
  acts-steps n events [] r u busy (inr near) = omega (arith, near)
  acts-steps n events (a ∷ actions) r (u, us) busy near =
      acts-steps n events actions (act events a r) us (act-IsBusy n events a r u busy)
        (act-steps n events a actions r u busy near)

  -- The queue only grows at its end.
  go_on_at-grows :
      (events : ℕ → FdEvent C) (place : LoopPlace) (tasks : List (Task C))
      (ts : List (EpollEvent C)) (r : Running C)
      → (more : List (Task C)) × ((go_on_at events place tasks ts r).pushed ≡ r.pushed ++ more)
  unfolding go_on_at
  go_on_at-grows events testing tasks ts r = elim (Bool-cases r.loop.stop_flag) [
    | inl e ↦ ([], rw e (sym (append-nil r.pushed)))
    | inr e ↦ ([], rw e (sym (append-nil r.pushed)))
  ]
  go_on_at-grows events running [] ts r = ([], sym (append-nil r.pushed))
  go_on_at-grows events running (cb ∷ tasks) ts r = ([], sym (append-nil r.pushed))
  go_on_at-grows events waiting tasks ts r = (tasks_of ts, refl)
  go_on_at-grows events ended tasks ts r = ([], sym (append-nil r.pushed))

  add_at-grows :
      (place : LoopPlace) (cb : Task C) (is_wake_up : Bool) (r : Running C)
      → (more : List (Task C)) × ((add_at place cb is_wake_up r).pushed ≡ r.pushed ++ more)
  unfolding add_at
  add_at-grows testing cb is_wake_up r = ([], sym (append-nil r.pushed))
  add_at-grows running cb is_wake_up r = (cb ∷ [], refl)
  add_at-grows waiting cb is_wake_up r = ([], sym (append-nil r.pushed))
  add_at-grows ended cb is_wake_up r = ([], sym (append-nil r.pushed))

  act-grows :
      (events : ℕ → FdEvent C) (a : Action C) (r : Running C)
      → (more : List (Task C)) × ((act events a r).pushed ≡ r.pushed ++ more)
  unfolding act
  act-grows events (add cb is_wake_up) r = add_at-grows r.place cb is_wake_up r
  act-grows events call_stop r = ([], sym (append-nil r.pushed))
  act-grows events (go_on ts) r = go_on_at-grows events r.place r.tmp_tasks ts r

  acts-grows :
      (events : ℕ → FdEvent C) (actions : List (Action C)) (r : Running C)
      → (more : List (Task C)) × ((acts events actions r).pushed ≡ r.pushed ++ more)
  unfolding acts
  acts-grows events [] r = ([], sym (append-nil r.pushed))
  acts-grows events (a ∷ actions) r =
      let (more, e) = act-grows events a r in
      let (most, e') = acts-grows events actions (act events a r) in
      (more ++ most, rw e at e' ∙ append_assoc r.pushed more most)

  -- If only the loop's own thread calls addTask, from the callbacks that it runs, and nobody calls
  -- stop: from any point that the loop reaches, after as many steps of its thread as there are
  -- tasks waiting, and three more, everything that had been pushed by then has been called, in the
  -- order of the pushes, whatever the callbacks push meanwhile and whatever epoll_wait returns. A
  -- second unlock of a mutex that is free is taken to do nothing.
  pub acts_run_pending :
      (events : ℕ → FdEvent C) (past later : List (Action C)) (l : Eventloop C)
      → l.stop_flag ≡ false
      → All IsUnstopped past
      → All IsUnstopped later
      → length (acts events past (enter_loop l)).tmp_tasks
          + length (acts events past (enter_loop l)).loop.pending_tasks
          + 3
        ≤ own_steps later
      → (rest : List (Task C)) × ((acts events later (acts events past (enter_loop l))).executed
          ≡ (acts events past (enter_loop l)).pushed ++ rest)
  acts_run_pending events past later l off up ul enough =
      let r = acts events past (enter_loop l) in
      let start : IsBusy 0 (enter_loop l) = record {
        fifo = enter_loop-IsFifo l;
        unstopped = off;
        unended = λ e. cc;
        enough = omega arith;
      } in
      let reached = acts-IsBusy 0 events past (enter_loop l) up start in
      let busy : IsBusy (length r.pushed) r = record {
        fifo = reached.fifo;
        unstopped = reached.unstopped;
        unended = reached.unended;
        enough = omega arith;
      } in
      let near : steps_to (length r.pushed) r ≤ own_steps later =
        (omega (arith, steps_to-le (length r.pushed) r, IsFifo-length r reached.fifo)) in
      let (more, e) = acts-grows events later r in
      begins (acts events later r).executed _ r.pushed more
        (acts-steps (length r.pushed) events later r ul busy (inr near))
        ((acts-IsFifo events later r reached.fifo).in_order ∙ e)
