-- ===== src/EventLoop/Steps/Busy.antt =====
-- A loop that goes on, as eventloop.cc leaves it when nobody calls stop, and how many steps its
-- thread is from having called what has been pushed.
use talon_rpc.Prelude.{
  ℕ, suc, ◌+◌, ◌-◌, ◌≤◌, ◌≡◌, ◌≢◌, refl, ap, ◌∙◌, List, [], ◌∷◌, ◌++◌, false, arith, length,
  length-append, ◌<◌, if◌then◌else◌, ltb, All,
}
use talon_rpc.FdEvent.{FdEvent}
use talon_rpc.EventLoop.{Task, EpollEvent}
use talon_rpc.EventLoop.Tasks.{tasks_of}
use talon_rpc.Prelude.{Bool}
use talon_rpc.EventLoop.Steps.{
  add_at, LoopPlace, testing, running, waiting, ended, Running, Action, add, call_stop, go_on,
  go_on_at, act, acts,
}
use talon_rpc.EventLoop.Steps.StopFlag.{
  add_task-stop_flag, run_front-stop_flag, on_triggers-stop_flag,
}
use talon_rpc.EventLoop.Steps.Order.{IsEmptied, IsFifo, act-IsFifo}

-- How many of the actions are steps of the loop's thread.
abbrev pub own_steps : {C : Type 0} → List (Action C) → ℕ
own_steps [] = 0
own_steps (add cb is_wake_up ∷ actions) = own_steps actions
own_steps (call_stop ∷ actions) = own_steps actions
own_steps (go_on ts ∷ actions) = suc (own_steps actions)

-- Nobody calls stop.
abbrev pub IsUnstopped : {C : Type 0} → Action C → Type 0
IsUnstopped call_stop = ⊥
IsUnstopped a = Unit {0}

-- The steps of the loop's thread from a place to the next swap of the queues, if the queue that it
-- has taken holds `taken` tasks and `due` have to be called.
abbrev pub detour : LoopPlace → ℕ → ℕ → ℕ
detour testing taken due = 1
detour running taken due = if ltb taken due then 3 else 0
detour waiting taken due = 2
detour ended taken due = 0

detour-le : (place : LoopPlace) (taken due : ℕ) → detour place taken due ≤ 3
detour-le testing taken due = omega arith
detour-le running taken due = ground arith
detour-le waiting taken due = omega arith
detour-le ended taken due = omega arith

-- The first n tasks that were pushed are called within this many steps.
abbrev pub steps_to : {C : Type 0} → ℕ → Running C → ℕ
steps_to n r = let due = n - length r.executed in due + detour r.place (length r.tmp_tasks) due

-- The loop goes on, and the first n tasks have been pushed.
pub record IsBusy {C : Type 0} (n : ℕ) (r : Running C) : Type 0 where
  pub fifo : IsFifo r
  pub unstopped : r.loop.stop_flag ≡ false
  pub unended : r.place ≢ ended
  pub enough : n ≤ length r.pushed

pub steps_to-le : {C : Type 0} (n : ℕ) (r : Running C) → steps_to n r ≤ n - length r.executed + 3
steps_to-le n r = omega (arith, detour-le r.place (length r.tmp_tasks) (n - length r.executed))

module _ {C : Type 0} where
  pub IsFifo-length :
      (r : Running C)
      → IsFifo r
      → length r.executed + (length r.tmp_tasks + length r.loop.pending_tasks) ≡ length r.pushed
  IsFifo-length r h = omega (
    arith,
    length-append r.executed (r.tmp_tasks ++ r.loop.pending_tasks),
    length-append r.tmp_tasks r.loop.pending_tasks,
    ap length h.in_order,
  )

  -- A step of the loop's thread, with its place and what it has taken.
  module _ (n : ℕ) (events : ℕ → FdEvent C) (ts : List (EpollEvent C)) (r : Running C)
      (busy : IsBusy n r) where
    go_on_at-stop_flag :
        (place : LoopPlace) (tasks : List (Task C))
        → (go_on_at events place tasks ts r).loop.stop_flag ≡ false
    unfolding go_on_at
    go_on_at-stop_flag testing tasks = ground (arith, busy.unstopped)
    go_on_at-stop_flag running [] = busy.unstopped
    go_on_at-stop_flag running (cb ∷ tasks) = run_front-stop_flag events cb r.loop ∙ busy.unstopped
    go_on_at-stop_flag waiting tasks = on_triggers-stop_flag ts r.loop ∙ busy.unstopped
    go_on_at-stop_flag ended tasks = busy.unstopped

    go_on_at-place :
        (place : LoopPlace) (tasks : List (Task C))
        → r.place ≡ place
        → (go_on_at events place tasks ts r).place ≢ ended
    unfolding go_on_at
    go_on_at-place testing tasks e q = ground (arith, busy.unstopped)
    go_on_at-place running [] e q = cc
    go_on_at-place running (cb ∷ tasks) e q = cc
    go_on_at-place waiting tasks e q = cc
    go_on_at-place ended tasks e q = busy.unended e

    go_on_at-pushed :
        (place : LoopPlace) (tasks : List (Task C))
        → n ≤ length (go_on_at events place tasks ts r).pushed
    unfolding go_on_at
    go_on_at-pushed testing tasks = ground (arith, busy.unstopped, busy.enough)
    go_on_at-pushed running [] = busy.enough
    go_on_at-pushed running (cb ∷ tasks) = busy.enough
    go_on_at-pushed waiting tasks = omega (arith, length-append r.pushed (tasks_of ts), busy.enough)
    go_on_at-pushed ended tasks = busy.enough

    -- One of the steps has been made.
    pub go_on_at-steps :
        (place : LoopPlace) (tasks : List (Task C))
        → r.place ≡ place
        → r.tmp_tasks ≡ tasks
        → IsEmptied place tasks
        → length r.executed + (length tasks + length r.loop.pending_tasks) ≡ length r.pushed
        → length r.executed < n
        → suc (steps_to n (go_on_at events place tasks ts r)) ≤ steps_to n r
    unfolding go_on_at
    go_on_at-steps testing tasks ep et em le lt =
        rw (busy.unstopped, ep) (ground (arith, ap length em, busy.enough))
    go_on_at-steps running [] ep et em le lt = rw (ep, et) (ground arith)
    go_on_at-steps running (cb ∷ tasks) ep et em le lt =
        rw (ep, et) (ground (arith, length-append r.executed (cb ∷ [])))
    go_on_at-steps waiting tasks ep et em le lt = rw ep (ground (arith, ap length em, ap length et))
    go_on_at-steps ended tasks ep et em le lt = absurd (busy.unended ep)

  add_at-IsBusy :
      (n : ℕ) (place : LoopPlace) (cb : Task C) (is_wake_up : Bool) (r : Running C)
      → IsFifo (add_at place cb is_wake_up r)
      → IsBusy n r
      → IsBusy n (add_at place cb is_wake_up r)
  unfolding add_at
  add_at-IsBusy n testing cb is_wake_up r fifo busy = busy
  add_at-IsBusy n waiting cb is_wake_up r fifo busy = busy
  add_at-IsBusy n ended cb is_wake_up r fifo busy = busy
  add_at-IsBusy n running cb is_wake_up r fifo busy = record {
    fifo = fifo;
    unstopped = add_task-stop_flag cb is_wake_up r.loop ∙ busy.unstopped;
    unended = busy.unended;
    enough = omega (arith, length-append r.pushed (cb ∷ []), busy.enough);
  }

  pub act-IsBusy :
      (n : ℕ) (events : ℕ → FdEvent C) (a : Action C) (r : Running C)
      → IsUnstopped a
      → IsBusy n r
      → IsBusy n (act events a r)
  unfolding act
  act-IsBusy n events (add cb is_wake_up) r u busy =
      add_at-IsBusy n r.place cb is_wake_up r (act-IsFifo events (add cb is_wake_up) r busy.fifo)
        busy
  act-IsBusy n events call_stop r u busy = absurd u
  act-IsBusy n events (go_on ts) r u busy = record {
    fifo = act-IsFifo events (go_on ts) r busy.fifo;
    unstopped = go_on_at-stop_flag n events ts r busy r.place r.tmp_tasks;
    unended = go_on_at-place n events ts r busy r.place r.tmp_tasks refl;
    enough = go_on_at-pushed n events ts r busy r.place r.tmp_tasks;
  }

  pub acts-IsBusy :
      (n : ℕ) (events : ℕ → FdEvent C) (actions : List (Action C)) (r : Running C)
      → All IsUnstopped actions
      → IsBusy n r
      → IsBusy n (acts events actions r)
  unfolding acts
  acts-IsBusy n events [] r u busy = busy
  acts-IsBusy n events (a ∷ actions) r (u, us) busy =
      acts-IsBusy n events actions (act events a r) us (act-IsBusy n events a r u busy)
