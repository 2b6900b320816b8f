-- ===== src/Timer/Again.antt =====
-- What Timer::onTimer of net/timer.cc runs and what is pending after it.
use talon_rpc.Prelude.{
  ℕ, ◌+◌, ◌<◌, ◌≡◌, refl, sym, ap, ◌∙◌, if◌then◌else◌, List, [], ◌∷◌, ◌++◌, ltb, leb, ◌==◌, Bool,
  true, false, inl, inr, Bool-cases, Option, none, some, Option-cases, All, arith,
}
use talon_rpc.Timer.{
  Pending, Timer, TimerEvent, emplace, again, reset_timer, add_again, on_timer, tasks_of, put_event,
  reset_event,
}
use talon_rpc.Timer.Deleted.{add_timer_event-events}
use talon_rpc.Timer.Order.{
  IsSorted, later_than, later_than_whole, later_than-IsSorted, AtLeast-lt, add_timer_event-pending,
  again-IsSorted, add_again-IsSorted, due, take_due_lem,
}

-- The entries that are not later than a key, and an entry put behind them.
abbrev pub up_to : ℕ → Pending → Pending
up_to key [] = []
up_to key ((k, e) ∷ pending) =
    let rest = up_to key pending in if leb k key then (k, e) ∷ rest else rest

abbrev pub placed : ℕ → ℕ → Pending → Pending
placed key event pending = up_to key pending ++ ((key, event) ∷ later_than key pending)

-- Each repeated event gets the place of its next time; the others are dropped.
abbrev pub readded : {C : Type 0} → ℕ → (ℕ → TimerEvent C) → List ℕ → Pending → Pending
readded now events [] pending = pending
readded now events (e ∷ es) pending =
    let next = placed (now + (events e).interval) e pending in
    readded now events es (if (events e).is_repeated then next else pending)

-- The callbacks of events, in their order; a null one runs nothing.
abbrev of_option : {C : Type 0} → Option C → List C
of_option none = []
of_option (some c) = c ∷ []

abbrev pub callbacks : {C : Type 0} → (ℕ → TimerEvent C) → List ℕ → List C
callbacks events [] = []
callbacks events (e ∷ es) = of_option (events e).task ++ callbacks events es

up_to_none : (key : ℕ) (pending : Pending) → All (λ p. key < p.0) pending → up_to key pending ≡ []
up_to_none key [] h = refl
up_to_none key ((k, e) ∷ pending) h =
    let b : leb k key ≡ false = ground (arith, h.0) in rw b (up_to_none key pending h.1)

emplace-placed :
    (key event : ℕ) (pending : Pending)
    → IsSorted pending
    → emplace key event pending ≡ placed key event pending
unfolding emplace
emplace-placed key event [] h = refl
emplace-placed key event ((k, e) ∷ pending) h = elim (Bool-cases (ltb key k)) [
  | inl b ↦
      let over : All (λ p. key < p.0) ((k, e) ∷ pending) =
        (ground (arith, b), AtLeast-lt key k pending (ground (arith, b)) h.0) in
      rw b (
        sym (
          ap (λ t. t ++ ((key, event) ∷ later_than key ((k, e) ∷ pending)))
            (up_to_none key ((k, e) ∷ pending) over)
          ∙ ap (λ t. (key, event) ∷ t) (later_than_whole key ((k, e) ∷ pending) over)))
  | inr b ↦
      let low : leb k key ≡ true = ground (arith, b) in
      rw (b, low) (ap (◌∷◌ (k, e)) (emplace-placed key event pending h.1))
]

module _ {C : Type 0} where
  tasks_of-callbacks :
      (events : ℕ → TimerEvent C) (es : List ℕ) → tasks_of events es ≡ callbacks events es
  unfolding tasks_of
  tasks_of-callbacks events [] = refl
  tasks_of-callbacks events (e ∷ es) = elim (Option-cases (events e).task) [
    | inl none_there ↦ rw (none_there, of_option, tasks_of) (tasks_of-callbacks events es)
    | inr (c, there) ↦ rw (there, of_option, tasks_of) (ap (◌∷◌ c) (tasks_of-callbacks events es))
  ]

  -- The interval and the repetition of an event never change.
  record IsLike (events : ℕ → TimerEvent C) (t : Timer C) : Type 0 where
    same_interval : (e : ℕ) → (t.events e).interval ≡ (events e).interval
    same_repeated : (e : ℕ) → (t.events e).is_repeated ≡ (events e).is_repeated

  again-IsLike :
      (b : Bool) (now tmp : ℕ) (events : ℕ → TimerEvent C) (t : Timer C)
      → IsLike events t
      → IsLike events (again b now tmp t)
  unfolding again
  again-IsLike false now tmp events t h = h
  again-IsLike true now tmp events t h =
      let changed = put_event tmp (reset_event now (t.events tmp)) t in
      record {
        same_interval = λ e.
            ap (λ es. (es e).interval) (add_timer_event-events now tmp changed)
            ∙ ground (arith, h.same_interval e, h.same_interval tmp);
        same_repeated = λ e.
            ap (λ es. (es e).is_repeated) (add_timer_event-events now tmp changed)
            ∙ ground (arith, h.same_repeated e, h.same_repeated tmp);
      }

  again-placed :
      (now tmp : ℕ) (t : Timer C)
      → IsSorted t.pending_events
      → (again true now tmp t).pending_events
        ≡ placed (now + (t.events tmp).interval) tmp t.pending_events
  unfolding again
  again-placed now tmp t h =
      let same : (tmp == tmp) ≡ true = ground arith in
      add_timer_event-pending now tmp (put_event tmp (reset_event now (t.events tmp)) t)
      ∙ rw same (emplace-placed (now + (t.events tmp).interval) tmp t.pending_events h)

  add_again-readded :
      (now : ℕ) (es : List ℕ) (events : ℕ → TimerEvent C) (t : Timer C)
      → IsLike events t
      → IsSorted t.pending_events
      → (add_again now es t).pending_events ≡ readded now events es t.pending_events
  unfolding add_again
  add_again-readded now [] events t l h = refl
  add_again-readded now (e ∷ es) events t l h = elim (Bool-cases (t.events e).is_repeated) [
    | inl b ↦
        let b' : (events e).is_repeated ≡ true = sym (l.same_repeated e) ∙ b in
        ap (λ r. (add_again now es (again r now e t)).pending_events) b
        ∙ rw b' (
            add_again-readded now es events (again true now e t)
              (again-IsLike true now e events t l) (again-IsSorted true now e t h)
            ∙ ap (readded now events es) (
                again-placed now e t h
                ∙ ap (λ i. placed (now + i) e t.pending_events) (l.same_interval e)))
    | inr b ↦
        let b' : (events e).is_repeated ≡ false = sym (l.same_repeated e) ∙ b in
        ap (λ r. (add_again now es (again r now e t)).pending_events) b
        ∙ rw (b', again) (add_again-readded now es events t l h)
  ]

  -- onTimer of a timer whose events are in order takes the callbacks of all events that are due at
  -- that time and not cancelled, in their order, and of no others, to run them at its end. What is
  -- pending then is what was not due, and each of these events that is repeated has been put in its
  -- place again, an interval after the time that is read then, behind the events of the same time;
  -- all are in order. Nobody else uses the timer meanwhile.
  pub on_timer_lem :
      (now after : ℕ) (t : Timer C)
      → IsSorted t.pending_events
      → ((on_timer now after t).0 ≡ callbacks t.events (due now t.events t.pending_events))
        × IsSorted (on_timer now after t).1.pending_events
        × ((on_timer now after t).1.pending_events
            ≡ readded after t.events
                (due now t.events t.pending_events)
                (later_than now t.pending_events))
  unfolding on_timer reset_timer
  on_timer_lem now after t h =
      let es = due now t.events t.pending_events in
      let left = later_than now t.pending_events in
      let rest = later_than-IsSorted now t.pending_events h in
      rw (take_due_lem now t.events t.pending_events h) (
        tasks_of-callbacks t.events es,
        add_again-IsSorted after es (record t { pending_events = left }) rest,
        add_again-readded after es t.events (record t { pending_events = left })
            (record { same_interval = λ e. refl; same_repeated = λ e. refl }) rest,
      )
