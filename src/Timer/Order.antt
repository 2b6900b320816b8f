-- ===== src/Timer/Order.antt =====
-- The order of the pending events.
use talon_rpc.Prelude.{
  ℕ, ◌≤◌, ◌<◌, ◌≡◌, refl, ap, if◌then◌else◌, not, ◌&&◌, List, [], ◌∷◌, ltb, leb, ◌==◌, Bool, true,
  false, inl, inr, Bool-cases, All, arith,
}
use talon_rpc.Timer.{
  Pending, Timer, TimerEvent, emplace, erase_event, comes_first, add_timer_event,
  delete_timer_event, take_due, again, reset_timer, add_again, put_event, reset_event,
}

-- No key is above a later one.
abbrev pub AtLeast : ℕ → Pending → Type 0
AtLeast key = All (λ p. key ≤ p.0)

abbrev pub IsSorted : Pending → Type 0
IsSorted [] = Unit {0}
IsSorted ((key, event) ∷ pending) = AtLeast key pending × IsSorted pending

AtLeast-le : (j k : ℕ) (pending : Pending) → j ≤ k → AtLeast k pending → AtLeast j pending
AtLeast-le j k [] l h = tt
AtLeast-le j k (p ∷ pending) l h = (omega (arith, h.0), AtLeast-le j k pending l h.1)

emplace-AtLeast :
    (low key event : ℕ) (pending : Pending)
    → low ≤ key
    → AtLeast low pending
    → AtLeast low (emplace key event pending)
unfolding emplace
emplace-AtLeast low key event [] l h = (l, tt)
emplace-AtLeast low key event ((k, e) ∷ pending) l h = elim (Bool-cases (ltb key k)) [
  | inl b ↦ rw b (l, h)
  | inr b ↦ rw b (h.0, emplace-AtLeast low key event pending l h.1)
]

emplace-IsSorted :
    (key event : ℕ) (pending : Pending) → IsSorted pending → IsSorted (emplace key event pending)
unfolding emplace
emplace-IsSorted key event [] h = (tt, tt)
emplace-IsSorted key event ((k, e) ∷ pending) h = elim (Bool-cases (ltb key k)) [
  | inl b ↦ rw b ((ground arith, AtLeast-le key k pending (ground arith) h.0), h)
  | inr b ↦ rw b (
    emplace-AtLeast k key event pending (ground arith) h.0,
    emplace-IsSorted key event pending h.1,
  )
]

erase_event-AtLeast :
    (low key event : ℕ) (pending : Pending)
    → AtLeast low pending
    → AtLeast low (erase_event key event pending)
unfolding erase_event
erase_event-AtLeast low key event [] h = tt
erase_event-AtLeast low key event ((k, e) ∷ pending) h = elim (Bool-cases (k == key)) [
  | inl b ↦ elim (Bool-cases (e == event)) [
    | inl d ↦ rw (b, d) (h.1)
    | inr d ↦ rw (b, d) (h.0, erase_event-AtLeast low key event pending h.1)
  ]
  | inr b ↦ rw b (h.0, erase_event-AtLeast low key event pending h.1)
]

erase_event-IsSorted :
    (key event : ℕ) (pending : Pending)
    → IsSorted pending
    → IsSorted (erase_event key event pending)
unfolding erase_event
erase_event-IsSorted key event [] h = tt
erase_event-IsSorted key event ((k, e) ∷ pending) h = elim (Bool-cases (k == key)) [
  | inl b ↦ elim (Bool-cases (e == event)) [
    | inl d ↦ rw (b, d) (h.1)
    | inr d ↦
        rw (b, d)
          (erase_event-AtLeast k key event pending h.0, erase_event-IsSorted key event pending h.1)
  ]
  | inr b ↦
      rw b (erase_event-AtLeast k key event pending h.0, erase_event-IsSorted key event pending h.1)
]

-- What is left behind the due events.
abbrev pub later_than : ℕ → Pending → Pending
later_than now [] = []
later_than now ((key, event) ∷ pending) =
    let rest = later_than now pending in if leb key now then rest else (key, event) ∷ rest

later_than-AtLeast :
    (low now : ℕ) (pending : Pending) → AtLeast low pending → AtLeast low (later_than now pending)
later_than-AtLeast low now [] h = tt
later_than-AtLeast low now ((k, e) ∷ pending) h = elim (Bool-cases (leb k now)) [
  | inl b ↦ rw b (later_than-AtLeast low now pending h.1)
  | inr b ↦ rw b (h.0, later_than-AtLeast low now pending h.1)
]

pub later_than-IsSorted :
    (now : ℕ) (pending : Pending) → IsSorted pending → IsSorted (later_than now pending)
later_than-IsSorted now [] h = tt
later_than-IsSorted now ((k, e) ∷ pending) h = elim (Bool-cases (leb k now)) [
  | inl b ↦ rw b (later_than-IsSorted now pending h.1)
  | inr b ↦ rw b (later_than-AtLeast k now pending h.0, later_than-IsSorted now pending h.1)
]

pub later_than_whole :
    (now : ℕ) (pending : Pending) → All (λ p. now < p.0) pending → later_than now pending ≡ pending
later_than_whole now [] h = refl
later_than_whole now ((k, e) ∷ pending) h =
    let b : leb k now ≡ false = ground (arith, h.0) in
    rw b (ap (◌∷◌ (k, e)) (later_than_whole now pending h.1))

pub AtLeast-lt :
    (now k : ℕ) (pending : Pending) → now < k → AtLeast k pending → All (λ p. now < p.0) pending
AtLeast-lt now k [] l h = tt
AtLeast-lt now k (p ∷ pending) l h = (omega (arith, h.0), AtLeast-lt now k pending l h.1)

module _ {C : Type 0} where
  pub add_timer_event-pending :
      (now event : ℕ) (t : Timer C)
      → (add_timer_event now event t).pending_events
        ≡ emplace (t.events event).arrive_time event t.pending_events
  unfolding add_timer_event reset_timer
  add_timer_event-pending now event t = elim (Bool-cases (comes_first (t.events event) t)) [
    | inl b ↦ rw b
    | inr b ↦ rw b
  ]

  -- addTimerEvent and deleteTimerEvent keep the order.
  pub add_timer_event-IsSorted :
      (now event : ℕ) (t : Timer C)
      → IsSorted t.pending_events
      → IsSorted (add_timer_event now event t).pending_events
  add_timer_event-IsSorted now event t h =
      rw (add_timer_event-pending now event t) (emplace-IsSorted _ event t.pending_events h)

  pub delete_timer_event-IsSorted :
      (event : ℕ) (t : Timer C)
      → IsSorted t.pending_events
      → IsSorted (delete_timer_event event t).pending_events
  unfolding delete_timer_event
  delete_timer_event-IsSorted event t h = erase_event-IsSorted _ event t.pending_events h

  pub again-IsSorted :
      (b : Bool) (now tmp : ℕ) (t : Timer C)
      → IsSorted t.pending_events
      → IsSorted (again b now tmp t).pending_events
  unfolding again
  again-IsSorted true now tmp t h =
      add_timer_event-IsSorted now tmp (put_event tmp (reset_event now (t.events tmp)) t) h
  again-IsSorted false now tmp t h = h

  pub add_again-IsSorted :
      (now : ℕ) (tmps : List ℕ) (t : Timer C)
      → IsSorted t.pending_events
      → IsSorted (add_again now tmps t).pending_events
  unfolding add_again
  add_again-IsSorted now [] t h = h
  add_again-IsSorted now (tmp ∷ tmps) t h =
      add_again-IsSorted now tmps _ (again-IsSorted (t.events tmp).is_repeated now tmp t h)

  -- The pointers of the due events that are not cancelled.
  abbrev pub due : ℕ → (ℕ → TimerEvent C) → Pending → List ℕ
  due now events [] = []
  due now events ((key, event) ∷ pending) =
      let rest = due now events pending in
      if leb key now && not (events event).is_cancled then event ∷ rest else rest

  due-none :
      (now : ℕ) (events : ℕ → TimerEvent C) (pending : Pending)
      → All (λ p. now < p.0) pending
      → due now events pending ≡ []
  due-none now events [] h = refl
  due-none now events ((k, e) ∷ pending) h =
      let b : leb k now ≡ false = ground (arith, h.0) in rw b (due-none now events pending h.1)

  pub take_due_lem :
      (now : ℕ) (events : ℕ → TimerEvent C) (pending : Pending)
      → IsSorted pending
      → take_due now events pending ≡ (due now events pending, later_than now pending)
  unfolding take_due
  take_due_lem now events [] h = refl
  take_due_lem now events ((k, e) ∷ pending) h = elim (Bool-cases (leb k now)) [
    | inl b ↦ elim (Bool-cases (events e).is_cancled) [
      | inl d ↦ rw (take_due_lem now events pending h.1, b, d)
      | inr d ↦ rw (take_due_lem now events pending h.1, b, d)
    ]
    | inr b ↦
        let over = AtLeast-lt now k pending (ground arith) h.0 in
        rw (b, due-none now events pending over, later_than_whole now pending over)
  ]
