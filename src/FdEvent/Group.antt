-- ===== src/FdEvent/Group.antt =====
-- FdEventGroup: one Fd_Event for each descriptor, in a vector that grows.
use talon_rpc.Prelude.{
  ℕ, zero, suc, ◌+◌, ◌-◌, ◌*◌, ◌/◌, ◌^◌, ◌<◌, ◌≤◌, ◌≡◌, refl, ap, inl, inr, Bool-cases, take,
  take_all, take-append, length-append, get_elem?-some, lt→ltb, List, [], ◌∷◌, ◌++◌, length,
  get_elem?, ltb, if◌then◌else◌, some, arith,
}
use talon_rpc.Prelude.Outcome.{Outcome, ok, require, or_fault, ◌>>=◌, ◌>>◌}
use talon_rpc.FdEvent.{FdEvent, new_event}

module _ {ℓ} {C : Type ℓ} where
  -- The events with descriptors i, i + 1, … of a loop that runs n times.
  new_events : ℕ → ℕ → List (FdEvent C)
  new_events zero i = []
  new_events (suc n) i = new_event i ∷ new_events n (i + 1)

  -- FdEventGroup(size)
  unfoldable pub init_group : ℕ → List (FdEvent C)
  unfolding new_events
  init_group size = new_events size 0

  -- The vector after the call; the pointer returned is to its element at `fd`. `int(fd * 1.5)` must
  -- fit an int.
  unfoldable pub get_fd_event : List (FdEvent C) → ℕ → Outcome (FdEvent C × List (FdEvent C))
  unfolding new_events
  get_fd_event group fd = do
    let new_size = fd * 3 / 2
    group' ←
        (if ltb fd (length group)
          then ok group
          else (require (ltb new_size (2 ^ 31))
              >> ok (group ++ new_events (new_size - length group) (length group))))
    e ← or_fault (get_elem? group' fd)
    ok (e, group')

  -- Each element is of the descriptor that is its place in the vector, counted from i.
  abbrev pub IsIndexedFrom : ℕ → List (FdEvent C) → Type 0
  IsIndexedFrom i [] = Unit {0}
  IsIndexedFrom i (e ∷ group) = (e.fd ≡ i) × IsIndexedFrom (i + 1) group

module _ (C : Type 0) where
  new_events-IsIndexedFrom : (n i : ℕ) → IsIndexedFrom i (new_events {C = C} n i)
  unfolding new_events
  new_events-IsIndexedFrom zero i = tt
  new_events-IsIndexedFrom (suc n) i = (refl, new_events-IsIndexedFrom n (i + 1))

  length-new_events : (n i : ℕ) → length {A = FdEvent C} (new_events n i) ≡ n
  unfolding new_events
  length-new_events zero i = refl
  length-new_events (suc n) i = ap suc (length-new_events n (i + 1))

module _ {C : Type 0} where
  append-IsIndexedFrom :
      (group : List (FdEvent C)) (n i k : ℕ)
      → k ≡ i + length group
      → IsIndexedFrom i group
      → IsIndexedFrom i (group ++ new_events n k)
  append-IsIndexedFrom [] n i k e h =
      let e' : k ≡ i = omega arith in rw e' (new_events-IsIndexedFrom C n i)
  append-IsIndexedFrom (x ∷ group) n i k e h =
      (h.0, append-IsIndexedFrom group n (i + 1) k (omega arith) h.1)

  get_elem?-fd :
      (group : List (FdEvent C)) (i j : ℕ) (e : FdEvent C)
      → IsIndexedFrom i group
      → get_elem? group j ≡ some e
      → e.fd ≡ i + j
  get_elem?-fd [] i j e h g = cc
  get_elem?-fd (x ∷ group) i zero e h g = ground arith
  get_elem?-fd (x ∷ group) i (suc j) e h g = omega (arith, get_elem?-fd group (i + 1) j e h.1 g)

  -- The vector after getFdEvent: as it was, or longer than the descriptor.
  grown : List (FdEvent C) → ℕ → List (FdEvent C)
  grown group fd =
      if ltb fd (length group)
      then group
      else (group ++ new_events (fd * 3 / 2 - length group) (length group))

  grown_lem :
      (group : List (FdEvent C)) (fd : ℕ)
      → IsIndexedFrom 0 group
      → 2 ≤ length group
      → IsIndexedFrom 0 (grown group fd)
        × (fd < length (grown group fd))
        × (take (length group) (grown group fd) ≡ group)
  unfolding grown
  grown_lem group fd h two = elim (Bool-cases (ltb fd (length group))) [
    | inl e ↦ rw e (h, ground arith, take_all (length group) group (omega arith))
    | inr e ↦
        let n = fd * 3 / 2 - length group in
        let more : List (FdEvent C) = new_events n (length group) in
        rw e (
          append-IsIndexedFrom group n 0 (length group) (omega arith) h,
          ground (arith, length-append group more, length-new_events C n (length group)),
          take-append (length group) group more refl,
        )
  ]

  grown_run :
      (group : List (FdEvent C)) (fd : ℕ)
      → fd * 3 / 2 < 2 ^ 31
      → (if ltb fd (length group)
          then ok group
          else (require (ltb (fd * 3 / 2) (2 ^ 31))
              >> ok (group ++ new_events (fd * 3 / 2 - length group) (length group))))
        ≡ ok (grown group fd)
  unfolding grown
  grown_run group fd small = elim (Bool-cases (ltb fd (length group))) [
    | inl e ↦ rw e
    | inr e ↦ rw (e, lt→ltb _ _ small)
  ]

  -- getFdEvent returns the object of the descriptor asked for, in a table of two or more, and keeps
  -- the objects that the table has. What it adds is again one object for each descriptor.
  pub get_fd_event_lem :
      (group : List (FdEvent C)) (fd : ℕ)
      → IsIndexedFrom 0 group
      → 2 ≤ length group
      → fd * 3 / 2 < 2 ^ 31
      → (e : FdEvent C) × (group' : List (FdEvent C)) × (get_fd_event group fd ≡ ok (e, group'))
        × (e.fd ≡ fd)
        × IsIndexedFrom 0 group'
        × (take (length group) group' ≡ group)
  unfolding get_fd_event
  get_fd_event_lem group fd h two small =
      let (indexed, room, kept) = grown_lem group fd h two in
      let (e, at) = get_elem?-some (grown group fd) fd room in
      (
        e,
        grown group fd,
        rw (grown_run group fd small, at),
        omega (arith, get_elem?-fd (grown group fd) 0 fd e indexed at),
        indexed,
        kept,
      )
