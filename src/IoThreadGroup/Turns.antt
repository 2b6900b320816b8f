-- ===== src/IoThreadGroup/Turns.antt =====
-- Every thread has its turn.
use talon_rpc.Prelude.{
  ℕ, zero, suc, ◌+◌, ◌<◌, ◌≤◌, ◌≡◌, refl, List, [], ◌∷◌, length, take, drop, get_elem?, ◌==◌, true,
  false, arith, some, get_elem?-some, ap, take_all, ◌∙◌, sym, ◌-◌, ◌⊎◌, inl, inr,
}
use talon_rpc.Prelude.Int.{ℤ, pos}
use talon_rpc.Prelude.Outcome.{ok}
use talon_rpc.IoThreadGroup.{IoThreadGroup, is_over, get_io_thread, get_io_threads}

module _ {T : Type 0} where
  abbrev at_index : ℤ → List T → IoThreadGroup T
  at_index index threads = record { index = index; io_thread_groups = threads }

  take-step :
      (n i : ℕ) (xs : List T) (x : T)
      → get_elem? xs i ≡ some x
      → take (suc n) (drop i xs) ≡ x ∷ take n (drop (suc i) xs)
  take-step n i [] x h = cc
  take-step n zero (y ∷ xs) x h = let e : y ≡ x = ground arith in ap (λ z. z ∷ take n xs) e
  take-step n (suc i) (y ∷ xs) x h = take-step n i xs x h

  -- Calls that do not reach the end of the vector.
  turns :
      (n i : ℕ) (threads : List T)
      → i + n ≤ length threads
      → get_io_threads n (at_index (pos i) threads)
        ≡ ok (take n (drop i threads), at_index (pos (i + n)) threads)
  unfolding get_io_threads get_io_thread
  turns zero i threads h = let e : i + 0 ≡ i = omega arith in rw e refl
  turns (suc n) i threads h =
      let inside : (i == length threads) ≡ false = ground arith in
      let (x, e) = get_elem?-some threads i (omega arith) in
      let e' : suc i + n ≡ i + suc n = omega arith in
      rw (inside, e, turns n (suc i) threads (omega arith), e', take-step n i threads x e)

  -- The states in which the next thread is the first one.
  abbrev pub IsAtStart : IoThreadGroup T → Type 0
  IsAtStart g = (g.index ≡ pos 0) ⊎ (is_over g.index (length g.io_thread_groups) ≡ true)

  first :
      (n : ℕ) (g : IoThreadGroup T)
      → IsAtStart g
      → is_over (pos 0) (length g.io_thread_groups) ≡ false
      → get_io_threads (suc n) g ≡ get_io_threads (suc n) (at_index (pos 0) g.io_thread_groups)
  unfolding get_io_threads get_io_thread
  first n g (inl h) k = rw h
  first n g (inr h) k = rw (h, k)

  -- A round of as many calls of getIOThread as there are threads gives every thread once, in their
  -- order, if the index is 0, -1 or the number of threads; after the round it is one of them again.
  pub get_io_threads-round :
      (g : IoThreadGroup T)
      → IsAtStart g
      → 0 < length g.io_thread_groups
      → (g' : IoThreadGroup T) × (get_io_threads (length g.io_thread_groups) g
          ≡ ok (g.io_thread_groups, g'))
        × IsAtStart g'
        × (g'.io_thread_groups ≡ g.io_thread_groups)
  get_io_threads-round g h some_left =
      let threads = g.io_thread_groups in
      let size = length threads in
      let inside : is_over (pos 0) size ≡ false = ground arith in
      let (n, e) : (n : ℕ) × (size ≡ suc n) = (size - 1, omega arith) in
      let start = first n g h inside in
      let run = turns size 0 threads (omega arith) in
      let whole : take size threads ≡ threads = take_all size threads (omega arith) in
      (
        at_index (pos (0 + size)) threads,
        ap (λ k. get_io_threads k g) e
            ∙ start
            ∙ ap (λ k. get_io_threads k (at_index (pos 0) threads)) (sym e)
            ∙ run
            ∙ ap (λ t. ok (t, at_index (pos (0 + size)) threads)) whole,
        inr (ground arith),
        refl,
      )
