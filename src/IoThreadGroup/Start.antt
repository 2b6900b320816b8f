-- ===== src/IoThreadGroup/Start.antt =====
-- The constructor and start() of net/iothreadgroup.cc, on the threads of net/iothread.cc.
use talon_rpc.Prelude.{ℕ, zero, suc, List, [], ◌∷◌, length, ◌≡◌, refl, ap}
use talon_rpc.Prelude.Int.{ℤ, pos, negsuc}
use talon_rpc.Prelude.Outcome.{Outcome, ok, uncaught}
use talon_rpc.IoThread.{IoThread}
use talon_rpc.IoThreadGroup.{IoThreadGroup}

module _ {T : Type 0} where
  -- `new IOThread()` for each place of the vector from `i` on, `n` of them.
  unfoldable pub new_threads : (ℕ → T) → ℕ → ℕ → List T
  new_threads new_thread zero i = []
  new_threads new_thread (suc n) i = new_thread i ∷ new_threads new_thread n (suc i)

  -- IOThreadGroup(size): resize throws on a negative size.
  unfoldable pub new_group : (ℕ → T) → ℤ → Outcome (IoThreadGroup T)
  unfolding new_threads
  new_group new_thread (negsuc n) = uncaught
  new_group new_thread (pos size) =
      ok (record { index = pos 0; io_thread_groups = new_threads new_thread size 0 })

  pub length-new_threads : (new_thread : ℕ → T) (n i : ℕ) → length (new_threads new_thread n i) ≡ n
  unfolding new_threads
  length-new_threads new_thread zero i = refl
  length-new_threads new_thread (suc n) i = ap suc (length-new_threads new_thread n (suc i))

-- start() of each thread: its semaphore is posted.
unfoldable pub start_threads : {L : Type 0} → List (IoThread L) → List (IoThread L)
start_threads [] = []
start_threads (t ∷ threads) =
    record t { start_semaphore = suc t.start_semaphore } ∷ start_threads threads

unfoldable pub start_group : {L : Type 0} → IoThreadGroup (IoThread L) → IoThreadGroup (IoThread L)
unfolding start_threads
start_group g = record g { io_thread_groups = start_threads g.io_thread_groups }
