-- ===== src/IoThreadGroup.antt =====
-- net/iothreadgroup.h and net/iothreadgroup.cc: the choice of an IO thread for a new connection.
-- A thread is a value of any type; Start has the constructor and start(). join(), which only waits, is
-- left out.
pub mod Start
pub mod Turns
mod Runs
use talon_rpc.Prelude.{
  ℕ, zero, suc, List, [], ◌∷◌, none, some, length, get_elem?, ◌==◌, if◌then◌else◌, Bool, true,
  false, Option,
}
use talon_rpc.Prelude.Int.{ℤ, pos, negsuc}
use talon_rpc.Prelude.Outcome.{Outcome, ok, or_fault, ◌>>=◌}

pub record IoThreadGroup (T : Type 0) : Type 0 where
  pub index : ℤ
  pub io_thread_groups : List T

-- m_index == (int) m_io_thread_groups.size() || m_index == -1
abbrev pub is_over : ℤ → ℕ → Bool
is_over (pos i) size = i == size
is_over (negsuc i) size = i == 0

-- The place in the vector; a negative one is out of bounds.
abbrev pub place : ℤ → Option ℕ
place (pos i) = some i
place (negsuc i) = none

module _ {T : Type 0} where
  unfoldable pub get_io_thread : IoThreadGroup T → Outcome (T × IoThreadGroup T)
  get_io_thread g = do
    let index = if is_over g.index (length g.io_thread_groups) then pos 0 else g.index
    i ← or_fault (place index)
    thread ← or_fault (get_elem? g.io_thread_groups i)
    ok (thread, record g { index = pos (suc i) })

  -- The thread that was given out last, changed by the one who has got it: the vector holds pointers.
  abbrev pub put_elem : List T → ℕ → T → List T
  put_elem [] i t = []
  put_elem (x ∷ xs) zero t = t ∷ xs
  put_elem (x ∷ xs) (suc i) t = x ∷ put_elem xs i t

  put_last_at : ℤ → T → List T → List T
  put_last_at (pos (suc i)) t threads = put_elem threads i t
  put_last_at _ t threads = threads

  unfoldable pub put_last : T → IoThreadGroup T → IoThreadGroup T
  unfolding put_last_at
  put_last t g = record g { io_thread_groups = put_last_at g.index t g.io_thread_groups }

  -- n calls, one after the other.
  unfoldable pub get_io_threads : ℕ → IoThreadGroup T → Outcome (List T × IoThreadGroup T)
  unfolding get_io_thread
  get_io_threads zero g = ok ([], g)
  get_io_threads (suc n) g = do
    (thread, g') ← get_io_thread g
    (threads, g'') ← get_io_threads n g'
    ok (thread ∷ threads, g'')
