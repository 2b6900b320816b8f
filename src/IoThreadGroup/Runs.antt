-- ===== src/IoThreadGroup/Runs.antt =====
-- Three threads and the index of a new group.
use talon_rpc.Prelude.{ℕ, ◌≡◌, refl, [], ◌∷◌, inl, arith}
use talon_rpc.Prelude.Int.{pos}
use talon_rpc.Prelude.Outcome.{ok}
use talon_rpc.IoThreadGroup.{IoThreadGroup, get_io_threads}
use talon_rpc.IoThreadGroup.Turns.{IsAtStart, get_io_threads-round}

abbrev group : IoThreadGroup ℕ
group = record { index = pos 0; io_thread_groups = 11 ∷ 12 ∷ 13 ∷ [] }

get_io_threads-round_example :
    (g' : IoThreadGroup ℕ) × (get_io_threads 3 group ≡ ok (11 ∷ 12 ∷ 13 ∷ [], g'))
    × IsAtStart g'
    × (g'.io_thread_groups ≡ 11 ∷ 12 ∷ 13 ∷ [])
get_io_threads-round_example = get_io_threads-round group (inl refl) (omega arith)
