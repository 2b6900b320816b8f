-- ===== src/FdEvent/Runs.antt =====
-- The theorems on Fd_Event and FdEventGroup at concrete inputs. Callbacks are numbers here.
use talon_rpc.Prelude.{ℕ, ◌≡◌, refl, List, take, arith, length}
use talon_rpc.Prelude.Outcome.{ok}
use talon_rpc.FdEvent.{FdEvent}
use talon_rpc.FdEvent.Group.{init_group, get_fd_event, get_fd_event_lem, IsIndexedFrom}

get_fd_event_lem_example :
    (e : FdEvent ℕ) × (group' : List (FdEvent ℕ)) × (get_fd_event (init_group 4) 9 ≡ ok (e, group'))
    × (e.fd ≡ 9)
    × IsIndexedFrom 0 group'
    × (take (length {A = FdEvent ℕ} (init_group 4)) group' ≡ init_group 4)
unfolding init_group
get_fd_event_lem_example =
    get_fd_event_lem (init_group 4) 9 (refl, (refl, (refl, (refl, tt)))) (omega arith) (omega arith)
