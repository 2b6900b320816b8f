-- ===== src/Mutex/Runs.antt =====
-- Thread 1 opens the guard, and thread 2 locks the mutex after thread 1 has unlocked it.
use talon_rpc.Prelude.{◌≡◌, refl, [], ◌∷◌, none, some, arith}
use talon_rpc.Prelude.Outcome.{ok, fault}
use talon_rpc.Mutex.{Mutex, ScopeMutex, lock, open_scope, close_scope, unlock_scope}
use talon_rpc.Mutex.Guard.{locks, use_mutex, use_all, close_scope-early}

close_scope-early_example :
    (s : ScopeMutex) × (m : Mutex) × (open_scope 1 none ≡ ok (s, m))
    × (unlock_scope 1 s m ≡ ok none)
    × (close_scope 1 s (some 2) ≡ fault)
unfolding use_all use_mutex lock
close_scope-early_example = close_scope-early 1 (locks 2 ∷ []) (some 2) (omega arith, tt) refl
