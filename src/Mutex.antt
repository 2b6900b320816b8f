-- ===== src/Mutex.antt =====
-- common/mutex.h: a mutex and its guard.
-- A mutex is the thread that holds it. pthread_mutex_lock by a thread waits for a mutex that is held:
-- `stuck`; pthread_mutex_unlock by a thread that does not hold it is undefined.
pub mod Guard
mod Runs
use talon_rpc.Prelude.{ℕ, ◌==◌, if◌then◌else◌, Option, none, some, Bool, true, false}
use talon_rpc.Prelude.Outcome.{Outcome, ok, fault, stuck, ◌>>=◌}

-- The holder, if there is one.
abbrev pub Mutex : Type 0
Mutex = Option ℕ

unfoldable pub lock : ℕ → Mutex → Outcome Mutex
lock thread none = ok (some thread)
lock thread (some holder) = stuck

unfoldable pub unlock : ℕ → Mutex → Outcome Mutex
unlock thread none = fault
unlock thread (some holder) = if holder == thread then ok none else fault

-- A ScopeMutex: m_is_lock.
pub record ScopeMutex : Type 0 where
  pub is_lock : Bool

-- ScopeMutex(mutex)
unfoldable pub open_scope : ℕ → Mutex → Outcome (ScopeMutex × Mutex)
unfolding lock
open_scope thread m = do m' ← lock thread m; ok (record { is_lock = true }, m')

-- ~ScopeMutex()
unfoldable pub close_scope : ℕ → ScopeMutex → Mutex → Outcome Mutex
unfolding unlock
close_scope thread s m = unlock thread m

-- lock() and unlock() of the guard, which leave m_is_lock as it is.
unfoldable pub lock_scope : ℕ → ScopeMutex → Mutex → Outcome Mutex
unfolding lock
lock_scope thread s m = if s.is_lock then ok m else lock thread m

unfoldable pub unlock_scope : ℕ → ScopeMutex → Mutex → Outcome Mutex
unfolding unlock
unlock_scope thread s m = if s.is_lock then unlock thread m else ok m
