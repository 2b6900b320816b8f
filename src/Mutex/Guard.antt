-- ===== src/Mutex/Guard.antt =====
-- A guard that is unlocked before it is destroyed.
use talon_rpc.Prelude.{ℕ, ◌≡◌, ◌≢◌, refl, List, [], ◌∷◌, All, ◌==◌, none, some, true, false, arith}
use talon_rpc.Prelude.Outcome.{Outcome, ok, fault, ◌>>=◌, bind-ok}
use talon_rpc.Mutex.{Mutex, ScopeMutex, lock, unlock, open_scope, close_scope, unlock_scope}

-- What a thread does with the mutex.
pub data Use : Type 0 where
  locks unlocks : ℕ → Use

abbrev pub thread_of : Use → ℕ
thread_of (locks thread) = thread
thread_of (unlocks thread) = thread

unfoldable pub use_mutex : Use → Mutex → Outcome Mutex
use_mutex (locks thread) m = lock thread m
use_mutex (unlocks thread) m = unlock thread m

unfoldable pub use_all : List Use → Mutex → Outcome Mutex
unfolding use_mutex
use_all [] m = ok m
use_all (u ∷ us) m = do m' ← use_mutex u m; use_all us m'

abbrev IsNotHeldBy : ℕ → Mutex → Type 0
IsNotHeldBy thread m = m ≢ some thread

use_mutex-IsNotHeldBy :
    (thread : ℕ) (u : Use) (m m' : Mutex)
    → thread_of u ≢ thread
    → use_mutex u m ≡ ok m'
    → IsNotHeldBy thread m'
unfolding use_mutex lock unlock
use_mutex-IsNotHeldBy thread (locks t) none m' h e = λ k. ground arith
use_mutex-IsNotHeldBy thread (locks t) (some x) m' h e = cc
use_mutex-IsNotHeldBy thread (unlocks t) none m' h e = cc
use_mutex-IsNotHeldBy thread (unlocks t) (some x) m' h e = λ k. ground arith

use_all-IsNotHeldBy :
    (thread : ℕ) (us : List Use) (m m' : Mutex)
    → All (λ u. thread_of u ≢ thread) us
    → IsNotHeldBy thread m
    → use_all us m ≡ ok m'
    → IsNotHeldBy thread m'
unfolding use_all
use_all-IsNotHeldBy thread [] m m' h n e = λ k. n (ground (arith, e, k))
use_all-IsNotHeldBy thread (u ∷ us) m m' h n e =
    let (m1, e1, e2) = bind-ok (use_mutex u m) (use_all us) m' e in
    use_all-IsNotHeldBy thread us m1 m' h.1 (use_mutex-IsNotHeldBy thread u m m1 h.0 e1) e2

unlock_fails : (thread : ℕ) (m : Mutex) → IsNotHeldBy thread m → unlock thread m ≡ fault
unfolding unlock
unlock_fails thread none h = refl
unlock_fails thread (some x) h = let other : (x == thread) ≡ false = ground arith in rw other

-- A thread opens a guard on a free mutex, unlocks it through the guard, and other threads do with the
-- mutex what they want: then the guard's destructor unlocks a mutex that the thread does not hold, which
-- is undefined.
pub close_scope-early :
    (thread : ℕ) (us : List Use) (m' : Mutex)
    → All (λ u. thread_of u ≢ thread) us
    → use_all us none ≡ ok m'
    → (s : ScopeMutex) × (m : Mutex) × (open_scope thread none ≡ ok (s, m))
      × (unlock_scope thread s m ≡ ok none)
      × (close_scope thread s m' ≡ fault)
unfolding open_scope unlock_scope close_scope lock unlock
close_scope-early thread us m' h e = (
  record { is_lock = true },
  some thread,
  refl,
  ground arith,
  unlock_fails thread m' (use_all-IsNotHeldBy thread us none m' h (λ k. ground arith) e),
)
