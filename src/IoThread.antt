-- ===== src/IoThread.antt =====
-- net/iothread.h and net/iothread.cc: the handshake of the constructor of IOThread with the thread
-- that it creates, over two semaphores.
-- The thread `Main` and the thread that constructs and starts the object take steps in any order. A
-- step is one call, or one write to a member. What `new Eventloop()` makes is an argument.
pub mod Handshake
mod Runs
use talon_rpc.Prelude.{ℕ, suc, ◌+◌, ◌≡◌, ◌≢◌, Option, none, some}
use talon_rpc.Prelude.Int.{ℤ, pos, negsuc}

-- Where Main stands.
pub data MainPlace : Type 0 where
  absent : MainPlace  -- before pthread_create
  entered : MainPlace
  has_loop : MainPlace  -- m_event_loop is set
  has_id : MainPlace  -- m_thread_id is set
  parked : MainPlace  -- before sem_wait(&m_start_semaphore)
  looping : MainPlace  -- in m_event_loop->loop()
  returned : MainPlace

-- Where the constructor stands; `made` is after it has returned.
pub data MakerPlace : Type 0 where
  creating waiting made : MakerPlace

pub record IoThread (L : Type 0) : Type 0 where
  pub thread_id : ℤ
  pub event_loop : Option L
  pub init_semaphore : ℕ
  pub start_semaphore : ℕ

-- The object and the two threads. `starts` counts the calls of start().
pub record Threads (L : Type 0) : Type 0 where
  pub io : IoThread L
  pub main : MainPlace
  pub maker : MakerPlace
  pub starts : ℕ

-- sem_init of both semaphores, with 0.
abbrev pub fresh_thread : {L : Type 0} → IoThread L
fresh_thread = record {
  thread_id = negsuc 0;
  event_loop = none;
  init_semaphore = 0;
  start_semaphore = 0;
}

abbrev pub begin : {L : Type 0} → Threads L
begin = record { io = fresh_thread; main = absent; maker = creating; starts = 0 }

-- sem_wait goes on only if the semaphore is not 0.
pub data Step {L : Type 0} (event_loop : L) (id : ℕ) (s : Threads L) : Threads L → Type 0 where
  pthread_create :
      s.maker ≡ creating → Step event_loop id s (record s { maker = waiting; main = entered })
  new_loop :
      s.main ≡ entered
      → Step event_loop id s
          (record s { io = record s.io { event_loop = some event_loop }; main = has_loop })
  set_id :
      s.main ≡ has_loop
      → Step event_loop id s (record s { io = record s.io { thread_id = pos id }; main = has_id })
  post_init :
      s.main ≡ has_id
      → Step event_loop id s (record s {
        io = record s.io { init_semaphore = suc s.io.init_semaphore };
        main = parked;
      })
  wait_init :
      (n : ℕ)
      → s.maker ≡ waiting
      → s.io.init_semaphore ≡ suc n
      → Step event_loop id s (record s { io = record s.io { init_semaphore = n }; maker = made })
  start :
      s.maker ≡ made
      → Step event_loop id s (record s {
        io = record s.io { start_semaphore = suc s.io.start_semaphore };
        starts = suc s.starts;
      })
  wait_start :
      (n : ℕ)
      → s.main ≡ parked
      → s.io.start_semaphore ≡ suc n
      → Step event_loop id s (record s { io = record s.io { start_semaphore = n }; main = looping })
  loop_returns : s.main ≡ looping → Step event_loop id s (record s { main = returned })

pub data Reach {L : Type 0} (event_loop : L) (id : ℕ) : Threads L → Type 0 where
  here : Reach event_loop id begin
  next : {s t : Threads L} → Reach event_loop id s → Step event_loop id s t → Reach event_loop id t
