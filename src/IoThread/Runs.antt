-- ===== src/IoThread/Runs.antt =====
-- A thread with the id 7, whose loop is the number 3, started once.
use talon_rpc.Prelude.{ℕ, ◌≡◌, ◌≤◌, refl, some, arith}
use talon_rpc.Prelude.Int.{pos}
use talon_rpc.IoThread.{
  Threads, made, parked, looping, Step, pthread_create, new_loop, set_id, post_init, wait_init,
  start, Reach, here, next,
}
use talon_rpc.IoThread.Handshake.{started, made_has_loop, start_is_kept}

abbrev loop_object : ℕ
loop_object = 3

abbrev last : Threads ℕ
last = record {
  io = record {
    thread_id = pos 7;
    event_loop = some loop_object;
    init_semaphore = 0;
    start_semaphore = 1;
  };
  main = parked;
  maker = made;
  starts = 1;
}

-- The constructor waits before Main posts, and start() comes before Main waits for it.
reached : Reach loop_object 7 last
reached =
    next
      (next
        (next (next (next (next here (pthread_create refl)) (new_loop refl)) (set_id refl))
          (post_init refl))
        (wait_init 0 refl refl))
      (start refl)

made_has_loop_example :
    (last.io.event_loop ≡ some loop_object)
    × (last.io.thread_id ≡ pos 7)
    × (started last.main ≤ last.starts)
made_has_loop_example = made_has_loop reached refl

start_is_kept_example :
    (t : Threads ℕ) × Step loop_object 7 last t × (t.main ≡ looping) × (last.main ≡ parked)
start_is_kept_example = start_is_kept reached (omega arith) refl
