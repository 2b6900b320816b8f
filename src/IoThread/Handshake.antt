-- ===== src/IoThread/Handshake.antt =====
-- What the handshake of an IOThread makes sure of.
use talon_rpc.Prelude.{ℕ, suc, ◌+◌, ◌-◌, ◌<◌, ◌≤◌, ◌≡◌, refl, some, arith}
use talon_rpc.Prelude.Int.{pos}
use talon_rpc.IoThread.{
  MainPlace, absent, entered, has_loop, parked, looping, returned, MakerPlace, creating, made,
  Threads, Step, pthread_create, new_loop, set_id, post_init, wait_init, start, wait_start,
  loop_returns, Reach, here, next,
}

-- Main has made its loop; has written its id; has posted; has been started.
abbrev loop_set : MainPlace → ℕ
loop_set absent = 0
loop_set entered = 0
loop_set _ = 1

abbrev id_set : MainPlace → ℕ
id_set absent = 0
id_set entered = 0
id_set has_loop = 0
id_set _ = 1

abbrev posted : MainPlace → ℕ
posted parked = 1
posted looping = 1
posted returned = 1
posted _ = 0

abbrev pub started : MainPlace → ℕ
started looping = 1
started returned = 1
started _ = 0

abbrev is_made : MakerPlace → ℕ
is_made made = 1
is_made _ = 0

abbrev is_created : MakerPlace → ℕ
is_created creating = 0
is_created _ = 1

abbrev is_present : MainPlace → ℕ
is_present absent = 0
is_present _ = 1

-- What the members say about the two places.
record IsAgreed {L : Type 0} (event_loop : L) (id : ℕ) (s : Threads L) : Type 0 where
  created : is_present s.main ≡ is_created s.maker
  posts : s.io.init_semaphore + is_made s.maker ≡ posted s.main
  counts : s.io.start_semaphore + started s.main ≡ s.starts
  after_made : is_made s.maker ≡ 0 → s.starts ≡ 0
  loop_kept : loop_set s.main ≡ 1 → s.io.event_loop ≡ some event_loop
  id_kept : id_set s.main ≡ 1 → s.io.thread_id ≡ pos id

module _ {L : Type 0} {event_loop : L} {id : ℕ} where
  Step-IsAgreed :
      {s t : Threads L}
      → Step event_loop id s t
      → IsAgreed event_loop id s
      → IsAgreed event_loop id t
  Step-IsAgreed (pthread_create e) a = ground arith
  Step-IsAgreed (new_loop e) a = ground arith
  Step-IsAgreed (set_id e) a = ground arith
  Step-IsAgreed (post_init e) a = ground arith
  Step-IsAgreed (wait_init n e f) a = ground arith
  Step-IsAgreed (start e) a = ground arith
  Step-IsAgreed (wait_start n e f) a = ground arith
  Step-IsAgreed (loop_returns e) a = ground arith

  Reach-IsAgreed : {s : Threads L} → Reach event_loop id s → IsAgreed event_loop id s
  Reach-IsAgreed here = record {
    created = refl;
    posts = refl;
    counts = refl;
    after_made = λ e. refl;
    loop_kept = λ e. cc;
    id_kept = λ e. cc;
  }
  Reach-IsAgreed (next r st) = Step-IsAgreed st (Reach-IsAgreed r)

  -- In every state that the two threads reach, once the constructor has returned the object has the
  -- loop that Main has made and the id of its thread, so that getEventLoop never returns a null
  -- pointer and no later write of Main to these members can be missed; and Main is in the loop, or
  -- has left it, only after start() has been called.
  pub made_has_loop :
      {s : Threads L}
      → Reach event_loop id s
      → s.maker ≡ made
      → (s.io.event_loop ≡ some event_loop)
        × (s.io.thread_id ≡ pos id)
        × (started s.main ≤ s.starts)
  made_has_loop r e = let a = Reach-IsAgreed r in ground arith

  -- A call of start() is not lost, also if it comes before Main waits for it: in every state that the
  -- threads reach, if start() has been called and Main has not been started, then Main has posted its
  -- first semaphore and its next step leads into the loop.
  pub start_is_kept :
      {s : Threads L}
      → Reach event_loop id s
      → 0 < s.starts
      → started s.main ≡ 0
      → (t : Threads L) × Step event_loop id s t × (t.main ≡ looping) × (s.main ≡ parked)
  start_is_kept {s} r h e =
      let a = Reach-IsAgreed r in
      let full : s.io.start_semaphore ≡ suc (s.io.start_semaphore - 1) = ground arith in
      let at : s.main ≡ parked = ground arith in
      (_, wait_start (s.io.start_semaphore - 1) at full, refl, at)
