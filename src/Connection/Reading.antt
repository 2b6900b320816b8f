-- ===== src/Connection/Reading.antt =====
-- The loop of onRead on bytes that fit the room of the buffer.
use talon_rpc.Prelude.{
  ℕ, ◌+◌, ◌<◌, ◌≤◌, ◌≡◌, List, ◌∷◌, ◌++◌, length, leb, ◌==◌, true, false, arith,
}
use talon_rpc.Prelude.Outcome.{ok}
use talon_rpc.Memory.{mem_write_lem, length-overwrite}
use talon_rpc.Buffer.{TcpBuffer, IsValid, contents, write_able, move_write_index}
use talon_rpc.Buffer.Contents.{Holds}
use talon_rpc.Buffer.Writes.{received, move_write_index_appends, move_write_index_full}
use talon_rpc.Connection.Loops.{ReadResult, bytes, read_again, make_room, receive, read_loop}

make_room_lem : (b : TcpBuffer) → 0 < write_able b → make_room b ≡ ok b
unfolding make_room
make_room_lem b h = let e : (write_able b == 0) ≡ false = ground arith in rw e

receive_lem :
    (s : List ℕ) (b : TcpBuffer)
    → IsValid b
    → b.write_index + length s ≤ length b.buffer
    → receive s b ≡ move_write_index (received b s) (length s)
unfolding receive
receive_lem s b v h = rw (mem_write_lem b.buffer b.write_index s h)

-- Bytes that arrive in one read() and leave room in the buffer are behind the unread bytes when the
-- loop of onRead ends, which it does after that call.
pub read_loop-appends :
    (x : ℕ) (s : List ℕ) (results : List ReadResult) (b : TcpBuffer)
    → IsValid b
    → length (x ∷ s) < write_able b
    → (c : TcpBuffer) × (read_loop (bytes (x ∷ s) ∷ results) b ≡ ok (false, c))
      × Holds (contents b ++ (x ∷ s)) c
unfolding read_loop
read_loop-appends x s results b v h =
    let (c, e, held, open_c) = move_write_index_appends b (x ∷ s) v (omega arith) in
    let asked : leb (length (x ∷ s)) (write_able b) ≡ true = ground arith in
    let short : (length (x ∷ s) == write_able b) ≡ false = ground arith in
    (
      c,
      rw (make_room_lem b (omega arith), asked, receive_lem (x ∷ s) b v (omega arith), e, short),
      held,
    )

-- Bytes that arrive in one read() and fill the buffer are lost: the loop goes on to the next read(), and
-- if that one has nothing, onRead ends with the unread bytes it began with.
pub read_loop-loses :
    (x : ℕ) (s : List ℕ) (results : List ReadResult) (b : TcpBuffer)
    → IsValid b
    → length (x ∷ s) ≡ write_able b
    → (c : TcpBuffer) × (read_loop (bytes (x ∷ s) ∷ read_again ∷ results) b ≡ ok (false, c))
      × Holds (contents b) c
unfolding read_loop
read_loop-loses x s results b v h =
    let (c, e, held) = move_write_index_full b (x ∷ s) v (omega arith) in
    let l = length-overwrite b.buffer b.write_index (x ∷ s) (omega arith) in
    let outside : leb (length (received b (x ∷ s)).buffer) (b.write_index + length (x ∷ s)) ≡ true =
      ground (arith, l) in
    let stays : move_write_index (received b (x ∷ s)) (length (x ∷ s)) ≡ ok (received b (x ∷ s)) =
      unfold move_write_index in rw outside in
    let same : c ≡ received b (x ∷ s) = ground (arith, e, stays) in
    let room : make_room c ≡ ok c =
      rw same (make_room_lem (received b (x ∷ s)) (omega (arith, l))) in
    let asked : leb (length (x ∷ s)) (write_able b) ≡ true = ground arith in
    let filled : (length (x ∷ s) == write_able b) ≡ true = ground arith in
    (
      c,
      rw (
        make_room_lem b (omega arith),
        asked,
        receive_lem (x ∷ s) b v (omega arith),
        e,
        filled,
        room,
      ),
      held,
    )
