-- ===== src/Connection/Loops.antt =====
-- The loops of onRead and onWrite in net/tcp/tcp_connection.cc around read() and write(), whose
-- results are an argument: a list with one result for each call.
use talon_rpc.Prelude.{
  ℕ, ◌*◌, ◌^◌, List, [], ◌∷◌, ◌++◌, take, length, ltb, leb, ◌==◌, if◌then◌else◌, Bool, true, false,
}
use talon_rpc.Prelude.Outcome.{Outcome, ok, stuck, require, ◌>>=◌, ◌>>◌}
use talon_rpc.Memory.{mem_read, mem_write}
use talon_rpc.Buffer.{TcpBuffer, read_able, write_able, resize_buffer, move_write_index}

-- One call of read(): the bytes that it delivers (none at the end of the stream), -1 with EAGAIN, or -1
-- with another error. One call of write(): the number of bytes taken, or an error.
pub data ReadResult : Type 0 where
  bytes : List ℕ → ReadResult
  read_again read_failed : ReadResult

pub data WriteResult : Type 0 where
  written : ℕ → WriteResult
  write_again write_failed : WriteResult

-- if (writeAble() == 0) resizeBuffer(2 * m_buffer.size()), whose argument must fit an int.
unfoldable pub make_room : TcpBuffer → Outcome TcpBuffer
make_room b =
    if write_able b == 0
    then (require (ltb (2 * length b.buffer) (2 ^ 31)) >> resize_buffer b (2 * length b.buffer))
    else ok b

-- The bytes that read() puts behind the write index, and the move of the index.
unfoldable pub receive : List ℕ → TcpBuffer → Outcome TcpBuffer
receive s b = do
  buffer ← mem_write b.buffer b.write_index s
  move_write_index (record b { buffer = buffer }) (length s)

-- The loop of onRead, with is_close; read() gives no more bytes than asked for. No result left: the
-- loop calls read() again.
unfoldable pub read_loop : List ReadResult → TcpBuffer → Outcome (Bool × TcpBuffer)
unfolding make_room receive
read_loop [] b = stuck
read_loop (bytes [] ∷ results) b = do b' ← make_room b; ok (true, b')
read_loop (bytes (c ∷ s) ∷ results) b = do
  b' ← make_room b
  require (leb (length (c ∷ s)) (write_able b'))
  b'' ← receive (c ∷ s) b'
  let rest = read_loop results b''
  if length (c ∷ s) == write_able b' then rest else ok (false, b'')
read_loop (read_again ∷ results) b = do b' ← make_room b; ok (false, b')
read_loop (read_failed ∷ results) b = do b' ← make_room b; read_loop results b'

-- The loop of onWrite on the bytes that are unread in m_out_buffer, which write() is given at each
-- call: is_write_all, and the bytes that the peer gets. write() takes no more than it is given.
unfoldable pub write_calls : List WriteResult → List ℕ → Outcome (Bool × List ℕ)
write_calls [] unread = stuck
write_calls (written n ∷ results) unread = do
  require (leb n (length unread))
  let rest = write_calls results unread
  if leb (length unread) n
      then ok (true, unread)
      else do (all, sent) ← rest; ok (all, take n unread ++ sent)
write_calls (write_again ∷ results) unread = ok (false, [])
write_calls (write_failed ∷ results) unread = write_calls results unread

unfoldable pub write_loop : List WriteResult → TcpBuffer → Outcome (Bool × List ℕ)
unfolding write_calls
write_loop results b =
    if read_able b == 0
    then ok (true, [])
    else (do unread ← mem_read b.buffer b.read_index (read_able b); write_calls results unread)
