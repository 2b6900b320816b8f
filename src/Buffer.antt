-- ===== src/Buffer.antt =====
-- net/tcp/tcp_buffer.h and net/tcp/tcp_buffer.cc: the byte buffer of a connection.
-- The members m_read_index, m_write_index, m_size and m_buffer are the fields of `TcpBuffer`. The
-- indices are never negative (`IsValid` below), so they are natural numbers.
pub mod Contents
pub mod Writes
pub mod Reads
pub mod Queue
mod Runs
use talon_rpc.Prelude.{
  ℕ, ◌+◌, ◌-◌, ◌*◌, ◌/◌, ◌^◌, ◌<◌, ◌≤◌, List, [], ◌++◌, take, drop, length, replicate, min, ltb,
  leb, ◌==◌, if◌then◌else◌, Option, none, some,
}
use talon_rpc.Prelude.Outcome.{Outcome, ok, fault, require, ◌>>=◌, ◌>>◌}
use talon_rpc.Prelude.Int.{ℤ, pos, negsuc, ◌+ℤ◌}
use talon_rpc.Memory.{mem_read, mem_write}

pub record TcpBuffer : Type 0 where
  pub read_index : ℕ
  pub write_index : ℕ
  pub size : ℕ
  pub buffer : List ℕ

-- TcpBuffer(size)
unfoldable pub init : ℕ → TcpBuffer
init size = record { read_index = 0; write_index = 0; size = size; buffer = replicate size 0 }

abbrev pub read_able : TcpBuffer → ℕ
read_able b = b.write_index - b.read_index

abbrev pub write_able : TcpBuffer → ℕ
write_able b = length b.buffer - b.write_index

unfoldable pub resize_buffer : TcpBuffer → ℕ → Outcome TcpBuffer
resize_buffer b new_size = do
  let count = min new_size (read_able b)
  bytes ← mem_read b.buffer b.read_index count
  tmp ← mem_write (replicate new_size 0) 0 bytes
  ok (record b { buffer = tmp; read_index = 0; write_index = count })

-- `(int)(1.5 * (m_write_index + size))` is exact in a double, and must fit an int.
unfoldable pub write_to_buffer : TcpBuffer → List ℕ → Outcome TcpBuffer
write_to_buffer b buf = do
  let new_size = 3 * (b.write_index + length buf) / 2
  b' ←
      (if ltb (write_able b) (length buf)
        then (require (ltb new_size (2 ^ 31)) >> resize_buffer b new_size)
        else ok b)
  bytes ← mem_write b'.buffer b'.write_index buf
  ok (record b' { buffer = bytes; write_index = b'.write_index + length buf })

unfoldable pub adjust_buffer : TcpBuffer → Outcome TcpBuffer
adjust_buffer b = if ltb b.read_index (length b.buffer / 3) then ok b else do
  bytes ← mem_read b.buffer b.read_index (read_able b)
  tmp ← mem_write (replicate (length b.buffer) 0) 0 bytes
  ok (record b { buffer = tmp; read_index = 0; write_index = read_able b })

-- The bytes that replace the caller's vector, if the call does replace it, and the buffer after.
unfoldable pub read_from_buffer : TcpBuffer → ℕ → Outcome (Option (List ℕ) × TcpBuffer)
read_from_buffer b size = if read_able b == 0 then ok (none, b) else do
  let read_size = if ltb size (read_able b) then size else read_able b
  tmp ← mem_read b.buffer b.read_index read_size
  b' ← adjust_buffer (record b { read_index = b.read_index + read_size })
  ok (some tmp, b')

-- `size_t j = m_read_index + size`: a negative sum is a very large `size_t`. The test
-- `j >= m_buffer.size()` then holds.
unfoldable pub move_read_index_to : TcpBuffer → ℤ → Outcome TcpBuffer
move_read_index_to b (negsuc n) = ok b
move_read_index_to b (pos j) =
    if leb (length b.buffer) j then ok b else adjust_buffer (record b { read_index = j })

unfoldable pub move_read_index : TcpBuffer → ℤ → Outcome TcpBuffer
unfolding move_read_index_to
move_read_index b size = move_read_index_to b (pos b.read_index +ℤ size)

unfoldable pub move_write_index : TcpBuffer → ℕ → Outcome TcpBuffer
move_write_index b size =
    let j = b.write_index + size in
    if leb (length b.buffer) j then ok b else adjust_buffer (record b { write_index = j })

-- The bytes that are in the buffer and not yet read.
unfoldable pub contents : TcpBuffer → List ℕ
contents b = take (read_able b) (drop b.read_index b.buffer)

-- The indices are in order and within the vector.
abbrev pub IsValid : TcpBuffer → Type 0
IsValid b = (b.read_index ≤ b.write_index) × (b.write_index ≤ length b.buffer)
