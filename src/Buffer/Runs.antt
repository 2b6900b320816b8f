-- ===== src/Buffer/Runs.antt =====
-- Runs of the buffer, and its theorems at concrete inputs.
use talon_rpc.Prelude.{◌≤◌, ◌≡◌, refl, List, [], ◌∷◌, ◌++◌, arith, some, replicate}
use talon_rpc.Prelude.Outcome.{ok}
use talon_rpc.Memory.{mem_read, mem_write}
use talon_rpc.Buffer.{
  TcpBuffer, contents, init, resize_buffer, write_to_buffer, adjust_buffer, read_from_buffer,
}
use talon_rpc.Buffer.Contents.{Holds}
use talon_rpc.Buffer.Writes.{write_to_buffer_appends}
use talon_rpc.Buffer.Queue.{
  BufferCall, write_call, read_call, run_calls, queue_calls, run_calls-queue_calls,
}

-- Nine bytes, of which the first two are read and the next three are not.
abbrev half_full : TcpBuffer
half_full = record {
  read_index = 2;
  write_index = 5;
  size = 9;
  buffer = 1 ∷ 2 ∷ 3 ∷ 4 ∷ 5 ∷ 0 ∷ 0 ∷ 0 ∷ 0 ∷ [];
}

grows :
    write_to_buffer (init 2) (7 ∷ 8 ∷ 9 ∷ [])
    ≡ ok (record { read_index = 0; write_index = 3; size = 2; buffer = 7 ∷ 8 ∷ 9 ∷ 0 ∷ [] })
unfolding write_to_buffer resize_buffer init mem_read mem_write
grows = refl

reads_two :
    read_from_buffer half_full 2
    ≡ ok (
      some (3 ∷ 4 ∷ []),
      record { read_index = 0; write_index = 1; size = 9; buffer = 5 ∷ replicate 8 0 },
    )
unfolding read_from_buffer adjust_buffer mem_read mem_write
reads_two = refl

write_to_buffer_appends_example :
    (c : TcpBuffer) × (write_to_buffer half_full (6 ∷ 7 ∷ 8 ∷ 9 ∷ 10 ∷ []) ≡ ok c)
    × Holds (contents half_full ++ (6 ∷ 7 ∷ 8 ∷ 9 ∷ 10 ∷ [])) c
    × (c.write_index ≤ 10)
write_to_buffer_appends_example =
    write_to_buffer_appends half_full (6 ∷ 7 ∷ 8 ∷ 9 ∷ 10 ∷ []) (omega arith) (omega arith)

abbrev calls : List BufferCall
calls = read_call 2 ∷ write_call (6 ∷ 7 ∷ []) ∷ read_call 5 ∷ read_call 1 ∷ []

run_calls-queue_calls_example :
    (c : TcpBuffer) × (run_calls calls half_full
      ≡ ok ((queue_calls calls (contents half_full)).0, c))
    × Holds (queue_calls calls (contents half_full)).1 c
run_calls-queue_calls_example = run_calls-queue_calls calls half_full (omega arith) (omega arith)
