-- ===== src/Buffer/Writes.antt =====
-- What goes into the buffer: writeToBuffer, resizeBuffer, and moveWriteIndex after a read of the
-- socket has put bytes behind the write index.
use talon_rpc.Prelude.{
  ℕ, ◌+◌, ◌*◌, ◌/◌, ◌^◌, ◌≤◌, ◌<◌, ◌≡◌, refl, ◌∙◌, inl, inr, List, ◌++◌, take, length, leb, ltb,
  if◌then◌else◌, arith, length-take, length-append, append_assoc, take-append, drop-append_left,
  drop-take, true, false, Bool-cases, lt→ltb,
}
use talon_rpc.Prelude.Outcome.{ok, ◌>>=◌}
use talon_rpc.Memory.{mem_write, mem_write_lem, overwrite, length-overwrite}
use talon_rpc.Buffer.Contents.{
  length-contents, IsSame, Holds, compact, compact-IsSame, length-compact, resize_buffer_lem,
  adjust_buffer_lem,
}
use talon_rpc.Buffer.{
  TcpBuffer, IsValid, contents, read_able, write_able, write_to_buffer, move_write_index,
}

-- Bytes copied to the write index, and the index moved behind them.
abbrev pub put : TcpBuffer → List ℕ → TcpBuffer
put b bytes = record b {
  buffer = overwrite b.buffer b.write_index bytes;
  write_index = b.write_index + length bytes;
}

module _ (b : TcpBuffer) (bytes : List ℕ) (v : IsValid b)
    (room : b.write_index + length bytes ≤ length b.buffer) where
  put-IsValid : IsValid (put b bytes)
  put-IsValid = omega (arith, length-overwrite b.buffer b.write_index bytes)

  put-contents : contents (put b bytes) ≡ contents b ++ bytes
  unfolding contents
  put-contents =
      rw
        (
          drop-append_left b.read_index (take b.write_index b.buffer) _
              (omega (arith, length-take b.write_index b.buffer)),
          drop-take b.read_index b.write_index (read_able b) b.buffer refl,
          ← append_assoc (contents b) bytes _,
        )
        (take-append _ (contents b ++ bytes) _
          (omega (arith, length-append (contents b) bytes, length-contents b v)))

pub put-Holds :
    (b : TcpBuffer) (bytes : List ℕ)
    → IsValid b
    → b.write_index + length bytes ≤ length b.buffer
    → Holds (contents b ++ bytes) (put b bytes)
put-Holds b bytes v room = record {
  valid = put-IsValid b bytes v room;
  unread = put-contents b bytes v room;
}

-- The last two lines of writeToBuffer.
fill :
    (b : TcpBuffer) (buf : List ℕ)
    → b.write_index + length buf ≤ length b.buffer
    → (mem_write b.buffer b.write_index buf >>= λ bytes.
        ok (record b { buffer = bytes; write_index = b.write_index + length buf }))
      ≡ ok (put b buf)
fill b buf room = rw (mem_write_lem b.buffer b.write_index buf room)

-- The vector that writeToBuffer copies into: a larger one where the bytes do not fit.
abbrev grown : TcpBuffer → List ℕ → TcpBuffer
grown b buf =
    if ltb (write_able b) (length buf) then compact b (3 * (b.write_index + length buf) / 2) else b

grown_lem :
    (b : TcpBuffer) (buf : List ℕ)
    → IsValid b
    → IsSame b (grown b buf)
      × ((grown b buf).write_index + length buf ≤ length (grown b buf).buffer)
      × ((grown b buf).write_index ≤ b.write_index)
grown_lem b buf v = elim (Bool-cases (ltb (write_able b) (length buf))) [
  | inl e ↦
      let n = 3 * (b.write_index + length buf) / 2 in
      rw e (
        compact-IsSame b n v (omega arith),
        omega (arith, length-compact b n v (omega arith)),
        omega arith,
      )
  | inr e ↦ rw e (
    record { valid = v; unread = refl; readable = refl; low = omega arith },
    ground arith,
    omega arith,
  )
]

write_to_buffer_lem :
    (b : TcpBuffer) (buf : List ℕ)
    → IsValid b
    → 3 * (b.write_index + length buf) / 2 < 2 ^ 31
    → write_to_buffer b buf ≡ ok (put (grown b buf) buf)
unfolding write_to_buffer
write_to_buffer_lem b buf v fits = elim (Bool-cases (ltb (write_able b) (length buf))) [
  | inl e ↦
      let n = 3 * (b.write_index + length buf) / 2 in
      rw (e, lt→ltb _ _ fits, resize_buffer_lem b n v (omega arith))
        (fill (compact b n) buf (omega (arith, length-compact b n v (omega arith))))
  | inr e ↦ rw e (fill b buf (ground arith))
]

-- writeToBuffer appends the bytes to what is unread. It grows the vector where they do not fit, and
-- the copy is then within bounds. The new size must fit an int.
pub write_to_buffer_appends :
    (b : TcpBuffer) (buf : List ℕ)
    → IsValid b
    → 3 * (b.write_index + length buf) / 2 < 2 ^ 31
    → (c : TcpBuffer) × (write_to_buffer b buf ≡ ok c)
      × Holds (contents b ++ buf) c
      × (c.write_index ≤ b.write_index + length buf)
write_to_buffer_appends b buf v fits =
    let (same, room, low) = grown_lem b buf v in
    let held = put-Holds (grown b buf) buf same.valid room in
    (
      put (grown b buf) buf,
      write_to_buffer_lem b buf v fits,
      record { valid = held.valid; unread = rw same.unread at held.unread },
      omega arith,
    )

-- Bytes that read() has put behind the write index.
abbrev pub received : TcpBuffer → List ℕ → TcpBuffer
received b bytes = record b { buffer = overwrite b.buffer b.write_index bytes }

received-contents :
    (b : TcpBuffer) (bytes : List ℕ) → IsValid b → contents (received b bytes) ≡ contents b
unfolding contents
received-contents b bytes v =
    rw
      (
        drop-append_left b.read_index (take b.write_index b.buffer) _
            (omega (arith, length-take b.write_index b.buffer)),
        drop-take b.read_index b.write_index (read_able b) b.buffer refl,
      )
      (take-append _ (contents b) _ (omega (arith, length-contents b v)))

-- moveWriteIndex takes the bytes in that read() has put behind the write index, if they do not fill
-- the vector to its end.
pub move_write_index_appends :
    (b : TcpBuffer) (bytes : List ℕ)
    → IsValid b
    → b.write_index + length bytes < length b.buffer
    → (c : TcpBuffer) × (move_write_index (received b bytes) (length bytes) ≡ ok c)
      × Holds (contents b ++ bytes) c
      × (c.write_index < length c.buffer)
unfolding move_write_index
move_write_index_appends b bytes v room =
    let l = length-overwrite b.buffer b.write_index bytes (omega arith) in
    let held = put-Holds b bytes v (omega arith) in
    let (c, e, same, size) = adjust_buffer_lem (put b bytes) held.valid in
    let inside : leb (length (received b bytes).buffer) (b.write_index + length bytes) ≡ false =
      ground (arith, l) in
    (
      c,
      rw inside e,
      record { valid = same.valid; unread = same.unread ∙ held.unread },
      omega (arith, same.low, size, l),
    )

-- Bytes that fill the vector to its end are lost: moveWriteIndex refuses to take them in.
pub move_write_index_full :
    (b : TcpBuffer) (bytes : List ℕ)
    → IsValid b
    → b.write_index + length bytes ≡ length b.buffer
    → (c : TcpBuffer) × (move_write_index (received b bytes) (length bytes) ≡ ok c)
      × Holds (contents b) c
unfolding move_write_index
move_write_index_full b bytes v full =
    let l = length-overwrite b.buffer b.write_index bytes (omega arith) in
    let outside : leb (length (received b bytes).buffer) (b.write_index + length bytes) ≡ true =
      ground (arith, l) in
    (
      received b bytes,
      rw outside,
      record { valid = omega (arith, l); unread = received-contents b bytes v },
    )
