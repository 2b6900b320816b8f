-- ===== src/Buffer/Reads.antt =====
-- What comes out of the buffer: readFromBuffer and moveReadIndex.
use talon_rpc.Prelude.{
  ℕ, ◌+◌, ◌≤◌, ◌<◌, ◌≡◌, refl, sym, ap, ◌∙◌, ◌⊎◌, inl, inr, List, ◌++◌, take, drop, length, leb,
  ltb, ◌==◌, if◌then◌else◌, arith, min, length-take, drop-drop, drop-take, take-append-drop, true,
  false, Bool-cases, Option, none, some, take-take,
}
use talon_rpc.Prelude.Int.{pos, pos_add}
use talon_rpc.Prelude.Outcome.{ok, ◌>>=◌}
use talon_rpc.Memory.{mem_read, mem_read_lem}
use talon_rpc.Buffer.Contents.{length-contents, Holds, adjust_buffer_lem}
use talon_rpc.Buffer.{
  TcpBuffer, IsValid, contents, read_able, adjust_buffer, read_from_buffer, move_read_index,
  move_read_index_to,
}

-- The read index moved on by n.
abbrev skip : TcpBuffer → ℕ → TcpBuffer
skip b n = record b { read_index = b.read_index + n }

skip-contents :
    (b : TcpBuffer) (n : ℕ) → n ≤ read_able b → contents (skip b n) ≡ drop n (contents b)
unfolding contents
skip-contents b n h = rw (
  drop-take n (read_able b) (read_able (skip b n)) (drop b.read_index b.buffer) (omega arith),
  drop-drop n b.read_index (b.read_index + n) b.buffer refl,
)

skip_adjust :
    (b : TcpBuffer) (n : ℕ)
    → IsValid b
    → n ≤ read_able b
    → (c : TcpBuffer) × (adjust_buffer (skip b n) ≡ ok c)
      × Holds (drop n (contents b)) c
      × (length c.buffer ≡ length b.buffer)
      × (c.write_index ≤ b.write_index)
skip_adjust b n v h =
    let (c, e, same, size) = adjust_buffer_lem (skip b n) (omega arith) in
    (
      c,
      e,
      record { valid = same.valid; unread = same.unread ∙ skip-contents b n h },
      size,
      same.low,
    )

-- moveReadIndex drops the bytes that it is told to, if the index stays before the vector's end.
pub move_read_index_drops :
    (b : TcpBuffer) (n : ℕ)
    → IsValid b
    → n ≤ read_able b
    → b.read_index + n < length b.buffer
    → (c : TcpBuffer) × (move_read_index b (pos n) ≡ ok c)
      × Holds (drop n (contents b)) c
      × (length c.buffer ≡ length b.buffer)
      × (c.write_index ≤ b.write_index)
unfolding move_read_index move_read_index_to
move_read_index_drops b n v h room =
    let (c, e, held, size, low) = skip_adjust b n v h in
    let inside : leb (length b.buffer) (b.read_index + n) ≡ false = ground arith in
    (c, rw (pos_add b.read_index n) (rw inside e), held, size, low)

-- At the vector's end it changes nothing, also where the bytes to drop are all there.
pub move_read_index_full :
    (b : TcpBuffer) (n : ℕ) → length b.buffer ≤ b.read_index + n → move_read_index b (pos n) ≡ ok b
unfolding move_read_index move_read_index_to
move_read_index_full b n h =
    let outside : leb (length b.buffer) (b.read_index + n) ≡ true = ground arith in
    rw (pos_add b.read_index n) (rw outside)

slice-contents :
    (b : TcpBuffer) (n : ℕ)
    → n ≤ read_able b
    → take n (drop b.read_index b.buffer) ≡ take n (contents b)
unfolding contents
slice-contents b n h = sym (take-take n (read_able b) n (drop b.read_index b.buffer) (omega arith))

-- The bytes that readFromBuffer copies are the first n unread ones; `read_size` is n.
read_bytes :
    (b : TcpBuffer) (n : ℕ)
    → IsValid b
    → n ≤ read_able b
    → (c : TcpBuffer) × (◌>>=◌ {B = Option (List ℕ) × TcpBuffer}
          (mem_read b.buffer b.read_index n)
          (λ tmp. adjust_buffer (skip b n) >>= λ b'. ok (some tmp, b'))
        ≡ ok (some (take n (contents b)), c))
      × Holds (drop n (contents b)) c
      × (c.write_index ≤ b.write_index)
read_bytes b n v h =
    let (c, e, held, _, low) = skip_adjust b n v h in
    (
      c,
      rw (mem_read_lem b.buffer b.read_index n (omega arith), e)
          (ap (λ t. ok (some t, c)) (slice-contents b n h)),
      held,
      low,
    )

-- readFromBuffer hands out the first bytes that are unread, as many as asked for and there, and
-- leaves the rest; where nothing is unread it changes neither the buffer nor the caller's vector.
pub read_from_buffer_splits :
    (b : TcpBuffer) (size : ℕ)
    → IsValid b
    → ((read_able b ≡ 0) × (read_from_buffer b size ≡ ok (none, b)))
      ⊎ ((re : List ℕ) × (c : TcpBuffer) × (read_from_buffer b size ≡ ok (some re, c))
          × (contents b ≡ re ++ contents c)
          × (length re ≡ min size (read_able b))
          × IsValid c)
unfolding read_from_buffer
read_from_buffer_splits b size v = elim (Bool-cases (read_able b == 0)) [
  | inl e ↦ inl (ground arith, rw e)
  | inr e ↦
      let n = if ltb size (read_able b) then size else read_able b in
      let n_min : n ≡ min size (read_able b) = ground arith in
      let (c, r, held, low) = read_bytes b n v (omega arith) in
      inr (
        take n (contents b),
        c,
        rw e r,
        rw held.unread (sym (take-append-drop n (contents b))),
        omega (arith, length-take n (contents b), length-contents b v),
        held.valid,
      )
]

-- What readFromBuffer does, with the number of bytes that it takes and the bound on the write index.
pub read_from_buffer_lem :
    (b : TcpBuffer) (size : ℕ)
    → IsValid b
    → 0 < read_able b
    → (c : TcpBuffer) × (read_from_buffer b size
        ≡ ok (some (take (min size (read_able b)) (contents b)), c))
      × Holds (drop (min size (read_able b)) (contents b)) c
      × (c.write_index ≤ b.write_index)
unfolding read_from_buffer
read_from_buffer_lem b size v h =
    let some_left : (read_able b == 0) ≡ false = ground arith in
    let n = if ltb size (read_able b) then size else read_able b in
    let n_min : n ≡ min size (read_able b) = ground arith in
    let (c, r, held, low) = read_bytes b n v (omega arith) in
    (
      c,
      rw some_left (r ∙ ap (λ k. ok (some (take k (contents b)), c)) n_min),
      record { valid = held.valid; unread = held.unread ∙ ap (λ k. drop k (contents b)) n_min },
      low,
    )
