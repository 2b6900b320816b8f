-- ===== src/Buffer/Contents.antt =====
-- Each operation of the buffer in terms of its unread bytes.
use talon_rpc.Prelude.{
  ℕ, ◌/◌, ◌≤◌, ◌≡◌, refl, ◌∙◌, inl, inr, List, length, ltb, arith, min, replicate, length-replicate,
  take-append, Bool-cases,
}
use talon_rpc.Prelude.Outcome.{ok, ◌>>=◌}
use talon_rpc.Memory.{
  mem_read, mem_write, mem_read_lem, mem_write_lem, overwrite, length-slice, length-overwrite,
}
use talon_rpc.Buffer.{TcpBuffer, IsValid, contents, read_able, resize_buffer, adjust_buffer}

pub length-contents : (b : TcpBuffer) → IsValid b → length (contents b) ≡ read_able b
unfolding contents
length-contents b v = length-slice b.buffer b.read_index (read_able b) (omega arith)

zeros : (n : ℕ) → length {A = ℕ} (replicate n 0) ≡ n
zeros n = length-replicate n 0

-- What an operation that succeeds makes of the buffer: a valid one with the given bytes unread.
pub record Holds (bytes : List ℕ) (b : TcpBuffer) : Type 0 where
  pub valid : IsValid b
  pub unread : contents b ≡ bytes

-- The buffer moved to the front of a new vector of n bytes.
abbrev pub compact : TcpBuffer → ℕ → TcpBuffer
compact b n = record b {
  buffer = overwrite (replicate n 0) 0 (contents b);
  read_index = 0;
  write_index = read_able b;
}

pub length-compact :
    (b : TcpBuffer) (n : ℕ) → IsValid b → read_able b ≤ n → length (compact b n).buffer ≡ n
length-compact b n v h =
    length-overwrite (replicate n 0) 0 (contents b) (omega (arith, length-contents b v, zeros n))
    ∙ zeros n

compact-contents : (b : TcpBuffer) (n : ℕ) → IsValid b → contents (compact b n) ≡ contents b
compact-contents b n v = unfold contents in take-append _ _ _ (omega (arith, length-contents b v))

-- What compacting keeps.
pub record IsSame (b c : TcpBuffer) : Type 0 where
  pub valid : IsValid c
  pub unread : contents c ≡ contents b
  pub readable : read_able c ≡ read_able b
  pub low : c.write_index ≤ b.write_index

pub compact-IsSame : (b : TcpBuffer) (n : ℕ) → IsValid b → read_able b ≤ n → IsSame b (compact b n)
compact-IsSame b n v h = record {
  valid = omega (arith, length-compact b n v h);
  unread = compact-contents b n v;
  readable = omega arith;
  low = omega arith;
}

-- Both ways to move the unread bytes copy them out and in again, and neither copy is out of bounds.
relocate :
    (b : TcpBuffer) (n : ℕ)
    → IsValid b
    → read_able b ≤ n
    → (mem_read b.buffer b.read_index (read_able b) >>= λ bytes.
        mem_write (replicate n 0) 0 bytes >>= λ tmp.
        ok (record b { buffer = tmp; read_index = 0; write_index = read_able b }))
      ≡ ok (compact b n)
relocate b n v h = rw (mem_read_lem b.buffer b.read_index (read_able b) (omega arith)) (
    unfold contents in
    rw (mem_write_lem (replicate n 0) 0 (contents b) (omega (arith, length-contents b v, zeros n))))

pub resize_buffer_lem :
    (b : TcpBuffer) (n : ℕ) → IsValid b → read_able b ≤ n → resize_buffer b n ≡ ok (compact b n)
unfolding resize_buffer
resize_buffer_lem b n v h =
    let e : min n (read_able b) ≡ read_able b = omega arith in rw e (relocate b n v h)

pub adjust_buffer_lem :
    (b : TcpBuffer)
    → IsValid b
    → (c : TcpBuffer) × (adjust_buffer b ≡ ok c) × IsSame b c × (length c.buffer ≡ length b.buffer)
unfolding adjust_buffer
adjust_buffer_lem b v = elim (Bool-cases (ltb b.read_index (length b.buffer / 3))) [
  | inl e ↦ (b, rw e, record { valid = v; unread = refl; readable = refl; low = omega arith }, refl)
  | inr e ↦
      let h : read_able b ≤ length b.buffer = omega arith in
      (
        compact b (length b.buffer),
        rw e (relocate b _ v h),
        compact-IsSame b _ v h,
        length-compact b _ v h,
      )
]
