-- ===== src/Buffer/Queue.antt =====
-- The buffer against a queue of bytes, for any sequence of writes and reads.
use talon_rpc.Prelude.{
  ℕ, ◌+◌, ◌*◌, ◌/◌, ◌^◌, ◌≤◌, ◌<◌, ◌≡◌, refl, sym, ap, ◌∙◌, List, [], ◌∷◌, ◌++◌, take, drop, length,
  min, leb, ◌==◌, Option, none, some, arith, take_all, drop_all, Bool-cases, inl, inr,
}
use talon_rpc.Prelude.Outcome.{Outcome, ok, ◌>>=◌}
use talon_rpc.Buffer.{TcpBuffer, IsValid, contents, read_able, write_to_buffer, read_from_buffer}
use talon_rpc.Buffer.Contents.{length-contents, Holds}
use talon_rpc.Buffer.Writes.{write_to_buffer_appends}
use talon_rpc.Buffer.Reads.{read_from_buffer_lem}

-- The calls of a buffer's users.
pub data BufferCall : Type 0 where
  write_call : List ℕ → BufferCall
  read_call : ℕ → BufferCall

-- What the reads hand out, one after the other, and the buffer.
unfoldable pub run_calls :
    List BufferCall → TcpBuffer → Outcome (List (Option (List ℕ)) × TcpBuffer)
run_calls [] b = ok ([], b)
run_calls (write_call buf ∷ calls) b = do b' ← write_to_buffer b buf; run_calls calls b'
run_calls (read_call size ∷ calls) b = do
  (re, b') ← read_from_buffer b size
  (res, b'') ← run_calls calls b'
  ok (re ∷ res, b'')

-- The same on a queue: a write goes to its end, a read takes up to so many bytes from its front, and
-- nothing from an empty queue.
abbrev pub pop : ℕ → List ℕ → Option (List ℕ) × List ℕ
pop size [] = (none, [])
pop size (c ∷ queue) = (some (take size (c ∷ queue)), drop size (c ∷ queue))

abbrev pub queue_calls : List BufferCall → List ℕ → List (Option (List ℕ)) × List ℕ
queue_calls [] queue = ([], queue)
queue_calls (write_call buf ∷ calls) queue = queue_calls calls (queue ++ buf)
queue_calls (read_call size ∷ calls) queue =
    let rest = queue_calls calls (pop size queue).1 in ((pop size queue).0 ∷ rest.0, rest.1)

-- All bytes that the calls write.
abbrev pub bytes_written : List BufferCall → ℕ
bytes_written [] = 0
bytes_written (write_call buf ∷ calls) = length buf + bytes_written calls
bytes_written (read_call size ∷ calls) = bytes_written calls

drop-min : (n : ℕ) (xs : List ℕ) → drop (min n (length xs)) xs ≡ drop n xs
drop-min n xs = elim (Bool-cases (leb n (length xs))) [
  | inl e ↦ let same : min n (length xs) ≡ n = ground arith in ap (λ k. drop k xs) same
  | inr e ↦ drop_all (min n (length xs)) xs (ground arith) ∙ sym (drop_all n xs (ground arith))
]

take-min : (n : ℕ) (xs : List ℕ) → take (min n (length xs)) xs ≡ take n xs
take-min n xs = elim (Bool-cases (leb n (length xs))) [
  | inl e ↦ let same : min n (length xs) ≡ n = ground arith in ap (λ k. take k xs) same
  | inr e ↦ take_all (min n (length xs)) xs (ground arith) ∙ sym (take_all n xs (ground arith))
]

pop_lem :
    (size : ℕ) (queue : List ℕ)
    → 0 < length queue
    → pop size queue ≡ (some (take size queue), drop size queue)
pop_lem size [] h = absurd (omega arith)
pop_lem size (c ∷ queue) h = refl

length_zero : (xs : List ℕ) → length xs ≡ 0 → xs ≡ []
length_zero [] h = refl
length_zero (x ∷ xs) h = absurd (omega arith)

pop-nil : (size : ℕ) (queue : List ℕ) → length queue ≡ 0 → pop size queue ≡ (none, [])
pop-nil size [] h = refl
pop-nil size (c ∷ queue) h = absurd (omega arith)

-- One read.
pub read_from_buffer-pop :
    (b : TcpBuffer) (size : ℕ)
    → IsValid b
    → (c : TcpBuffer) × (read_from_buffer b size ≡ ok ((pop size (contents b)).0, c))
      × Holds (pop size (contents b)).1 c
      × (c.write_index ≤ b.write_index)
read_from_buffer-pop b size v = elim (Bool-cases (read_able b == 0)) [
  | inl e ↦
      let l = length-contents b v in
      let none_left : length (contents b) ≡ 0 = ground (arith, l) in
      let popped = pop-nil size (contents b) none_left in
      let empty : contents b ≡ [] = length_zero (contents b) none_left in
      (
        b,
        unfold read_from_buffer in rw (e, popped),
        record { valid = v; unread = empty ∙ sym (ap (λ p. p.1) popped) },
        omega arith,
      )
  | inr e ↦
      let l = length-contents b v in
      let some_left : 0 < length (contents b) = ground (arith, l) in
      let popped = pop_lem size (contents b) some_left in
      let (c, r, held, low) = read_from_buffer_lem b size v (ground arith) in
      let n : min size (read_able b) ≡ min size (length (contents b)) = omega (arith, l) in
      let taken = ap (λ k. take k (contents b)) n ∙ take-min size (contents b) in
      let dropped = ap (λ k. drop k (contents b)) n ∙ drop-min size (contents b) in
      (
        c,
        r ∙ ap (λ t. ok (some t, c)) taken ∙ ap (λ o. ok (o, c)) (sym (ap (λ p. p.0) popped)),
        record { valid = held.valid; unread = held.unread ∙ dropped ∙ sym (ap (λ p. p.1) popped) },
        low,
      )
]

-- Any sequence of writes and reads of a buffer hands out what the same sequence on a queue of bytes
-- hands out, and leaves the same bytes unread; no copy is out of bounds. The bytes written and the
-- write index together must stay below two thirds of 2 ^ 31.
pub run_calls-queue_calls :
    (calls : List BufferCall) (b : TcpBuffer)
    → IsValid b
    → 3 * (b.write_index + bytes_written calls) / 2 < 2 ^ 31
    → (c : TcpBuffer) × (run_calls calls b ≡ ok ((queue_calls calls (contents b)).0, c))
      × Holds (queue_calls calls (contents b)).1 c
unfolding run_calls
run_calls-queue_calls [] b v fits = (b, refl, record { valid = v; unread = refl })
run_calls-queue_calls (write_call buf ∷ calls) b v fits =
    let (b1, e, held, low) = write_to_buffer_appends b buf v (omega (arith, fits)) in
    let (c, e1, left) = run_calls-queue_calls calls b1 held.valid (omega (arith, fits, low)) in
    let same = held.unread in
    (
      c,
      rw e (e1 ∙ ap (λ q. ok ((queue_calls calls q).0, c)) same),
      record { valid = left.valid; unread = left.unread ∙ ap (λ q. (queue_calls calls q).1) same },
    )
run_calls-queue_calls (read_call size ∷ calls) b v fits =
    let (b1, e, held, low) = read_from_buffer-pop b size v in
    let (c, e1, left) = run_calls-queue_calls calls b1 held.valid (omega (arith, fits, low)) in
    let same = held.unread in
    (
      c,
      rw (e, e1) (ap (λ q. ok ((pop size (contents b)).0 ∷ (queue_calls calls q).0, c)) same),
      record { valid = left.valid; unread = left.unread ∙ ap (λ q. (queue_calls calls q).1) same },
    )
