-- ===== src/Connection/Writing.antt =====
-- What onWrite of a server sends.
use talon_rpc.Prelude.{ℕ, ◌<◌, ◌≡◌, ap, ◌∙◌, List, ◌∷◌, length, leb, ◌==◌, true, false, arith}
use talon_rpc.Prelude.Outcome.{Outcome, ok}
use talon_rpc.Memory.{mem_read_lem}
use talon_rpc.Buffer.{TcpBuffer, IsValid, contents, read_able}
use talon_rpc.Buffer.Contents.{length-contents}
use talon_rpc.Coder.Protocol.{TinyPbProtocol}
use talon_rpc.Connection.{
  TcpConnection, connected, by_server, after_write, encode_writes_as, run_write_dones_as,
  on_write_as, on_write,
}
use talon_rpc.Connection.Loops.{WriteResult, written, write_calls, write_loop}

-- A write() that takes all.
pub write_loop_lem :
    (n : ℕ) (results : List WriteResult) (b : TcpBuffer)
    → IsValid b
    → 0 < read_able b
    → n ≡ read_able b
    → write_loop (written n ∷ results) b ≡ ok (true, contents b)
unfolding write_loop write_calls contents
write_loop_lem n results b v h e =
    let some_left : (read_able b == 0) ≡ false = ground arith in
    let l = length-contents b v in
    let given : leb n (length (contents b)) ≡ true = ground (arith, l) in
    let all : leb (length (contents b)) n ≡ true = ground (arith, l) in
    rw (some_left, mem_read_lem b.buffer b.read_index (read_able b) (omega arith), given, all)

module _ {D E : Type 0}
    (call : D → TinyPbProtocol → E × TcpConnection D → Outcome (E × TcpConnection D)) where
  on_write_once :
      (n : ℕ) (results : List WriteResult) (env : E) (c : TcpConnection D)
      → c.state ≡ connected
      → c.connection_type ≡ by_server
      → IsValid c.out_buffer
      → 0 < read_able c.out_buffer
      → n ≡ read_able c.out_buffer
      → on_write call (written n ∷ results) (env, c)
        ≡ ok (contents c.out_buffer, (env, after_write true c))
  unfolding on_write
  on_write_once n results env c up server v h e =
      let encoded : encode_writes_as c.connection_type c ≡ ok c =
        unfold encode_writes_as in ap (λ t. encode_writes_as t c) server in
      let done : run_write_dones_as call c.connection_type (env, after_write true c)
          ≡ ok (env, after_write true c) =
        unfold run_write_dones_as in
        ap (λ t. run_write_dones_as call t (env, after_write true c)) server in
      ap (λ t. on_write_as call t (written n ∷ results) (env, c)) up
      ∙ (unfold on_write_as in rw (encoded, write_loop_lem n results c.out_buffer v h e, done))

  -- onWrite of a server's connection, with a write() that takes all, sends the unread bytes of the
  -- output buffer and stops listening for the descriptor to become writable. It does not take the bytes
  -- out of the buffer: the next onWrite sends the same bytes again.
  pub on_write-repeats :
      (n : ℕ) (results : List WriteResult) (env : E) (c : TcpConnection D)
      → c.state ≡ connected
      → c.connection_type ≡ by_server
      → IsValid c.out_buffer
      → 0 < read_able c.out_buffer
      → n ≡ read_able c.out_buffer
      → (on_write call (written n ∷ results) (env, c)
          ≡ ok (contents c.out_buffer, (env, after_write true c)))
        × (on_write call (written n ∷ results) (env, after_write true c)
            ≡ ok (contents c.out_buffer, (env, after_write true (after_write true c))))
  unfolding after_write
  on_write-repeats n results env c up server v h e = (
    on_write_once n results env c up server v h e,
    on_write_once n results env (after_write true c) up server v h e,
  )
