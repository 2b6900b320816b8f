-- ===== src/Connection/Sending.antt =====
-- onWrite of a client: the requests that it sends.
use talon_rpc.Prelude.{
  ℕ, ◌+◌, ◌*◌, ◌/◌, ◌^◌, ◌<◌, ◌≡◌, refl, ap, ◌∙◌, List, [], ◌∷◌, ◌++◌, map, length, ◌==◌, true,
  arith,
}
use talon_rpc.Prelude.Outcome.{Outcome, ok, ◌>>=◌}
use talon_rpc.Buffer.{IsValid, contents, read_able}
use talon_rpc.Buffer.Contents.{length-contents}
use talon_rpc.Coder.Protocol.{TinyPbProtocol}
use talon_rpc.Coder.Wire.{wires, encoded, encode-wires}
use talon_rpc.Connection.{
  TcpConnection, connected, by_client, put_messages, encode_writes_as, after_write, call_dones,
  run_write_dones_as, on_write_as, on_write,
}
use talon_rpc.Connection.Loops.{WriteResult, written}
use talon_rpc.Connection.Writing.{write_loop_lem}

-- The messages that wait to be written, and the callbacks with what encode has made of them.
abbrev pub waiting_messages : {D : Type 0} → List (TinyPbProtocol × D) → List TinyPbProtocol
waiting_messages dones = map (λ p. p.0) dones

abbrev pub after_writes :
    {D S : Type 0} → (D → TinyPbProtocol → S → S) → List (TinyPbProtocol × D) → S → S
after_writes effect [] s = s
after_writes effect ((m, done) ∷ dones) s = after_writes effect dones (effect done (encoded m) s)

encoded_dones : {D : Type 0} → List (TinyPbProtocol × D) → List (TinyPbProtocol × D)
encoded_dones [] = []
encoded_dones ((m, done) ∷ dones) = (encoded m, done) ∷ encoded_dones dones

put_messages_lem :
    {D : Type 0} (dones : List (TinyPbProtocol × D))
    → put_messages (map encoded (waiting_messages dones)) dones ≡ encoded_dones dones
unfolding encoded_dones
put_messages_lem [] = refl
put_messages_lem ((m, done) ∷ dones) = ap (◌∷◌ (encoded m, done)) (put_messages_lem dones)

-- What a write callback may do: it succeeds, and as to the connection it adds no message to write,
-- which would invalidate the iterator of onWrite, and leaves the type and what has been received.
pub record IsWriteCallback {D E : Type 0}
    (effect : D → TinyPbProtocol → E × TcpConnection D → E × TcpConnection D)
    (call : D → TinyPbProtocol → E × TcpConnection D → Outcome (E × TcpConnection D)) : Type 0 where
  pub runs :
      (done : D) (m : TinyPbProtocol) (s : E × TcpConnection D)
      → call done m s ≡ ok (effect done m s)
  pub same_dones :
      (done : D) (m : TinyPbProtocol) (s : E × TcpConnection D)
      → (effect done m s).1.write_dones ≡ s.1.write_dones
  pub same_type :
      (done : D) (m : TinyPbProtocol) (s : E × TcpConnection D)
      → (effect done m s).1.connection_type ≡ s.1.connection_type

-- A connection that has written what it holds, before the callbacks run.
pub record HasWritten {D : Type 0} (c c' : TcpConnection D) : Type 0 where
  pub same_type : c'.connection_type ≡ c.connection_type
  pub same_reads : c'.read_dones ≡ c.read_dones
  pub same_in : c'.in_buffer ≡ c.in_buffer

-- m_write_dones is cleared when all callbacks have run.
abbrev pub none_waiting : {D E : Type 0} → E × TcpConnection D → E × TcpConnection D
none_waiting s = (s.0, record s.1 { write_dones = [] })

module _ {D E : Type 0} (effect : D → TinyPbProtocol → E × TcpConnection D → E × TcpConnection D)
    (call : D → TinyPbProtocol → E × TcpConnection D → Outcome (E × TcpConnection D)) where
  call_dones_lem :
      (dones : List (TinyPbProtocol × D)) (s : E × TcpConnection D)
      → IsWriteCallback effect call
      → call_dones call (encoded_dones dones) s ≡ ok (after_writes effect dones s)
  unfolding call_dones encoded_dones
  call_dones_lem [] s h = refl
  call_dones_lem ((m, done) ∷ dones) s h =
      let same : (length (effect done (encoded m) s).1.write_dones == length s.1.write_dones)
          ≡ true =
        rw (h.same_dones done (encoded m) s) (ground arith) in
      rw (h.runs done (encoded m) s, same) (call_dones_lem dones (effect done (encoded m) s) h)

  pub after_writes-same_type :
      (dones : List (TinyPbProtocol × D)) (s : E × TcpConnection D)
      → IsWriteCallback effect call
      → (after_writes effect dones s).1.connection_type ≡ s.1.connection_type
  after_writes-same_type [] s h = refl
  after_writes-same_type ((m, done) ∷ dones) s h =
      after_writes-same_type dones (effect done (encoded m) s) h ∙ h.same_type done (encoded m) s

  -- onWrite of a client's connection whose output buffer holds nothing, with a write() that takes
  -- all, sends the bytes of all messages that wait to be written, in their order, runs their
  -- callbacks once each, in the same order, and has none waiting afterwards.
  pub on_write-wires :
      (n : ℕ) (results : List WriteResult) (env : E) (c : TcpConnection D)
      → IsWriteCallback effect call
      → c.state ≡ connected
      → c.connection_type ≡ by_client
      → IsValid c.out_buffer
      → contents c.out_buffer ≡ []
      → 3 * (c.out_buffer.write_index + length (wires (waiting_messages c.write_dones))) / 2
        < 2 ^ 31
      → n ≡ length (wires (waiting_messages c.write_dones))
      → 0 < n
      → (c2 : TcpConnection D) × HasWritten c c2
        × (on_write call (written n ∷ results) (env, c)
            ≡ ok (
              wires (waiting_messages c.write_dones),
              none_waiting (after_writes effect c.write_dones (env, c2)),
            ))
  unfolding on_write
  on_write-wires n results env c h up client v empty fits size some_bytes =
      let ms = waiting_messages c.write_dones in
      let (b, e1, held) = encode-wires ms c.out_buffer v fits in
      let c1 = record c {
        out_buffer = b;
        write_dones = put_messages (map encoded ms) c.write_dones;
      } in
      let c2 = after_write true c1 in
      let s3 = none_waiting (after_writes effect c.write_dones (env, c2)) in
      let bytes : contents b ≡ wires ms = held.unread ∙ ap (λ s. s ++ wires ms) empty in
      let whole : n ≡ read_able b =
        (omega (arith, ap length bytes, length-contents b held.valid)) in
      let encodes : encode_writes_as c.connection_type c ≡ ok c1 =
        unfold encode_writes_as in ap (λ t. encode_writes_as t c) client ∙ rw e1 in
      let runs : run_write_dones_as call c.connection_type (env, c2) ≡ ok s3 =
        unfold run_write_dones_as after_write in
        ap (λ t. run_write_dones_as call t (env, c2)) client
        ∙ ap
            (λ ds.
              call_dones call ds (env, c2) >>= λ s. ok (s.0, record (s.1) { write_dones = [] }))
            (put_messages_lem c.write_dones)
        ∙ rw (call_dones_lem c.write_dones (env, c2) h) in
      let sent = write_loop_lem n results b held.valid (omega (arith, whole)) whole in
      (
        c2,
        unfold after_write in record { same_type = refl; same_reads = refl; same_in = refl },
        ap (λ t. on_write_as call t (written n ∷ results) (env, c)) up
            ∙ (unfold on_write_as in rw (encodes, sent, runs) (ap (λ s. ok (s, s3)) bytes)),
      )
